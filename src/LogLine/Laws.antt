-- ===== src/LogLine/Laws.antt =====
-- The lines that pkg/generator/generator.go writes, read by cmd/logparser/main.go.
use knative_benchmark.Prelude.{
  ℕ, ◌≡◌, refl, true, List, [], ◌∷◌, ◌++◌, Option, none, some, Text, codes, All, arith, map,
}
use knative_benchmark.Decimal.{decimal}
use knative_benchmark.Pool.Trace.{ResponseMetrics}
use knative_benchmark.LogParser.Pairs.{collect}
use knative_benchmark.LogParser.Pairs.Values.{plain, Attr, IsAttr, pair_of}
use knative_benchmark.LogParser.Request.{parse_request, request_of_pairs}
use knative_benchmark.LogParser.Process.{Services, requests_of, is_request_line}
use knative_benchmark.LogLine.{
  needs_quoting, string_value, attributes, attribute, more_attributes, escape, measurements,
  with_id, success_line,
}
use knative_benchmark.LogLine.Values.{
  Body, body_text, inner, form, body_form, IsText, string_value-form, form-IsValue,
  string_value-body_form, body_form-IsValue, decimal-IsPlain, written,
}
use knative_benchmark.LogLine.Texts.{
  parse_key_value_pairs-attributes, contains-append, is_request_line-contains, atoi_value-decimal,
  clean_cold-body_form,
}
use knative_benchmark.LogLine.Rows.{Success, IsId, Fit, IsSound, row_of, PrintsDurations}

module _ {T : Type 0} (sv : Services T) (print : ℕ → Text)
    (prints : PrintsDurations sv.parse_duration print) where
  id_attrs : Option Text → List Attr → List Attr
  id_attrs none as' = as'
  id_attrs (some id) as' = (codes "id", form id) ∷ as'

  measurements_attrs : ResponseMetrics → Body → List Attr
  measurements_attrs m b =
      (codes "TTFB", plain (print m.timing.ttfb))
      ∷ (codes "Total", plain (print m.total))
      ∷ (codes "isCold", body_form b)
      ∷ (codes "status", plain (decimal m.response.status))
      ∷ (codes "DNS", plain (print m.timing.dns_time))
      ∷ (codes "Connect", plain (print m.timing.connect_time))
      ∷ (codes "TLS", plain (print m.timing.tls_time))
      ∷ []

  success_attrs : Success → List Attr
  unfolding id_attrs measurements_attrs
  success_attrs e =
      (codes "time", plain e.sent.time)
      ∷ (codes "level", plain (codes "INFO"))
      ∷ (codes "msg", plain (codes "Success"))
      ∷ (codes "target", form e.sent.url)
      ∷ id_attrs e.sent.id (measurements_attrs e.sent.metrics e.body)

  measurements-attrs :
      (m : ResponseMetrics) (b : Body)
      → m.response.body ≡ body_text b
      → IsText (inner b)
      → measurements print m ≡ map written (measurements_attrs m b)
  unfolding measurements measurements_attrs
  measurements-attrs m b same h = rw same (rw (string_value-body_form b h) refl)

  with_id-attrs :
      (id : Option Text) (as' : List (Text × Text)) (bs : List Attr)
      → IsId id
      → as' ≡ map written bs
      → with_id print id as' ≡ map written (id_attrs id bs)
  unfolding with_id id_attrs
  with_id-attrs none as' bs h e = e
  with_id-attrs (some id) as' bs h e = rw (string_value-form id h, e) refl

  success_line-attrs :
      (e : Success)
      → IsSound e
      → success_line print e.sent ≡ attributes (map written (success_attrs e))
  unfolding success_line success_attrs
  success_line-attrs e h =
      rw
        (
          string_value-form e.sent.url h.url_IsText,
          with_id-attrs e.sent.id (measurements print e.sent.metrics)
              (measurements_attrs e.sent.metrics e.body) h.id_IsId
              (measurements-attrs e.sent.metrics e.body h.same_body h.body_IsText),
        )
        refl

  measurements-IsAttr :
      (m : ResponseMetrics) (b : Body)
      → IsText (inner b)
      → Fit m
      → All IsAttr (measurements_attrs m b)
  unfolding measurements_attrs
  measurements-IsAttr m b h (f1, f2, f3, f4, f5) =
      let printed = prints.print_IsPlain in
      (
        ((ground arith, ground arith), printed m.timing.ttfb f1),
        (
          ((ground arith, ground arith), printed m.total f2),
          (
            ((ground arith, ground arith), body_form-IsValue b h),
            (
              ((ground arith, ground arith), decimal-IsPlain m.response.status),
              (
                ((ground arith, ground arith), printed m.timing.dns_time f3),
                (
                  ((ground arith, ground arith), printed m.timing.connect_time f4),
                  (((ground arith, ground arith), printed m.timing.tls_time f5), tt),
                ),
              ),
            ),
          ),
        ),
      )

  id-IsAttr :
      (id : Option Text) (as' : List Attr) → IsId id → All IsAttr as' → All IsAttr (id_attrs id as')
  unfolding id_attrs
  id-IsAttr none as' h hs = hs
  id-IsAttr (some id) as' h hs = (((ground arith, ground arith), form-IsValue id h), hs)

  success-IsAttr : (e : Success) → IsSound e → All IsAttr (success_attrs e)
  unfolding success_attrs
  success-IsAttr e h = (
    ((ground arith, ground arith), h.time_IsPlain),
    (
      ((ground arith, ground arith), (ground arith, ground arith)),
      (
        ((ground arith, ground arith), (ground arith, ground arith)),
        (
          ((ground arith, ground arith), form-IsValue e.sent.url h.url_IsText),
          id-IsAttr e.sent.id (measurements_attrs e.sent.metrics e.body) h.id_IsId
              (measurements-IsAttr e.sent.metrics e.body h.body_IsText h.durations_fit),
        ),
      ),
    ),
  )

  parse_request-success_attrs :
      (e : Success) (id : Option Text)
      → e.sent.id ≡ id
      → IsSound e
      → request_of_pairs sv.parse_time sv.zero_time sv.parse_duration
          (collect (map pair_of (success_attrs e)) [])
        ≡ row_of sv e
  unfolding success_attrs id_attrs measurements_attrs row_of request_of_pairs collect
  parse_request-success_attrs e none same h = rw same (
      rw
        (
          string_value-form e.sent.url h.url_IsText,
          prints.print_parses e.sent.metrics.timing.ttfb h.durations_fit.0,
          prints.print_parses e.sent.metrics.total h.durations_fit.1,
          prints.print_parses e.sent.metrics.timing.dns_time h.durations_fit.2,
          prints.print_parses e.sent.metrics.timing.connect_time h.durations_fit.3,
          prints.print_parses e.sent.metrics.timing.tls_time h.durations_fit.4,
          atoi_value-decimal e.sent.metrics.response.status h.status_fits,
          clean_cold-body_form e.body h.body_IsText,
        )
        refl)
  parse_request-success_attrs e (some id) same h =
      let id_IsText : IsText id = rw same at h.id_IsId in
      rw same (
        rw
          (
            string_value-form id id_IsText,
            string_value-form e.sent.url h.url_IsText,
            prints.print_parses e.sent.metrics.timing.ttfb h.durations_fit.0,
            prints.print_parses e.sent.metrics.total h.durations_fit.1,
            prints.print_parses e.sent.metrics.timing.dns_time h.durations_fit.2,
            prints.print_parses e.sent.metrics.timing.connect_time h.durations_fit.3,
            prints.print_parses e.sent.metrics.timing.tls_time h.durations_fit.4,
            atoi_value-decimal e.sent.metrics.response.status h.status_fits,
            clean_cold-body_form e.body h.body_IsText,
          )
          refl)

  is_request_line-success_line : (e : Success) → is_request_line (success_line print e.sent) ≡ true
  unfolding success_line attributes attribute more_attributes string_value needs_quoting escape
  is_request_line-success_line e =
      let rest =
        string_value e.sent.url
        ++ more_attributes (with_id print e.sent.id (measurements print e.sent.metrics)) in
      is_request_line-contains (success_line print e.sent) (
        contains-append (codes "time=" ++ e.sent.time)
          (codes " level=INFO msg=Success target=" ++ rest) (codes "msg=Success") refl)

  parse_request-success_line :
      (e : Success)
      → IsSound e
      → parse_request sv.parse_time sv.zero_time sv.parse_duration (success_line print e.sent)
        ≡ row_of sv e
  unfolding parse_request
  parse_request-success_line e h = rw (success_line-attrs e h) (
      rw (parse_key_value_pairs-attributes (success_attrs e) (success-IsAttr e h))
        (parse_request-success_attrs e e.sent.id refl h))

  -- Of the lines that a generator writes for requests that succeeded, at a time without spaces and
  -- quotes, with a URL, an id, if there is one, and a body of printable ASCII without backslashes and
  -- without quotes, but for those around a body in quotes, with a status and durations that an `int`
  -- holds, and durations printed in a plain form that is parsed back, the log parser makes one row
  -- each, in order: with the time as it is parsed, the id and the URL, in quotes where slog puts them,
  -- the status, the durations in whole milliseconds, no error, and the flag for a cold start just when
  -- the body is `true` in letters of any case, in quotes or not.
  pub requests_of-success_line :
      (es : List Success)
      → All IsSound es
      → requests_of sv (map (λ e. success_line print e.sent) es) ≡ map (row_of sv) es
  unfolding requests_of
  requests_of-success_line [] h = refl
  requests_of-success_line (e ∷ es) (h, hs) =
      rw
        (
          is_request_line-success_line e,
          parse_request-success_line e h,
          requests_of-success_line es hs,
        )
        refl
