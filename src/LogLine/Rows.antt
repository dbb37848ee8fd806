-- ===== src/LogLine/Rows.antt =====
-- cmd/logparser/main.go: the row that belongs to a line of pkg/generator/generator.go.
use knative_benchmark.Prelude.{
  ℕ, ◌≤◌, ◌/◌, ◌≡◌, [], Option, none, some, Text, codes, text_eq, ℤ, pos,
}
use knative_benchmark.Decimal.{max_int}
use knative_benchmark.Pool.Trace.{ResponseMetrics}
use knative_benchmark.LogParser.Request.{RequestInfo, to_lower}
use knative_benchmark.LogParser.Process.{Services}
use knative_benchmark.LogLine.{Sent, string_value}
use knative_benchmark.LogLine.Values.{Body, body_text, inner, IsText, IsPlain}

-- A request with a body of either form.
pub record Success : Type 0 where
  pub sent : Sent
  pub body : Body

-- A text, if there is one, is simple.
abbrev pub IsId : Option Text → Type 0
IsId none = Unit
IsId (some id) = IsText id

-- The durations fit into an `int`.
abbrev pub Fit : ResponseMetrics → Type 0
Fit m =
    (m.timing.ttfb ≤ max_int)
    × (m.total ≤ max_int)
    × (m.timing.dns_time ≤ max_int)
    × (m.timing.connect_time ≤ max_int)
    × (m.timing.tls_time ≤ max_int)

-- The time is plain; the URL, the id and the text of the body are printable, without quotes and
-- backslashes; and the status and the durations fit into an `int`.
pub record IsSound (e : Success) : Type 0 where
  pub time_IsPlain : IsPlain e.sent.time
  pub url_IsText : IsText e.sent.url
  pub id_IsId : IsId e.sent.id
  pub same_body : e.sent.metrics.response.body ≡ body_text e.body
  pub body_IsText : IsText (inner e.body)
  pub status_fits : e.sent.metrics.response.status ≤ max_int
  pub durations_fit : Fit e.sent.metrics

abbrev pub id_value : Option Text → Text
id_value none = []
id_value (some id) = string_value id

module _ {T : Type 0} (sv : Services T) where
  abbrev parsed_or_zero : Option T → T
  parsed_or_zero none = sv.zero_time
  parsed_or_zero (some t) = t

  -- The row of a request: a string has quotes around it where slog puts them.
  unfoldable pub row_of : Success → RequestInfo T
  row_of e =
      let m = e.sent.metrics in
      record {
        timestamp = parsed_or_zero (sv.parse_time e.sent.time);
        eventid = id_value e.sent.id;
        status = pos m.response.status;
        ttfb = pos (m.timing.ttfb / 1000000);
        total = pos (m.total / 1000000);
        is_cold = text_eq (to_lower (inner e.body)) (codes "true");
        dns = pos (m.timing.dns_time / 1000000);
        connect = pos (m.timing.connect_time / 1000000);
        tls = pos (m.timing.tls_time / 1000000);
        error_message = [];
        target = string_value e.sent.url;
      }

-- Durations are printed as plain texts, and parsed back.
pub record PrintsDurations (parse_duration : Text → Option ℤ) (print : ℕ → Text) : Type 0 where
  pub print_IsPlain : (d : ℕ) → d ≤ max_int → IsPlain (print d)
  pub print_parses : (d : ℕ) → d ≤ max_int → parse_duration (print d) ≡ some (pos d)
