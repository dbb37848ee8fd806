-- ===== src/LogParser/Filename/RoundTrip.antt =====
-- pkg/store/store.go and cmd/logparser/main.go: the names of log files, written and parsed.
use knative_benchmark.Prelude.{
  suc, ◌-◌, ◌≡◌, ◌≢◌, refl, ap, ◌∙◌, false, List, [], ◌∷◌, ◌++◌, ltb, Text, codes, trim_suffix,
  trim_suffix-append, split, split-append, split_whole, split-ne-nil, length, length-append, take,
  take-append, get_or, get_or-append, arith, Lacks,
}
use knative_benchmark.Timestamp.{Timestamp, format_date, format_clock}
use knative_benchmark.Timestamp.Laws.{
  IsValid, parse_timestamp-format, format_date-Lacks, format_clock-Lacks,
}
use knative_benchmark.Store.{log_file_name, log_file_path, base}
use knative_benchmark.Store.Laws.{base-log_file_path}
use knative_benchmark.LogParser.Filename.{classify, parse_filename}

split-log_file_name :
    (prefix : Text) (t : Timestamp)
    → IsValid t
    → split (trim_suffix (log_file_name prefix t) (codes ".log")) b'_'
      ≡ split prefix b'_' ++ format_date t ∷ format_clock t ∷ []
unfolding log_file_name
split-log_file_name prefix t v = rw trim_suffix-append (
    split-append prefix (format_date t ++ b'_' ∷ format_clock t) b'_'
    ∙ ap (λ r. split prefix b'_' ++ r)
        (split-append (format_date t) (format_clock t) b'_'
          ∙ rw (split_whole (format_date t) b'_' (format_date-Lacks t v))
              (rw (split_whole (format_clock t) b'_' (format_clock-Lacks t v)) refl)))

second : (ps : List Text) (a b : Text) → get_or (ps ++ a ∷ b ∷ []) (suc (length ps)) [] ≡ b
second [] a b = refl
second (p ∷ ps) a b = second ps a b

-- The last two of the parts, and those before them.
last_two :
    (ps : List Text) (a b : Text)
    → (take (length (ps ++ a ∷ b ∷ []) - 2) (ps ++ a ∷ b ∷ []) ≡ ps)
      × (get_or (ps ++ a ∷ b ∷ []) (length (ps ++ a ∷ b ∷ []) - 2) [] ≡ a)
      × (get_or (ps ++ a ∷ b ∷ []) (length (ps ++ a ∷ b ∷ []) - 1) [] ≡ b)
last_two ps a b =
    let before : length (ps ++ a ∷ b ∷ []) - 2 ≡ length ps =
      omega (arith, length-append ps (a ∷ b ∷ [])) in
    let last : length (ps ++ a ∷ b ∷ []) - 1 ≡ suc (length ps) =
      omega (arith, length-append ps (a ∷ b ∷ [])) in
    (
      rw before (take-append ps (a ∷ b ∷ [])),
      rw before (get_or-append ps a [] (b ∷ [])),
      rw last (second ps a b),
    )

three_parts : (ps : List Text) (a b : Text) → ps ≢ [] → ltb (length (ps ++ a ∷ b ∷ [])) 3 ≡ false
three_parts [] a b h = absurd (h refl)
three_parts (p ∷ ps) a b h = ground (arith, length-append ps (a ∷ b ∷ []))

parse_filename-log_file_name :
    (prefix : Text) (t : Timestamp)
    → IsValid t
    → parse_filename (log_file_name prefix t)
      ≡ classify (record t { nanos = 0 }) (split prefix b'_')
unfolding parse_filename
parse_filename-log_file_name prefix t v =
    let (before, date, clock) = last_two (split prefix b'_') (format_date t) (format_clock t) in
    let enough : ltb (length (split prefix b'_' ++ format_date t ∷ format_clock t ∷ [])) 3 ≡ false =
      three_parts (split prefix b'_') (format_date t) (format_clock t) (split-ne-nil prefix b'_') in
    rw (split-log_file_name prefix t v)
      (rw enough (rw (before, date, clock) (rw (parse_timestamp-format t v) refl)))

-- The name under which a log file stands in its directory, at a valid time of the years 0 to 9999 and
-- for a prefix without a slash, is split into the parts of the prefix and the time, up to the second
-- and read as UTC, whatever the directory is.
pub parse_filename-log_file_path :
    (prefix dir : Text) (t : Timestamp)
    → IsValid t
    → Lacks b'/' prefix
    → parse_filename (base (log_file_path prefix dir t))
      ≡ classify (record t { nanos = 0 }) (split prefix b'_')
parse_filename-log_file_path prefix dir t v h =
    rw (base-log_file_path prefix dir t v h) (parse_filename-log_file_name prefix t v)
