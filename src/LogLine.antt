-- ===== src/LogLine.antt =====
-- pkg/generator/generator.go: the line `msg=Success` of the log, as `slog.TextHandler` writes it.
pub mod Values
pub mod Texts
pub mod Rows
pub mod Laws
pub mod Tests
use knative_benchmark.Prelude.{
  ℕ, Bool, true, false, ◌||◌, List, [], ◌∷◌, ◌++◌, Option, none, some, if◌then◌else◌, Text, codes,
  is_empty, ltb, ◌==◌,
}
use knative_benchmark.Decimal.{decimal}
use knative_benchmark.Pool.Trace.{ResponseMetrics}
use knative_benchmark.LogParser.Pairs.{quote, backslash}

-- A byte for which slog quotes a text: a space, `=`, a quote, and what is no printable byte; a
-- backslash is none.
abbrev pub is_special : ℕ → Bool
is_special c = c == b' ' || c == b'=' || c == quote || ltb c 32

unfoldable pub has_special : Text → Bool
has_special [] = false
has_special (c ∷ s) = is_special c || has_special s

unfoldable pub needs_quoting : Text → Bool
unfolding has_special
needs_quoting s = is_empty s || has_special s

-- `strconv.Quote` without the quotes around, for a text of printable ASCII bytes.
unfoldable pub escape : Text → Text
escape [] = []
escape (c ∷ s) =
    let rest = escape s in if c == quote || c == backslash then backslash ∷ c ∷ rest else c ∷ rest

-- A string as the value of an attribute.
unfoldable pub string_value : Text → Text
unfolding needs_quoting escape
string_value s = if needs_quoting s then quote ∷ (escape s ++ quote ∷ []) else s

-- Attributes, with one space between them.
unfoldable pub attribute : Text × Text → Text
attribute (key, value) = key ++ b'=' ∷ value

unfoldable pub more_attributes : List (Text × Text) → Text
unfolding attribute
more_attributes [] = []
more_attributes (a ∷ as') = b' ' ∷ (attribute a ++ more_attributes as')

unfoldable pub attributes : List (Text × Text) → Text
unfolding attribute more_attributes
attributes [] = []
attributes (a ∷ as') = attribute a ++ more_attributes as'

-- A request that succeeded: when its line is written, in the form of slog, the URL of its target, the
-- id of its event, if it is one, and what was measured.
pub record Sent : Type 0 where
  pub time : Text
  pub url : Text
  pub id : Option Text
  pub metrics : ResponseMetrics

-- `print` is `Duration.String`. Times, levels, durations and numbers are written without a test for
-- quotes.
module _ (print : ℕ → Text) where
  unfoldable pub measurements : ResponseMetrics → List (Text × Text)
  unfolding string_value
  measurements m =
      (codes "TTFB", print m.timing.ttfb)
      ∷ (codes "Total", print m.total)
      ∷ (codes "isCold", string_value m.response.body)
      ∷ (codes "status", decimal m.response.status)
      ∷ (codes "DNS", print m.timing.dns_time)
      ∷ (codes "Connect", print m.timing.connect_time)
      ∷ (codes "TLS", print m.timing.tls_time)
      ∷ []

  with_id : Option Text → List (Text × Text) → List (Text × Text)
  unfolding string_value
  with_id none as' = as'
  with_id (some id) as' = (codes "id", string_value id) ∷ as'

  -- `efficientLogger.Info("Success", …)` of a logger with the attribute `target`.
  unfoldable pub success_line : Sent → Text
  unfolding attributes with_id measurements
  success_line e = attributes (
      (codes "time", e.time)
      ∷ (codes "level", codes "INFO")
      ∷ (codes "msg", string_value (codes "Success"))
      ∷ (codes "target", string_value e.url)
      ∷ with_id e.id (measurements e.metrics))
