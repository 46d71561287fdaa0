-- ===== src/Agent/Influx.antt =====
-- agent/parser.go: the parser of the line protocol, which hands a text to misc/points.go and makes
-- metrics of its points. `client.NewPoint`, which NewMetric wraps, and the escape of influxdata are
-- parameters; NewMetric's errors are ignored, and leave an element nil.
pub mod Defaults
use vgo.Prelude.{
  ℕ, Bytes, codes, Bool, ◌==◌, List, [], ◌∷◌, ◌++◌, Option, none, some, if◌then◌else◌,
}
use vgo.Prelude.Int.{ℤ}
use vgo.Prelude.Dict.{Dict, upsert_all}
use vgo.Prelude.Outcome.{Outcome, returned, panicked, then_call}
use vgo.Agent.Accumulator.{keep}
use vgo.Points.Binary.{Point}
use vgo.Points.Key.{scan_to}
use vgo.Points.Parser.{Error, Parsed, parse_points}
use vgo.Points.Fields.{Field}
use vgo.Points.Build.{tags, fields}

-- `bytes.TrimPrefix(buf, []byte("\n"))`.
unfoldable pub trim_newline : Bytes → Bytes
trim_newline [] = []
trim_newline (c ∷ s) = if c == 10 then s else c ∷ s

-- What Parse returns: the metrics, and the lines that failed.
pub record Metrics (Metric : Type 0) : Type 0 where
  pub metrics : List (Option Metric)
  pub failed : List (Bytes × Error)

module _ {Metric : Type 0} (parses_float : Bytes → Bool) (parse_float : Bytes → Option ℕ)
    (unescape : Bytes → Bytes)
    (new_metric : Bytes → Dict Bytes → Dict Field → (time : ℤ) → Option Metric)
    (default_tags : Dict Bytes) where
  -- A point's metric; the flag says that slices of the text have spare capacity.
  unfoldable pub metric_of : (room : Bool) → Point ℤ → Outcome (Option Metric)
  metric_of room p = then_call (tags room p) λ ts.
      then_call (fields parse_float unescape room p) λ fs. returned (
        new_metric (unescape (scan_to b',' none p.key).block) (upsert_all keep default_tags ts) fs
          p.time)

  unfoldable pub metrics_of : (room : Bool) → List (Point ℤ) → Outcome (List (Option Metric))
  metrics_of room [] = returned []
  metrics_of room (p ∷ ps) =
      let later = metrics_of room ps in
      then_call (metric_of room p) λ m. then_call later λ ms. returned (m ∷ ms)

  -- `InfluxParser.Parse`, on a text with spare capacity behind it.
  unfoldable pub parse : (room : Bool) → (spare buf : Bytes) → (now : ℤ) → Outcome (Metrics Metric)
  parse room spare buf now =
      then_call (parse_points parses_float now (codes "n") spare (trim_newline buf)) λ parsed.
        then_call (metrics_of room parsed.points)
          λ ms. returned (record { metrics = ms; failed = parsed.failed })
