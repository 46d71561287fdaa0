-- ===== src/Agent/Influx/Defaults.antt =====
-- What the parser of the line protocol in agent/parser.go makes of a point, and that it ends.
use vgo.Prelude.{ℕ, Bytes, codes, Bool, ◌≡◌, refl, ◌∙◌, List, [], ◌∷◌, Option, none, some}
use vgo.Prelude.Int.{ℤ}
use vgo.Prelude.Dict.{
  Dict, lookup, upsert_all, upserted, first_some, lookup-upsert_all, DistinctKeys,
}
use vgo.Prelude.Outcome.{returned, Ends, returned-Ends, then_call-Ends}
use vgo.Agent.Accumulator.{keep}
use vgo.Points.Binary.{Point}
use vgo.Points.Key.{scan_to}
use vgo.Points.Parser.Ends.{parse_points-Ends}
use vgo.Points.Fields.{Field}
use vgo.Points.Fields.Ends.{tags_and_fields-Ends}
use vgo.Points.Build.{tags, fields}
use vgo.Agent.Influx.{metric_of, metrics_of, parse}

upserted-keep :
    (k : Bytes) (own default : Option Bytes) → upserted keep k default own ≡ first_some own default
unfolding keep
upserted-keep k none none = refl
upserted-keep k none (some d) = refl
upserted-keep k (some o) none = refl
upserted-keep k (some o) (some d) = refl

module _ {Metric : Type 0} (parses_float : Bytes → Bool) (parse_float : Bytes → Option ℕ)
    (unescape : Bytes → Bytes)
    (new_metric : Bytes → Dict Bytes → Dict Field → (time : ℤ) → Option Metric)
    (default_tags : Dict Bytes) where
  -- The metric of a point with readable tags and fields is what NewMetric makes of its unescaped
  -- name, its fields, its time and a map of tags in which each tag is the point's own, or else the
  -- default, if any.
  pub metric_of-Made :
      (room : Bool) (p : Point ℤ) (ts : Dict Bytes) (fs : Dict Field)
      → tags room p ≡ returned ts
      → fields parse_float unescape room p ≡ returned fs
      → DistinctKeys default_tags
      → (all : Dict Bytes) × (metric_of parses_float parse_float unescape new_metric default_tags
            room p
          ≡ returned (new_metric (unescape (scan_to b',' none p.key).block) all fs p.time))
        × ((j : Bytes) → lookup j all ≡ first_some (lookup j ts) (lookup j default_tags))
  unfolding metric_of
  metric_of-Made room p ts fs has_tags has_fields distinct = (
    upsert_all keep default_tags ts,
    rw (has_tags, has_fields) refl,
    λ j.
        lookup-upsert_all keep j default_tags ts distinct
        ∙ upserted-keep j (lookup j ts) (lookup j default_tags),
  )

  metric_of-Ends :
      (room : Bool) (p : Point ℤ)
      → Ends (metric_of parses_float parse_float unescape new_metric default_tags room p)
  unfolding metric_of tags fields
  metric_of-Ends room p =
      then_call-Ends _ _ (tags_and_fields-Ends parse_float unescape room p.key).1 λ ts e.
        then_call-Ends _ _ (tags_and_fields-Ends parse_float unescape room p.fields).0
          λ fs e'. returned-Ends _

  metrics_of-Ends :
      (room : Bool) (ps : List (Point ℤ))
      → Ends (metrics_of parses_float parse_float unescape new_metric default_tags room ps)
  unfolding metrics_of
  metrics_of-Ends room [] = returned-Ends _
  metrics_of-Ends room (p ∷ ps) =
      then_call-Ends _ _ (metric_of-Ends room p)
        λ m e. then_call-Ends _ _ (metrics_of-Ends room ps) λ ms e'. returned-Ends _

  -- InfluxParser.Parse comes to an end on every text: it returns metrics and failed lines, or
  -- panics.
  pub parse-Ends :
      (room : Bool) (spare buf : Bytes) (now : ℤ)
      → Ends (parse parses_float parse_float unescape new_metric default_tags room spare buf now)
  unfolding parse
  parse-Ends room spare buf now =
      then_call-Ends _ _ (parse_points-Ends parses_float now (codes "n") spare _)
        λ parsed e. then_call-Ends _ _ (metrics_of-Ends room parsed.points) λ ms e'. returned-Ends _
