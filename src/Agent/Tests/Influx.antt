-- ===== src/Agent/Tests/Influx.antt =====
-- Runs of the parser of the line protocol in agent/parser.go, and the theorems at them. A metric is
-- its parts, there are no floats, and nothing is unescaped.
use vgo.Prelude.{ℕ, Bytes, codes, equal, Bool, false, true, ◌≡◌, refl, [], ◌∷◌, Option, none, some}
use vgo.Prelude.Int.{ℤ, pos}
use vgo.Prelude.Dict.{Dict, insert}
use vgo.Prelude.Outcome.{returned, Ends}
use vgo.Points.Binary.{Point}
use vgo.Points.Escape.{unescape_tag}
use vgo.Points.Key.{scan_to}
use vgo.Points.TagMap.{parse_tags}
use vgo.Points.Fields.{Field, boolean, new_fields_from_binary, parse_bool}
use vgo.Points.Build.{tags, fields}
use vgo.Agent.Influx.{parse}
use vgo.Agent.Influx.Defaults.{parse-Ends}

abbrev Parts : Type 0
Parts = Bytes × Dict Bytes × Dict Field × ℤ

abbrev new_metric : Bytes → Dict Bytes → Dict Field → ℤ → Option Parts
new_metric name ts fs time = some (name, ts, fs, time)

abbrev no_float : Bytes → Option ℕ
no_float s = none

abbrev accepts_none : Bytes → Bool
accepts_none s = false

abbrev as_is : Bytes → Bytes
as_is s = s

abbrev a_point : Point ℤ
a_point = record { time = pos 5; key = codes "cpu,h=1"; fields = codes "up=true" }

abbrev defaults : Dict Bytes
defaults = (codes "h", codes "2") ∷ (codes "dc", codes "3") ∷ []

has_tags : tags false a_point ≡ returned ((codes "h", codes "1") ∷ [])
unfolding tags parse_tags scan_to insert unescape_tag
has_tags = refl

has_fields : fields no_float as_is false a_point ≡ returned ((codes "up", boolean true) ∷ [])
unfolding fields new_fields_from_binary scan_to insert parse_bool equal
has_fields = refl

parse-Ends_example : Ends (
    parse accepts_none no_float as_is new_metric defaults false []
      (codes "cpu,h=1 up=true")
      (pos 7))
parse-Ends_example =
    parse-Ends accepts_none no_float as_is new_metric defaults false [] (codes "cpu,h=1 up=true")
      (pos 7)
