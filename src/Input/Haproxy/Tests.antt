-- ===== src/Input/Haproxy/Tests.antt =====
-- A row of HAProxy's statistics on its way through the accumulator.
use vgo.Prelude.{ℕ, ◌≡◌, refl, Bytes, codes, equal, true, List, [], ◌∷◌, Option, none, some}
use vgo.Prelude.Dict.{Dict, lookup, insert, upsert_all}
use vgo.Prelude.Int.{pos}
use vgo.Points.Number.{is_digit}
use vgo.Agent.Filter.{GlobLibrary, single, match, should_tags_pass, should_fields_pass}
use vgo.Agent.Accumulator.{Value, int64, InputConfig, Accumulate}
use vgo.Input.Haproxy.{Measurement, import_row}
use vgo.Input.Haproxy.Sent.{add_measurement, IsReported, add_measurement-IsReported}

abbrev no_globs : GlobLibrary
no_globs = record { Glob = ⊥; compile = λ p. none; glob_match = λ g s. absurd g }

abbrev Point : Type 0
Point = Bytes × Dict Bytes × Dict Value × ℕ

abbrev point : Bytes → Dict Bytes → Dict Value → ℕ → Option Point
point name tags fields t = some (name, tags, fields, t)

-- An input that drops the current queue.
abbrev config : InputConfig no_globs
config = record {
  name = codes "haproxy";
  prefix = [];
  suffix = [];
  tags = [];
  filter = record {
    field_drop_patterns = codes "qcur" ∷ [];
    field_drop = some (single (codes "qcur"));
    tag_drop = [];
    is_active = true;
  };
}

abbrev accumulate : Accumulate no_globs
accumulate = record { input_config = config; precision = 10 }

-- The largest uint64 in the column of `qmax`.
abbrev columns_behind : List Bytes
columns_behind = codes "7" ∷ codes "18446744073709551615" ∷ []

abbrev measurement : Measurement
measurement = record {
  tags = (codes "server", codes "h") ∷ (codes "proxy", codes "web") ∷ (codes "sv", codes "s1") ∷ [];
  fields = (codes "qcur", 7) ∷ (codes "qmax", 18446744073709551615) ∷ [];
}

abbrev reported : Point
reported =
    (codes "haproxy", measurement.tags, (codes "qmax", int64 (pos 9223372036854775807)) ∷ [], 120)

row_imported : import_row (codes "h") (codes "web" ∷ codes "s1" ∷ columns_behind) ≡ some measurement
unfolding import_row insert equal is_digit
row_imported = refl

measurement_sent : add_measurement no_globs point [] accumulate 123 measurement ≡ some reported
unfolding add_measurement should_tags_pass should_fields_pass match lookup insert upsert_all equal
measurement_sent = refl

add_measurement-IsReported_example :
    IsReported no_globs point [] accumulate (codes "web" ∷ codes "s1" ∷ columns_behind) reported
add_measurement-IsReported_example =
    add_measurement-IsReported no_globs point [] accumulate 123 (codes "h") (codes "web")
      (codes "s1") columns_behind measurement reported row_imported measurement_sent
