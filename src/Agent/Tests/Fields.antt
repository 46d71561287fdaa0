-- ===== src/Agent/Tests/Fields.antt =====
-- The accumulator on a measurement with a clamped, a kept and a refused field.
use vgo.Prelude.{ℕ, Bytes, codes, true, [], ◌∷◌, Option, none, some}
use vgo.Prelude.Dict.{Dict}
use vgo.Prelude.Int.{pos}
use vgo.Agent.Filter.{GlobLibrary, single}
use vgo.Agent.Accumulator.{Value, uint64, float64, int64, InputConfig, Accumulate}

abbrev no_globs : GlobLibrary
no_globs = record { Glob = ⊥; compile = λ p. none; glob_match = λ g s. absurd g }

abbrev Metric : Type 0
Metric = Bytes × Dict Bytes × Dict Value × ℕ

abbrev new_point : Bytes → Dict Bytes → Dict Value → ℕ → Option Metric
new_point name tags fields t = some (name, tags, fields, t)

abbrev daemon : Dict Bytes
daemon = (codes "host", codes "h1") ∷ (codes "dc", codes "sh") ∷ []

abbrev config : InputConfig no_globs
config = record {
  name = codes "cpu";
  prefix = codes "my_";
  suffix = [];
  tags = (codes "dc", codes "bj") ∷ [];
  filter = record {
    field_drop_patterns = codes "idle" ∷ [];
    field_drop = some (single (codes "idle"));
    tag_drop = [];
    is_active = true;
  };
}

abbrev accumulate : Accumulate no_globs
accumulate = record { input_config = config; precision = 10 }

-- 2^64 - 1, which is clamped, a field that is dropped, and a float64 that is not a number.
abbrev fields : Dict Value
fields =
    (codes "n", uint64 18446744073709551615)
    ∷ (codes "idle", int64 (pos 1))
    ∷ (codes "x", float64 9221120237041090561)
    ∷ []

abbrev tags : Dict Bytes
tags = (codes "host", codes "h2") ∷ []

abbrev sent : Metric
sent = (
  codes "my_cpu",
  (codes "host", codes "h2") ∷ (codes "dc", codes "bj") ∷ [],
  (codes "n", int64 (pos 9223372036854775807)) ∷ [],
  120,
)
