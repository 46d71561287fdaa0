-- ===== src/Input/Redis/Tests.antt =====
-- The lines of INFO of a Redis server.
use vgo.Prelude.{ℕ, ◌+◌, ◌≡◌, refl, Bytes, codes, equal, List, [], ◌∷◌, ◌⊎◌, inl, inr}
use vgo.Prelude.Dict.{lookup, insert, insert_all}
use vgo.Prelude.Outcome.{returned, panicked}
use vgo.Points.Number.{is_digit}
use vgo.Input.Text.{holds_text, trim_space, cut, split}
use vgo.Input.Redis.{count, number, gather_info_output}
use vgo.Input.Redis.Reported.{Returns, gather_info_output-Returns}

-- No text is a float, and a quotient is the sum of its numbers.
abbrev no_float : Bytes → ℕ ⊎ Bytes
no_float text = inr text

abbrev info_lines : List Bytes
info_lines =
    codes "# Stats"
    ∷ codes "keyspace_hits:3"
    ∷ codes "role:master"
    ∷ codes "db0:keys=2,expires=0"
    ∷ []

gather_info_output-Returns_example :
    Returns (gather_info_output no_float 0 (λ a b. a + b) info_lines [])
unfolding holds_text trim_space cut split lookup equal
gather_info_output-Returns_example =
    gather_info_output-Returns no_float 0 (λ a b. a + b) info_lines [] refl

sent_for_server :
    gather_info_output no_float 0 (λ a b. a + b) info_lines []
    ≡ returned (record {
      keyspaces =
          record {
            measurement = codes "redis_keyspace";
            fields = (codes "keys", 2) ∷ (codes "expires", 0) ∷ [];
            tags =
                (codes "replication_role", codes "master") ∷ (codes "database", codes "db0") ∷ [];
          }
          ∷ [];
      server = inl (record {
        measurement = codes "redis";
        fields = (codes "keyspace_hits", count 3) ∷ (codes "keyspace_hitrate", number 6) ∷ [];
        tags = (codes "replication_role", codes "master") ∷ [];
      });
    })
unfolding gather_info_output holds_text trim_space cut split lookup equal insert insert_all is_digit
sent_for_server = refl

-- A part without an equals sign panics.
lone_part : gather_info_output no_float 0 (λ a b. a + b) (codes "db0:keys=2,x" ∷ []) [] ≡ panicked
unfolding gather_info_output holds_text trim_space cut split lookup equal insert insert_all
lone_part = refl
