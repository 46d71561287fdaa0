-- ===== src/Input/Mysql/Server/Order.antt =====
-- mecury/plugins/input/mysql/mysql.go: what gatherServer has sent when it returns.
use vgo.Prelude.{
  ◌≡◌, refl, ap, ◌∙◌, append-nil, Bool, true, false, List, [], ◌∷◌, ◌++◌, Option, none, some,
}
use vgo.Prelude.Dict.{first_some}
use vgo.Input.Mysql.{Added, Gathered}
use vgo.Input.Mysql.Rows.{calls_then}
use vgo.Input.Mysql.Perf.Events.{unless_failed}
use vgo.Input.Mysql.Server.{Mysql, Gatherers, run_then, run_all, steps_of, gather_server}

module _ {V Error : Type 0} where
  -- The gatherers that are chosen, up to and with the first that fails, and its error.
  abbrev pub first_error : List (Bool × Gathered V Error) → Option Error
  first_error [] = none
  first_error ((true, g) ∷ steps) = first_some g.error (first_error steps)
  first_error ((false, g) ∷ steps) = first_error steps

  abbrev pub unless : Option Error → List (Added V) → List (Added V)
  unless none calls = calls
  unless (some e) calls = []

  abbrev pub calls_until : List (Bool × Gathered V Error) → List (Added V)
  calls_until [] = []
  calls_until ((true, g) ∷ steps) = g.added ++ unless g.error (calls_until steps)
  calls_until ((false, g) ∷ steps) = calls_until steps

  unless_failed-eq :
      (o : Option Error) (calls : List (Added V)) (rest : Gathered V Error)
      → unless_failed o calls rest
        ≡ record { added = calls ++ unless o rest.added; error = first_some o rest.error }
  unfolding unless_failed calls_then
  unless_failed-eq none calls rest = refl
  unless_failed-eq (some e) calls rest = rw (append-nil calls) refl

  run_all-eq :
      (steps : List (Bool × Gathered V Error))
      → run_all steps ≡ record { added = calls_until steps; error = first_error steps }
  unfolding run_all run_then
  run_all-eq [] = refl
  run_all-eq ((true, g) ∷ steps) =
      ap (unless_failed g.error g.added) (run_all-eq steps) ∙ unless_failed-eq g.error g.added _
  run_all-eq ((false, g) ∷ steps) = run_all-eq steps

  -- If the address can be opened, gatherServer sends the calls of the chosen gatherers in their order, up
  -- to and with those of the first one that fails, whose error it returns. The age of `lastT` has no effect.
  pub gather_server-eq :
      (m : Mysql) (is_long_ago : Bool) (g : Gatherers V Error)
      → gather_server m none none is_long_ago g ≡ record {
        added = calls_until (steps_of m true g);
        error = first_error (steps_of m true g);
      }
  unfolding gather_server steps_of
  gather_server-eq m true g = run_all-eq (steps_of m true g)
  gather_server-eq m false g = run_all-eq (steps_of m true g)
