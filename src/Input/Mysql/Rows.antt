-- ===== src/Input/Mysql/Rows.antt =====
-- mecury/plugins/input/mysql/mysql.go: the loop that the gatherers of the performance schema share: each row
-- that can be read becomes some calls, and the first one that cannot ends the gathering.
use vgo.Prelude.{◌≡◌, refl, ap, ◌∙◌, List, [], ◌∷◌, ◌++◌, map, append_assoc, Option, none, some}
use vgo.Input.Mysql.{ReadRow, row, scan_error, Added, Gathered}

module _ {V Error : Type 0} where
  -- The calls of a row before those of the rest.
  unfoldable pub calls_then : List (Added V) → Gathered V Error → Gathered V Error
  calls_then calls rest = record { added = calls ++ rest.added; error = rest.error }

  -- `if err != nil { return err }` behind the query.
  unfoldable pub queried : Option Error → Gathered V Error → Gathered V Error
  queried (some e) rest = record { added = []; error = some e }
  queried none rest = rest

  calls_then-append :
      (xs ys : List (Added V)) (rest : Gathered V Error)
      → calls_then xs (calls_then ys rest) ≡ calls_then (xs ++ ys) rest
  unfolding calls_then
  calls_then-append xs ys rest = rw (append_assoc xs ys rest.added) refl

-- The calls of some rows.
abbrev pub calls_of : {Row V : Type 0} → (Row → List (Added V)) → List Row → List (Added V)
calls_of f [] = []
calls_of f (r ∷ rs) = f r ++ calls_of f rs

module _ {Row V Error : Type 0} where
  unfoldable pub each_row : (Row → List (Added V)) → List (ReadRow Row Error) → Gathered V Error
  unfolding calls_then
  each_row f [] = record { added = []; error = none }
  each_row f (scan_error e ∷ rows) = record { added = []; error = some e }
  each_row f (row r ∷ rows) = calls_then (f r) (each_row f rows)

  -- Rows that can be read send their calls, in order, before what comes after them.
  pub each_row-append :
      (f : Row → List (Added V)) (rs : List Row) (rows : List (ReadRow Row Error))
      → each_row f (map row rs ++ rows) ≡ calls_then (calls_of f rs) (each_row f rows)
  unfolding each_row calls_then
  each_row-append f [] rows = refl
  each_row-append f (r ∷ rs) rows =
      ap (calls_then (f r)) (each_row-append f rs rows)
      ∙ calls_then-append (f r) (calls_of f rs) (each_row f rows)
