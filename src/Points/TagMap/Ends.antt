-- ===== src/Points/TagMap/Ends.antt =====
-- `parseTags` of misc/points.go ends on every text: each round of its loop goes over a byte.
use vgo.Prelude.{ℕ, zero, suc, ◌≤◌, ◌<◌, Bytes, Bool, arith, [], ◌∷◌, Option, some, length}
use vgo.Prelude.Dict.{Dict}
use vgo.Prelude.Outcome.{Outcome, Ends, returned-Ends, panicked-Ends, if-Ends}
use vgo.Points.Key.{scan_to}
use vgo.Points.TagMap.{scan_tag_value, add_value, add_key, tags_loop, tags_behind, parse_tags}

pub scan_to-le :
    (stop : ℕ) (prev : Option ℕ) (s : Bytes) → length (scan_to stop prev s).rest ≤ length s
unfolding scan_to
scan_to-le stop prev [] = omega arith
scan_to-le stop prev (c ∷ s) = ground (arith, scan_to-le stop (some c) s)

scan_tag_value-le : (prev : ℕ) (s : Bytes) → length (scan_tag_value prev s).rest ≤ length s
unfolding scan_tag_value
scan_tag_value-le prev [] = omega arith
scan_tag_value-le prev (c ∷ s) = ground (arith, scan_tag_value-le c s)

module _ (fuel : ℕ) (loop : ℕ → Bytes → Dict Bytes → Outcome (Dict Bytes))
    (loop_ends : (prev : ℕ) (s : Bytes) (m : Dict Bytes)
      → length s < fuel
      → Ends (loop prev s m)) where
  add_value-Ends :
      (key value rest : Bytes) (m : Dict Bytes)
      → length rest < fuel
      → Ends (add_value loop key value rest m)
  add_value-Ends key [] rest m h = loop_ends _ rest m h
  add_value-Ends key (c ∷ value) [] m h = returned-Ends _
  add_value-Ends key (c ∷ value) (d ∷ rest) m h = loop_ends d rest _ (omega arith)

  add_key-Ends :
      (room : Bool) (key rest : Bytes) (m : Dict Bytes)
      → length rest ≤ fuel
      → Ends (add_key loop room key rest m)
  add_key-Ends room key [] m h = if-Ends room (returned-Ends _) panicked-Ends
  add_key-Ends room key (e ∷ rest) m h =
      let value = scan_tag_value e rest in
      let le = scan_tag_value-le e rest in add_value-Ends key value.block value.rest m (omega arith)

tags_loop-Ends :
    (fuel : ℕ) (room : Bool) (prev : ℕ) (s : Bytes) (m : Dict Bytes)
    → length s < fuel
    → Ends (tags_loop fuel room prev s m)
unfolding tags_loop
tags_loop-Ends zero room prev s m h = absurd (omega arith)
tags_loop-Ends (suc fuel) room prev [] m h = returned-Ends _
tags_loop-Ends (suc fuel) room prev (c ∷ s) m h =
    let key = scan_to b'=' (some prev) (c ∷ s) in
    let le = scan_to-le b'=' (some prev) (c ∷ s) in
    add_key-Ends fuel (tags_loop fuel room) (tags_loop-Ends fuel room) room key.block key.rest m
      (omega arith)

tags_behind-Ends : (room : Bool) (name rest : Bytes) → Ends (tags_behind room name rest)
tags_behind-Ends room [] rest = returned-Ends _
tags_behind-Ends room (c ∷ name) [] = returned-Ends _
tags_behind-Ends room (c ∷ name) (d ∷ s) = tags_loop-Ends (suc (length s)) room d s [] (omega arith)

pub parse_tags-Ends : (room : Bool) (buf : Bytes) → Ends (parse_tags room buf)
unfolding parse_tags
parse_tags-Ends room buf = tags_behind-Ends room _ _
