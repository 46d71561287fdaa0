-- ===== src/Points/Tests/Lines.antt =====
-- Runs of the parser of the line protocol.
use vgo.Prelude.{
  ℕ, Bytes, Bool, true, codes, ◌≡◌, refl, arith, ◌++◌, [], ◌∷◌, replicate, equal, before,
}
use vgo.Prelude.Int.{pos}
use vgo.Prelude.Outcome.{returned, panicked, Ends}
use vgo.Points.Scan.{skip_whitespace}
use vgo.Points.Key.{scan_measurement, scan_to, scan_to_space_or, scan_tags_key, scan_tags_value}
use vgo.Points.Parser.{parse_points}
use vgo.Points.Parser.Ends.{parse_points-Ends}
use vgo.Points.Tags.{
  scan_key, scan_tags, mirror_loop, key_of, name_of, less, insertion_sort, insert_rest, sift, place,
}
use vgo.Points.Tags.Plain.{Word, is_plain, in_buffer}
use vgo.Points.Tags.Limit.{scan_key-plain, scan_key-three}

abbrev any_float : Bytes → Bool
any_float s = true

parse_points-Ends_example : Ends (
    parse_points any_float
      (pos 5)
      (codes "n")
      []
      (codes "cpu,b=1,a=2 v=1.5,w=\"x y\",t=true 12" ++ 10 ∷ codes "mem v=3i"))
parse_points-Ends_example =
    parse_points-Ends any_float (pos 5) (codes "n") []
      (codes "cpu,b=1,a=2 v=1.5,w=\"x y\",t=true 12" ++ 10 ∷ codes "mem v=3i")

one-plain : is_plain b'1' ≡ true
unfolding is_plain
one-plain = refl

a-plain : is_plain b'a' ≡ true
unfolding is_plain
a-plain = refl

b-plain : is_plain b'b' ≡ true
unfolding is_plain
b-plain = refl

c-plain : is_plain b'c' ≡ true
unfolding is_plain
c-plain = refl

-- A word of one byte.
abbrev word : (c : ℕ) → is_plain c ≡ true → Word
word c h = record { first = c; others = []; first_plain = h; others_plain = tt }

abbrev a_tag : Word × Word
a_tag = (word b'a' a-plain, word b'1' one-plain)

abbrev b_tag : Word × Word
b_tag = (word b'b' b-plain, word b'1' one-plain)

abbrev c_tag : Word × Word
c_tag = (word b'c' c-plain, word b'1' one-plain)

scan_key-plain_example :
    scan_key (codes "c," ++ in_buffer a_tag (replicate 99 a_tag) (codes "v=1")) ≡ panicked
scan_key-plain_example =
    scan_key-plain (word b'c' c-plain) a_tag (replicate 99 a_tag) (codes "v=1") (omega arith)

scan_key-three_example :
    scan_key (codes "c," ++ in_buffer a_tag (c_tag ∷ b_tag ∷ []) (codes "v=1"))
    ≡ returned (record { key = codes "c,a=1,c=1,b=1"; rest = codes " v=1"; ok = true })
unfolding equal before
scan_key-three_example =
    scan_key-three (word b'c' c-plain) a_tag c_tag b_tag (codes "v=1") refl refl

sorts_two_tags :
    scan_key (codes "cpu,b=1,a=2 v=1")
    ≡ returned (record { key = codes "cpu,a=2,b=1"; rest = codes " v=1"; ok = true })
unfolding scan_key skip_whitespace scan_measurement scan_tags mirror_loop key_of name_of less
    insertion_sort insert_rest sift place equal before scan_to scan_to_space_or scan_tags_key
    scan_tags_value
sorts_two_tags = refl
