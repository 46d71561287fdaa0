-- ===== src/Points/Parser/Ends.antt =====
-- The parser of misc/points.go ends on every text.
use vgo.Prelude.{
  ℕ, zero, suc, ◌≤◌, ◌<◌, Bytes, Bool, false, not, ◌&&◌, ◌||◌, ◌==◌, ltb, leb, ◌≡◌, refl, ap, arith,
  ◌⊎◌, [], ◌∷◌, length, if◌then◌else◌, both-if, Bool-cases, Option-cases, inl, inr,
}
use vgo.Prelude.Int.{ℤ}
use vgo.Prelude.Outcome.{
  Outcome, returned, panicked, out_of_fuel, Ends, returned-Ends, panicked-Ends, if-Ends,
  then_call-Ends,
}
use vgo.Points.Line.{Line, end_line, line_loop, scan_line, past_line, overrun}
use vgo.Points.Tags.Ends.{scan_key-Ends}
use vgo.Points.Section.Ends.{scan_fields-Ends}
use vgo.Points.Parser.{parse_point, line_text, next_rest, next_over, parse_lines, parse_points}

overrun-Ends : (spare : Bytes) (c : ℕ) → Ends (overrun spare c)
overrun-Ends [] c = panicked-Ends
overrun-Ends (d ∷ spare) c = returned-Ends _

past_line-Ends : (c : ℕ) {r : Outcome Line} → Ends r → Ends (past_line c r)
past_line-Ends c {r} h = then_call-Ends r _ h λ l e. returned-Ends _

line_loop-Ends :
    (spare : Bytes) (quoted fields : Bool) (equals commas : ℕ) (s : Bytes)
    → Ends (line_loop spare quoted fields equals commas s)
unfolding line_loop
line_loop-Ends spare quoted fields equals commas [] = returned-Ends _
line_loop-Ends spare quoted fields equals commas (c ∷ []) =
    if-Ends (c == b'\\') (overrun-Ends spare c)
      (if-Ends (c == 10 && not quoted) (returned-Ends _) (past_line-Ends c (returned-Ends _)))
line_loop-Ends spare quoted fields equals commas (c ∷ d ∷ s) =
    if-Ends (c == b'\\')
      (past_line-Ends c (past_line-Ends d (line_loop-Ends spare quoted fields equals commas s)))
      (if-Ends (c == 10 && not quoted) (returned-Ends _) (
        let in_fields = fields || c == b' ' in
        let is_quote = in_fields && c == b'"' && ltb commas equals in
        past_line-Ends c (
          line_loop-Ends spare (if is_quote then not quoted else quoted) in_fields
            (if in_fields && not quoted && c == b'=' then suc equals else equals)
            (if in_fields && not quoted && c == b',' then suc commas else commas) (d ∷ s))))

scan_line-Ends : (spare rest : Bytes) (over : ℕ) → Ends (scan_line spare rest over)
unfolding scan_line
scan_line-Ends spare rest over =
    if-Ends (over == 0) (line_loop-Ends spare false false 0 0 rest)
      (if-Ends (leb over (length spare)) (returned-Ends _) panicked-Ends)

-- What is left behind a line is no longer than what was left.
Within : Bytes → Outcome Line → Type 0
Within s r = (l : Line) → r ≡ returned l → length l.rest ≤ length s

end-Within : (s : Bytes) (l : Line) → length l.rest ≤ length s → Within s (returned l)
unfolding Within
end-Within s l h m e = let same : l ≡ m = cc in omega (arith, ap (λ (x : Line). length x.rest) same)

overrun-Within : (s spare : Bytes) (c : ℕ) → Within s (overrun spare c)
unfolding Within
overrun-Within s [] c l e = cc
overrun-Within s (d ∷ spare) c l e =
    unfold Within in
    end-Within s (record { block = c ∷ d ∷ []; rest = []; over = 1 }) (omega arith) l e

past_line-Within :
    (c : ℕ) (s : Bytes) (r : Outcome Line) → Within s r → Within (c ∷ s) (past_line c r)
unfolding Within
past_line-Within c s (returned x) h l e =
    let le = h x refl in
    unfold Within in end-Within (c ∷ s) (record x { block = c ∷ x.block }) (omega arith) l e
past_line-Within c s panicked h l e = cc
past_line-Within c s out_of_fuel h l e = cc

line_loop-Within :
    (spare : Bytes) (quoted fields : Bool) (equals commas : ℕ) (s : Bytes)
    → Within s (line_loop spare quoted fields equals commas s)
unfolding line_loop
line_loop-Within spare quoted fields equals commas [] = end-Within [] (end_line []) (omega arith)
line_loop-Within spare quoted fields equals commas (c ∷ []) =
    let one = end-Within (c ∷ []) (end_line (c ∷ [])) (omega arith) in
    both-if (Within (c ∷ [])) (c == b'\\') (overrun-Within (c ∷ []) spare c) (
      both-if (Within (c ∷ [])) (c == 10 && not quoted) one (
        past_line-Within c [] (returned (end_line [])) (end-Within [] (end_line []) (omega arith))))
line_loop-Within spare quoted fields equals commas (c ∷ d ∷ s) =
    let P = Within (c ∷ d ∷ s) in
    let in_fields = fields || c == b' ' in
    let is_quote = in_fields && c == b'"' && ltb commas equals in
    both-if P (c == b'\\')
      (past_line-Within c (d ∷ s) _
        (past_line-Within d s _ (line_loop-Within spare quoted fields equals commas s)))
      (both-if P (c == 10 && not quoted)
        (end-Within (c ∷ d ∷ s) (end_line (c ∷ d ∷ s)) (omega arith))
        (past_line-Within c (d ∷ s) _ (
          line_loop-Within spare (if is_quote then not quoted else quoted) in_fields
            (if in_fields && not quoted && c == b'=' then suc equals else equals)
            (if in_fields && not quoted && c == b',' then suc commas else commas) (d ∷ s))))

scan_line-Within : (spare rest : Bytes) → Within rest (scan_line spare rest 0)
unfolding scan_line
scan_line-Within spare rest = line_loop-Within spare false false 0 0 rest

scan_line_over :
    (spare : Bytes) (over : ℕ)
    → (scan_line spare [] (suc over) ≡ panicked)
      ⊎ (scan_line spare [] (suc over)
          ≡ returned (record { block = []; rest = []; over = suc over }))
unfolding scan_line
scan_line_over spare over = elim (Bool-cases (leb (suc over) (length spare))) [
  | inl inside ↦ inr (ground arith)
  | inr outside ↦ inl (ground arith)
]

module _ (pf : Bytes → Bool) (default_time : ℤ) (precision : Bytes) where
  parse_point-Ends : (s : Bytes) → Ends (parse_point pf default_time precision s)
  unfolding parse_point
  parse_point-Ends s = then_call-Ends _ _ (scan_key-Ends s) λ k e.
      if-Ends (not k.ok) (returned-Ends _) (
        if-Ends (length k.key == 0) (returned-Ends _) (
          if-Ends (ltb 65535 (length k.key)) (returned-Ends _) (
            then_call-Ends _ _ (scan_fields-Ends pf _ k.rest) λ f e'.
              if-Ends (not f.ok) (returned-Ends _)
                (if-Ends (length f.block == 0) (returned-Ends _) (returned-Ends _)))))

  -- Past the end there is one round at most.
  parse_lines_over :
      (fuel : ℕ) (spare : Bytes) (over : ℕ)
      → Ends (parse_lines pf default_time precision (suc fuel) spare [] (suc over))
  unfolding parse_lines
  parse_lines_over fuel spare over = elim (scan_line_over spare over) [
    | inl fails ↦ rw fails panicked-Ends
    | inr ends ↦ rw ends (returned-Ends _)
  ]

  -- The rounds after a line.
  next_Ends :
      (fuel : ℕ) (spare rest : Bytes) (over size : ℕ)
      → ((s : Bytes)
          → suc (length s) < fuel
          → Ends (parse_lines pf default_time precision fuel spare s 0))
      → length rest ≤ size
      → suc size < suc fuel
      → Ends
          (parse_lines pf default_time precision fuel spare (next_rest rest) (next_over rest over))
  next_Ends zero spare rest over size rec le h = absurd (omega arith)
  next_Ends (suc fuel) spare [] over size rec le h = parse_lines_over fuel spare over
  next_Ends (suc fuel) spare (c ∷ s) over size rec le h = rec s (omega arith)

  parse_lines-Ends :
      (fuel : ℕ) (spare rest : Bytes)
      → suc (length rest) < fuel
      → Ends (parse_lines pf default_time precision fuel spare rest 0)
  unfolding parse_lines Within
  parse_lines-Ends zero spare rest h = absurd (omega arith)
  parse_lines-Ends (suc fuel) spare rest h =
      then_call-Ends _ _ (scan_line-Ends spare rest 0) λ line e.
        let le = scan_line-Within spare rest line e in
        let later =
          next_Ends fuel spare line.rest line.over (length rest) (parse_lines-Ends fuel spare) le
            h in
        if-Ends (length line.block == 0) (returned-Ends _)
          (elim (Option-cases (line_text pf default_time precision line.block)) [
            | inl skipped ↦ rw skipped later
            | inr (text, found) ↦ rw found (
                then_call-Ends _ _ (parse_point-Ends text) λ p e'.
                  if-Ends (length (next_rest line.rest) == 0) (returned-Ends _)
                    (then_call-Ends _ _ later λ more e''. returned-Ends _))
          ])

  -- Whatever the text and its spare capacity, the loop of ParsePointsWithPrecision comes to an end:
  -- it returns points and failed lines, or panics, and the scanners that it calls end too.
  pub parse_points-Ends :
      (spare buf : Bytes) → Ends (parse_points pf default_time precision spare buf)
  unfolding parse_points
  parse_points-Ends spare buf = parse_lines-Ends (suc (suc (length buf))) spare buf (omega arith)
