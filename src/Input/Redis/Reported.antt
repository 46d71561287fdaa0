-- ===== src/Input/Redis/Reported.antt =====
-- mecury/plugins/input/redis/redis.go: when gatherInfoOutput returns, and what it has sent then.
use vgo.Prelude.{
  ℕ, ◌≡◌, refl, ap, ◌∙◌, Bytes, codes, Bool, true, false, ◌&&◌, List, [], ◌∷◌, Option, none, some,
  ◌==◌, ◌⊎◌, if◌then◌else◌,
}
use vgo.Prelude.Dict.{Dict, lookup}
use vgo.Prelude.Outcome.{Outcome, returned, then_call}
use vgo.Input.Text.{holds_text, trim_space, cut, split}
use vgo.Input.Mysql.{Added}
use vgo.Input.Redis.{
  Info, LineEnd, goes_on, fails, Report, tracking, keyspace_part, keyspace_fields,
  gather_keyspace_line, named_line, cut_line, read_line, after_line, gather_lines,
  gather_info_output,
}

-- Every part of a keyspace line has an equals sign.
abbrev pub is_some_part : Option (Bytes × Bytes) → Bool
is_some_part none = false
is_some_part (some part) = true

abbrev pub parts_safe : List Bytes → Bool
parts_safe [] = true
parts_safe (part ∷ parts) = is_some_part (cut b'=' part) && parts_safe parts

abbrev pub text_safe : Bytes → Bool
text_safe text = if holds_text text (codes "keys=") then parts_safe (split b',' text) else true

abbrev pub named_safe : Option Bytes → Bytes → Bool
named_safe (some metric) text = true
named_safe none text = text_safe text

abbrev pub cut_safe : Option (Bytes × Bytes) → Bool
cut_safe none = true
cut_safe (some (name, text)) = named_safe (lookup name tracking) (trim_space text)

abbrev pub line_safe : Bytes → Bool
line_safe [] = true
line_safe (c ∷ line) = if c == b'#' then true else cut_safe (cut b':' (c ∷ line))

-- The lines up to the first that holds ERR.
abbrev pub lines_safe : List Bytes → Bool
lines_safe [] = true
lines_safe (line ∷ lines) =
    if holds_text line (codes "ERR") then true else line_safe line && lines_safe lines

-- A call that returns.
abbrev pub Returns : {A : Type 0} → Outcome A → Type 0
Returns {A = A} r = (a : A) × (r ≡ returned a)

and_both : (a b : Bool) → (a && b) ≡ true → (a ≡ true) × (b ≡ true)
and_both true b h = (refl, h)
and_both false b h = cc

then_call-Returns :
    {A B : Type 0} (r : Outcome A) (f : A → Outcome B)
    → Returns r
    → ((a : A) → Returns (f a))
    → Returns (then_call r f)
then_call-Returns r f (a, e) k = ((k a).0, ap (λ r. then_call r f) e ∙ (k a).1)

keyspace_part-Returns :
    (o : Option (Bytes × Bytes)) (fields : Dict ℕ)
    → is_some_part o ≡ true
    → Returns (keyspace_part o fields)
unfolding keyspace_part
keyspace_part-Returns none fields h = cc
keyspace_part-Returns (some (key, text)) fields h = (_, refl)

keyspace_fields-Returns :
    (parts : List Bytes) (fields : Dict ℕ)
    → parts_safe parts ≡ true
    → Returns (keyspace_fields parts fields)
unfolding keyspace_fields
keyspace_fields-Returns [] fields h = (fields, refl)
keyspace_fields-Returns (part ∷ parts) fields h =
    let both = and_both (is_some_part (cut b'=' part)) (parts_safe parts) h in
    then_call-Returns (keyspace_part (cut b'=' part) fields) (keyspace_fields parts)
      (keyspace_part-Returns (cut b'=' part) fields both.0)
      (λ m. keyspace_fields-Returns parts m both.1)

if-Returns :
    {A : Type 0} (b c : Bool) {x y : Outcome A}
    → (if b then c else true) ≡ true
    → (c ≡ true → Returns x)
    → Returns y
    → Returns (if b then x else y)
if-Returns true c h hx hy = hx h
if-Returns false c h hx hy = hy

unless-Returns :
    {A : Type 0} (b c : Bool) {x y : Outcome A}
    → (if b then true else c) ≡ true
    → Returns x
    → (c ≡ true → Returns y)
    → Returns (if b then x else y)
unless-Returns true c h hx hy = hx
unless-Returns false c h hx hy = hy h

module _ {Float : Type 0} where
  gather_keyspace_line-Returns :
      (name text : Bytes) (info : Info Float)
      → text_safe text ≡ true
      → Returns (gather_keyspace_line name text info)
  unfolding gather_keyspace_line
  gather_keyspace_line-Returns name text info h =
      if-Returns (holds_text text (codes "keys=")) (parts_safe (split b',' text)) h
        (λ safe.
          then_call-Returns (keyspace_fields (split b',' text) []) _
            (keyspace_fields-Returns (split b',' text) [] safe) (λ fields. (_, refl)))
        (info, refl)

module _ {Float Error : Type 0} (parse_float : Bytes → Float ⊎ Error) where
  named_line-Returns :
      (o : Option Bytes) (name text : Bytes) (info : Info Float)
      → named_safe o text ≡ true
      → Returns (named_line parse_float o name text info)
  unfolding named_line
  named_line-Returns (some metric) name text info h = (_, refl)
  named_line-Returns none name text info h =
      then_call-Returns (gather_keyspace_line name text info) _
        (gather_keyspace_line-Returns name text info h) (λ after. (_, refl))

  cut_line-Returns :
      (o : Option (Bytes × Bytes)) (info : Info Float)
      → cut_safe o ≡ true
      → Returns (cut_line parse_float o info)
  unfolding cut_line
  cut_line-Returns none info h = (_, refl)
  cut_line-Returns (some (name, text)) info h =
      named_line-Returns (lookup name tracking) name (trim_space text) info h

  read_line-Returns :
      (line : Bytes) (info : Info Float)
      → line_safe line ≡ true
      → Returns (read_line parse_float line info)
  unfolding read_line
  read_line-Returns [] info h = (_, refl)
  read_line-Returns (c ∷ line) info h =
      unless-Returns (c == b'#') (cut_safe (cut b':' (c ∷ line))) h (goes_on info, refl)
        (cut_line-Returns (cut b':' (c ∷ line)) info)

  module _ (zero_rate : Float) (quotient : ℕ → ℕ → Float) where
    after_line-Returns :
        (rest : Info Float → Outcome (Report Float Error)) (sent : List (Added ℕ))
        (end : LineEnd Float Error)
        → ((info : Info Float) → Returns (rest info))
        → Returns (after_line parse_float zero_rate quotient rest sent end)
    unfolding after_line
    after_line-Returns rest sent (goes_on info) k = k info
    after_line-Returns rest sent (fails e) k = (_, refl)

    gather_lines-Returns :
        (lines : List Bytes) (info : Info Float)
        → lines_safe lines ≡ true
        → Returns (gather_lines parse_float zero_rate quotient lines info)
    unfolding gather_lines
    gather_lines-Returns [] info h = (_, refl)
    gather_lines-Returns (line ∷ lines) info h =
        unless-Returns (holds_text line (codes "ERR")) (line_safe line && lines_safe lines) h
          (_, refl)
          (λ both_safe.
            let both = and_both (line_safe line) (lines_safe lines) both_safe in
            then_call-Returns (read_line parse_float line info) _
              (read_line-Returns line info both.0)
              (λ end.
                after_line-Returns _ info.keyspaces end
                  (λ next. gather_lines-Returns lines next both.1)))

    -- gatherInfoOutput returns, with or without an error, if each part of a keyspace line before the
    -- first line that holds ERR has an equals sign, whatever else the lines hold.
    pub gather_info_output-Returns :
        (lines : List Bytes) (tags : Dict Bytes)
        → lines_safe lines ≡ true
        → Returns (gather_info_output parse_float zero_rate quotient lines tags)
    unfolding gather_info_output
    gather_info_output-Returns lines tags h = gather_lines-Returns lines _ h
