-- ===== src/Agent/Tests/Globs.antt =====
-- A glob library that knows literals, stars and lists of alternatives.
use vgo.Prelude.{
  ℕ, ◌≡◌, refl, ◌&&◌, Bytes, codes, equal, Bool, true, false, ◌||◌, ◌==◌, List, [], ◌∷◌, ◌++◌, some,
  if◌then◌else◌,
}
use vgo.Agent.Filter.{
  GlobLibrary, has_meta, any_meta, match, set, glob, compile_no_glob, compile_filter,
}

-- The text, or one of its ends.
unfoldable some_end : (Bytes → Bool) → Bytes → Bool
some_end test [] = test []
some_end test (c ∷ s) = test (c ∷ s) || some_end test s

-- A byte that is no star stands for itself.
next_is : ℕ → (Bytes → Bool) → Bytes → Bool
next_is c test [] = false
next_is c test (d ∷ s) = c == d && test s

unfoldable wild : Bytes → Bytes → Bool
unfolding some_end next_is
wild [] s = equal [] s
wild (c ∷ p) s = if c == b'*' then some_end (wild p) s else next_is c (wild p) s

-- The alternatives up to the closing brace; the first argument is the one being read.
unfoldable alternative : Bytes → Bytes → Bytes → Bool
unfolding wild
alternative current [] s = false
alternative current (c ∷ p) s =
    let here = wild current s || alternative [] p s in
    let more = alternative (current ++ c ∷ []) p s in
    if c == b',' then here else if c == b'}' then wild current s else more

unfoldable matcher : Bytes → Bytes → Bool
unfolding alternative
matcher [] s = wild [] s
matcher (c ∷ p) s = if c == b'{' then alternative [] p s else wild (c ∷ p) s

abbrev globs : GlobLibrary
globs = record { Glob = Bytes; compile = λ p. some p; glob_match = matcher }

abbrev patterns : List Bytes
patterns = codes "cpu" ∷ codes "net*" ∷ []

network_matches : match globs (glob (codes "{cpu,net*}")) (codes "network") ≡ true
unfolding match matcher alternative wild some_end next_is equal
network_matches = refl

-- Without a magic character the filter is a map.
map_of_two :
    compile_filter globs (codes "cpu" ∷ codes "mem" ∷ [])
    ≡ some (some (set (codes "cpu" ∷ codes "mem" ∷ [])))
unfolding compile_filter any_meta has_meta compile_no_glob
map_of_two = refl
