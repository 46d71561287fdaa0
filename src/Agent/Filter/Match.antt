-- ===== src/Agent/Filter/Match.antt =====
-- What a compiled filter matches, whichever of the three implementations it is.
use vgo.Prelude.{
  ◌<◌, length, leb, ◌≡◌, Bytes, equal, Bool, true, false, ◌||◌, ◌&&◌, not, ◌==◌, List, [], ◌∷◌,
  none, some,
}
use vgo.Agent.Filter.{GlobLibrary, has_meta, braces, Filter}

-- ASCII text without brackets, braces, commas and backslashes: its only special characters are the
-- stars and the question marks.
unfoldable pub is_plain : Bytes → Bool
is_plain [] = true
is_plain (c ∷ s) =
    not (c == b'{' || c == b'}' || c == b',' || c == b'\\' || c == b'[' || c == b']')
    && (leb 1 c && leb c 127)
    && is_plain s

-- Such patterns, none of them empty.
abbrev pub AllPlain : List Bytes → Type 0
AllPlain [] = Unit {0}
AllPlain (f ∷ fs) = (is_plain f ≡ true) × (0 < length f) × AllPlain fs

module _ (lib : GlobLibrary) where
  open lib use {Glob, compile, glob_match}

  -- The pattern, compiled alone, matches the string.
  unfoldable pub denotes : Bytes → Bytes → Bool
  denotes f s = elim (compile f) [ none ↦ false | some g ↦ glob_match g s ]

  unfoldable pub any_denotes : List Bytes → Bytes → Bool
  any_denotes [] s = false
  any_denotes (f ∷ fs) s = denotes f s || any_denotes fs s

-- The documented behaviour of the patterns of gobwas/glob that the agent relies on.
pub record GlobLaws (lib : GlobLibrary) : Type 0 where
  -- a pattern with no special character stands for itself
  pub literal : (f s : Bytes) → is_plain f ≡ true → has_meta f ≡ false → denotes lib f s ≡ equal f s
  -- braces around one pattern change nothing
  pub in_braces :
      (f s : Bytes)
      → is_plain f ≡ true
      → 0 < length f
      → denotes lib (braces (f ∷ [])) s ≡ denotes lib f s
  -- `{a,…}` matches what `a` matches, and what `{…}` matches
  pub alternative :
      (f g : Bytes) (fs : List Bytes) (s : Bytes)
      → AllPlain (f ∷ g ∷ fs)
      → denotes lib (braces (f ∷ g ∷ fs)) s ≡ (denotes lib f s || denotes lib (braces (g ∷ fs)) s)
