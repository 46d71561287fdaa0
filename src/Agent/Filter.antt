-- ===== src/Agent/Filter.antt =====
-- agent/filter.go, and the filters of agent/input.go: which fields and tags an input drops.
-- The glob library (vendor/github.com/gobwas/glob) is a parameter.
pub mod Match
use vgo.Prelude.{
  ℕ, Bytes, codes, equal, contains, Bool, true, false, not, ◌||◌, ◌==◌, List, [], ◌∷◌, ◌++◌, Option,
  none, some, ◌>>=◌, if◌then◌else◌,
}
use vgo.Prelude.Dict.{Dict, lookup}

-- `glob.Compile` and `Glob.Match`; `none` is a pattern that does not compile.
pub record GlobLibrary : Type 1 where
  pub Glob : Type 0
  pub compile : Bytes → Option Glob
  pub glob_match : Glob → Bytes → Bool

-- `hasMeta`: one of "*?[" occurs.
unfoldable pub has_meta : Bytes → Bool
has_meta [] = false
has_meta (c ∷ s) = c == b'*' || c == b'?' || c == b'[' || has_meta s

-- The loop that looks for a filter with a magic character.
unfoldable pub any_meta : List Bytes → Bool
unfolding has_meta
any_meta [] = false
any_meta (f ∷ fs) = has_meta f || any_meta fs

-- `strings.Join(filters, ",")`.
unfoldable pub join : List Bytes → Bytes
join [] = []
join (f ∷ []) = f
join (f ∷ g ∷ fs) = f ++ b',' ∷ join (g ∷ fs)

-- `"{" + strings.Join(filters, ",") + "}"`.
abbrev pub braces : List Bytes → Bytes
braces fs = b'{' ∷ join fs ++ b'}' ∷ []

module _ (lib : GlobLibrary) where
  open lib use {Glob, compile, glob_match}

  -- The implementations of the interface `Filter`: the map, the single string, a compiled glob.
  pub data Filter : Type 0 where
    set : List Bytes → Filter
    single : Bytes → Filter
    glob : Glob → Filter

  unfoldable pub match : Filter → Bytes → Bool
  match (set m) s = contains m s
  match (single t) s = equal t s
  match (glob g) s = glob_match g s

  unfoldable pub compile_no_glob : List Bytes → Filter
  compile_no_glob (f ∷ []) = single f
  compile_no_glob fs = set fs

  -- The glob for a list that is not empty: of the one pattern, or of all in braces.
  unfoldable pub compile_glob : List Bytes → Option Filter
  compile_glob (f ∷ []) = compile f >>= λ g. some (glob g)
  compile_glob fs = compile (braces fs) >>= λ g. some (glob g)

  -- `CompileFilter`: `none` is an error, `some none` the nil filter of an empty list.
  unfoldable pub compile_filter : List Bytes → Option (Option Filter)
  unfolding any_meta compile_no_glob compile_glob
  compile_filter [] = some none
  compile_filter (f ∷ fs) =
      if any_meta (f ∷ fs)
      then compile_glob (f ∷ fs) >>= (λ g. some (some g))
      else some (some (compile_no_glob (f ∷ fs)))

  -- A filter that may be nil drops what it matches.
  abbrev pub passes : Option Filter → Bytes → Bool
  passes none key = true
  passes (some f) key = if match f key then false else true

  pub record GlobalFilter : Type 0 where
    pub input_drop : Option Filter
    pub output_drop : Option Filter

  unfoldable pub should_input_pass : GlobalFilter → Bytes → Bool
  should_input_pass f key = passes f.input_drop key

  unfoldable pub should_output_pass : GlobalFilter → Bytes → Bool
  should_output_pass f key = passes f.output_drop key

  pub record TagFilter : Type 0 where
    pub name : Bytes
    pub patterns : List Bytes
    pub filter : Option Filter

  pub record InputFilter : Type 0 where
    pub field_drop_patterns : List Bytes
    pub field_drop : Option Filter
    pub tag_drop : List TagFilter
    pub is_active : Bool

  unfoldable pub compile_tag_drop : List TagFilter → Option (List TagFilter)
  compile_tag_drop [] = some []
  compile_tag_drop (t ∷ ts) = do
    f ← compile_filter t.patterns
    rest ← compile_tag_drop ts
    some (record t { filter = f } ∷ rest)

  -- `InputFilter.CompileFilter`; `none` is an error.
  unfoldable pub compile_input_filter : InputFilter → Option InputFilter
  unfolding compile_tag_drop
  compile_input_filter f = do
    field_drop ← compile_filter f.field_drop_patterns
    tag_drop ← compile_tag_drop f.tag_drop
    some (record f { field_drop = field_drop; tag_drop = tag_drop })

  -- One round of the loop of ShouldTagsPass: does this pattern drop the metric?
  unfoldable pub drops_tags : TagFilter → Dict Bytes → Bool
  drops_tags pat tags = elim pat.filter [
    | none ↦ false
    | some f ↦ elim (lookup pat.name tags) [ none ↦ false | some v ↦ match f v ]
  ]

  unfoldable pub should_tags_pass_all : List TagFilter → Dict Bytes → Bool
  unfolding drops_tags
  should_tags_pass_all [] tags = true
  should_tags_pass_all (pat ∷ pats) tags =
      if drops_tags pat tags then false else should_tags_pass_all pats tags

  unfoldable pub should_tags_pass : InputFilter → Dict Bytes → Bool
  unfolding should_tags_pass_all
  should_tags_pass f tags = should_tags_pass_all f.tag_drop tags

  unfoldable pub should_fields_pass : InputFilter → Bytes → Bool
  should_fields_pass f key = passes f.field_drop key
