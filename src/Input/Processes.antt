-- ===== src/Input/Processes.antt =====
-- mecury/plugins/input/system/processes.go: the processes of a machine by their state, from `ps` or from
-- the files /proc/*/stat. What `ps` and the file system return are arguments. The map of fields is
-- one of int64 values: reading a missing one as an int64 panics.
pub mod Updates
pub mod Letters
pub mod Census
pub mod Proc
use vgo.Prelude.{
  ℕ, suc, Bytes, codes, Bool, true, false, not, ◌&&◌, ◌||◌, List, [], ◌∷◌, ◌++◌, Option, none, some,
  leb, ltb, ◌==◌, equal, if◌then◌else◌, length, get_elem?,
}
use vgo.Prelude.Dict.{Dict, lookup, insert}
use vgo.Prelude.Int.{ℤ, pos, ◌+ℤ◌}
use vgo.Prelude.Words.{incr, wrap64}
use vgo.Prelude.Outcome.{Outcome, returned, panicked, then_call}
use vgo.Points.Parser.{parse_int}

pub data Os : Type 0 where
  freebsd : Os
  darwin : Os
  openbsd : Os
  linux : Os
  other_os : Os

-- `getEmptyFields`, by `runtime.GOOS`.
unfoldable pub os_fields : Os → Dict ℤ
os_fields freebsd = (codes "idle", pos 0) ∷ (codes "wait", pos 0) ∷ []
os_fields darwin = (codes "idle", pos 0) ∷ []
os_fields openbsd = (codes "idle", pos 0) ∷ []
os_fields linux = (codes "paging", pos 0) ∷ (codes "total_threads", pos 0) ∷ []
os_fields other_os = []

unfoldable pub get_empty_fields : Os → Dict ℤ
unfolding os_fields
get_empty_fields os =
    (codes "blocked", pos 0)
    ∷ (codes "zombies", pos 0)
    ∷ (codes "stopped", pos 0)
    ∷ (codes "running", pos 0)
    ∷ (codes "sleeping", pos 0)
    ∷ (codes "total", pos 0)
    ∷ (codes "unknown", pos 0)
    ∷ os_fields os

-- The choice between `ps` and the files in Gather.
unfoldable pub is_linux : Os → Bool
is_linux linux = true
is_linux _ = false

unfoldable pub use_ps : Os → (force_ps force_proc : Bool) → Bool
unfolding is_linux
use_ps os force_ps force_proc =
    if force_ps then true else if force_proc then false else not (is_linux os)

-- `fields[name] = f(fields[name].(int64))`.
unfoldable pub update_found : Bytes → (ℤ → ℤ) → Option ℤ → Dict ℤ → Outcome (Dict ℤ)
update_found name f none fields = panicked
update_found name f (some v) fields = returned (insert name (f v) fields)

unfoldable pub update : Bytes → (ℤ → ℤ) → Dict ℤ → Outcome (Dict ℤ)
unfolding update_found
update name f fields = update_found name f (lookup name fields) fields

-- A state that is not known is only logged.
unfoldable pub count_state : Option Bytes → Dict ℤ → Outcome (Dict ℤ)
unfolding update
count_state none fields = returned fields
count_state (some name) fields = update name incr fields

-- `unicode.IsSpace` on ASCII: the spaces outside it, which bytes.Fields splits on too, and which `ps`
-- does not print among states, are left out.
unfoldable pub is_space : ℕ → Bool
is_space c = c == 32 || (leb 9 c && leb c 13)

-- `bytes.Fields`, with the word read so far.
unfoldable pub end_word : Bytes → List Bytes → List Bytes
end_word [] words = words
end_word (c ∷ word) words = (c ∷ word) ∷ words

unfoldable pub words_from : Bytes → Bytes → List Bytes
unfolding end_word is_space
words_from word [] = end_word word []
words_from word (c ∷ s) =
    if is_space c then end_word word (words_from [] s) else words_from (word ++ c ∷ []) s

unfoldable pub fields_of_bytes : Bytes → List Bytes
unfolding words_from
fields_of_bytes s = words_from [] s

-- The switch of gatherFromPS over `status[0]`.
unfoldable pub ps_state : ℕ → Option Bytes
ps_state c =
    if c == b'W'
    then some (codes "wait")
    else if (c == b'U' || c == b'D') || c == b'L'
    then some (codes "blocked")
    else if c == b'Z'
    then some (codes "zombies")
    else if c == b'T'
    then some (codes "stopped")
    else if c == b'R'
    then some (codes "running")
    else if c == b'S'
    then some (codes "sleeping")
    else if c == b'I'
    then some (codes "idle")
    else if c == b'?'
    then some (codes "unknown")
    else none

-- The rest of a round: the state is counted, then the total.
unfoldable pub count_process : Option Bytes → Dict ℤ → Outcome (Dict ℤ)
unfolding count_state
count_process state fields = then_call (count_state state fields) (update (codes "total") incr)

unfoldable pub count_status : Bytes → Dict ℤ → Outcome (Dict ℤ)
unfolding ps_state count_process
count_status [] fields = panicked
count_status (c ∷ status) fields = count_process (ps_state c) fields

unfoldable pub count_statuses : List Bytes → Dict ℤ → Outcome (Dict ℤ)
unfolding count_status
count_statuses [] fields = returned fields
count_statuses (status ∷ statuses) fields =
    then_call (count_status status fields) (count_statuses statuses)

unfoldable pub skip_header : List Bytes → List Bytes
skip_header [] = []
skip_header (status ∷ statuses) =
    if equal status (codes "STAT") then statuses else status ∷ statuses

-- How a gathering ends that returns: with its error, or with the fields.
pub data Result (Error : Type 0) : Type 0 where
  failed : Error → Result Error
  terribly_wrong : Bytes → Result Error
  gathered : Dict ℤ → Result Error

-- What `p.execPS()` returns, its output or an error.
pub data PsOutput (Error : Type 0) : Type 0 where
  ps_error : Error → PsOutput Error
  output : Bytes → PsOutput Error

module _ {Error : Type 0} where
  -- The map as it is when a loop has ended.
  unfoldable pub gathered_all : Dict ℤ → Outcome (Result Error)
  gathered_all fields = returned (gathered fields)

  unfoldable pub gather_from_ps : PsOutput Error → Dict ℤ → Outcome (Result Error)
  unfolding count_statuses skip_header fields_of_bytes gathered_all
  gather_from_ps (ps_error e) fields = returned (failed e)
  gather_from_ps (output out) fields =
      then_call (count_statuses (skip_header (fields_of_bytes out)) fields) gathered_all
