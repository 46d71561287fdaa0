-- ===== src/Input/Processes/Proc.antt =====
-- mecury/plugins/input/system/processes.go: gatherFromProc. The names of the files, with what reading
-- each returns, are the argument; `os.Stat` is called and its result is not used.
use vgo.Prelude.{
  ℕ, Bytes, Bool, codes, ◌||◌, List, [], ◌∷◌, Option, none, some, ltb, ◌==◌, if◌then◌else◌, length,
  get_elem?,
}
use vgo.Prelude.Dict.{Dict}
use vgo.Prelude.Int.{ℤ, ◌+ℤ◌}
use vgo.Prelude.Words.{wrap64}
use vgo.Prelude.Outcome.{Outcome, returned, panicked, then_call}
use vgo.Points.Parser.{parse_int}
use vgo.Input.Processes.{
  Result, failed, terribly_wrong, gathered, update, count_process, fields_of_bytes, gathered_all,
  use_ps, PsOutput, gather_from_ps, get_empty_fields, Os,
}

-- What `p.readProcFile` returns: an error, nil for a process that is gone, or the text.
pub data ReadFile (Error : Type 0) : Type 0 where
  read_error : Error → ReadFile Error
  gone : ReadFile Error
  content : Bytes → ReadFile Error

-- What is behind the last `)`: `bytes.LastIndex(data, []byte(")"))`.
unfoldable pub or_here : Option Bytes → ℕ → Bytes → Option Bytes
or_here (some later) c s = some later
or_here none c s = if c == b')' then some s else none

unfoldable pub behind_paren : Bytes → Option Bytes
unfolding or_here
behind_paren [] = none
behind_paren (c ∷ s) = or_here (behind_paren s) c s

-- The switch over `stats[0][0]`.
unfoldable pub proc_state : ℕ → Option Bytes
proc_state c =
    if c == b'R'
    then some (codes "running")
    else if c == b'S'
    then some (codes "sleeping")
    else if c == b'D'
    then some (codes "blocked")
    else if c == b'Z'
    then some (codes "zombies")
    else if c == b'T' || c == b't'
    then some (codes "stopped")
    else if c == b'W'
    then some (codes "paging")
    else none

-- `strconv.Atoi(stats[17])`, which panics on a shorter slice; a text that is no number is logged.
unfoldable pub add_parsed : Option ℤ → Dict ℤ → Outcome (Dict ℤ)
unfolding update
add_parsed none fields = returned fields
add_parsed (some threads) fields =
    update (codes "total_threads") (λ v. wrap64 (v +ℤ threads)) fields

unfoldable pub add_threads : Option Bytes → Dict ℤ → Outcome (Dict ℤ)
unfolding add_parsed parse_int
add_threads none fields = panicked
add_threads (some text) fields = add_parsed (parse_int text) fields

-- `stats`, at least three words.
unfoldable pub count_stats : List Bytes → Dict ℤ → Outcome (Dict ℤ)
unfolding proc_state count_process add_threads
count_stats [] fields = panicked
count_stats ([] ∷ stats) fields = panicked
count_stats ((c ∷ state) ∷ stats) fields =
    then_call (count_process (proc_state c) fields)
      (add_threads (get_elem? ((c ∷ state) ∷ stats) 17))

module _ {Error : Type 0} where
  -- A round of the loop: the fields, or the error that ends the call.
  unfoldable pub gather_stats : Bytes → List Bytes → Dict ℤ → Outcome (Result Error)
  unfolding count_stats gathered_all
  gather_stats filename stats fields =
      if ltb (length stats) 3
      then returned (terribly_wrong filename)
      else then_call (count_stats stats fields) gathered_all

  -- `data[i+2:]`.
  unfoldable pub gather_behind : Bytes → Option Bytes → Dict ℤ → Outcome (Result Error)
  unfolding gather_stats fields_of_bytes
  gather_behind filename none fields = returned (gathered fields)
  gather_behind filename (some []) fields = panicked
  gather_behind filename (some (c ∷ behind)) fields =
      gather_stats filename (fields_of_bytes behind) fields

  unfoldable pub gather_file : Bytes → ReadFile Error → Dict ℤ → Outcome (Result Error)
  unfolding gather_behind behind_paren
  gather_file filename (read_error e) fields = returned (failed e)
  gather_file filename gone fields = returned (gathered fields)
  gather_file filename (content text) fields = gather_behind filename (behind_paren text) fields

  -- The rest of the loop, unless a round has ended the call.
  unfoldable pub next_file :
      (Dict ℤ → Outcome (Result Error)) → Result Error → Outcome (Result Error)
  next_file rest (failed e) = returned (failed e)
  next_file rest (terribly_wrong filename) = returned (terribly_wrong filename)
  next_file rest (gathered fields) = rest fields

  unfoldable pub gather_files : List (Bytes × ReadFile Error) → Dict ℤ → Outcome (Result Error)
  unfolding gather_file next_file
  gather_files [] fields = returned (gathered fields)
  gather_files ((filename, read) ∷ files) fields =
      then_call (gather_file filename read fields) (next_file (gather_files files))

  -- What `filepath.Glob` returns, an error or the files.
  unfoldable pub gather_from_proc :
      Option Error → List (Bytes × ReadFile Error) → Dict ℤ → Outcome (Result Error)
  unfolding gather_files
  gather_from_proc (some e) files fields = returned (failed e)
  gather_from_proc none files fields = gather_files files fields

  -- `Gather`, with what the operating system returns: an error, or the fields that it adds.
  unfoldable pub gather :
      Os
      → (force_ps force_proc : Bool) → PsOutput Error
      → Option Error
      → List (Bytes × ReadFile Error)
      → Outcome (Result Error)
  unfolding gather_from_proc use_ps gather_from_ps get_empty_fields
  gather os force_ps force_proc out err files =
      if use_ps os force_ps force_proc
      then gather_from_ps out (get_empty_fields os)
      else gather_from_proc err files (get_empty_fields os)
