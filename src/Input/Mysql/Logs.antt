-- ===== src/Input/Mysql/Logs.antt =====
-- mecury/plugins/input/mysql/mysql.go: gatherBinaryLogs, whose sums are uint64, and gatherSlaveStatuses, which
-- takes the first row only.
use vgo.Prelude.{
  ℕ, suc, ◌+◌, ◌%◌, ◌^◌, ◌≡◌, ap₂, ◌∙◌, Bytes, codes, List, [], ◌∷◌, ◌++◌, map, Option, none, some,
  arith,
}
use vgo.Prelude.Dict.{Dict}
use vgo.Input.Mysql.{ReadRow, row, scan_error, Gathered, parse_value}
use vgo.Input.Mysql.Rows.{queried}
use vgo.Input.Mysql.Globals.{put_parsed, call_of}

module _ {Error : Type 0} where
  unfoldable pub logs_added : Bytes → (size count : ℕ) → Gathered ℕ Error
  unfolding call_of
  logs_added servtag size count = record {
    added =
        call_of (codes "mysql") servtag
          ((codes "binary_size_bytes", size) ∷ (codes "binary_files_count", count) ∷ [])
        ∷ [];
    error = none;
  }

  -- The loop over the files, by name and size.
  unfoldable pub logs_loop :
      Bytes → (size count : ℕ) → List (ReadRow (Bytes × ℕ) Error) → Gathered ℕ Error
  unfolding logs_added
  logs_loop servtag size count [] = logs_added servtag size count
  logs_loop servtag size count (scan_error e ∷ rows) = record { added = []; error = some e }
  logs_loop servtag size count (row (name, file_size) ∷ rows) =
      logs_loop servtag ((size + file_size) % 2 ^ 64) ((count + 1) % 2 ^ 64) rows

  unfoldable pub gather_binary_logs :
      Bytes → Option Error → List (ReadRow (Bytes × ℕ) Error) → Gathered ℕ Error
  unfolding queried logs_loop
  gather_binary_logs servtag err rows = queried err (logs_loop servtag 0 0 rows)

module _ {Float : Type 0} (one : Float) (parse_float : Bytes → Option Float) where
  -- The loop over the columns of the row.
  unfoldable pub slave_fields : List (Bytes × Bytes) → Dict Float → Dict Float
  unfolding put_parsed parse_value
  slave_fields [] fields = fields
  slave_fields ((col, val) ∷ cols) fields =
      slave_fields cols
        (put_parsed (codes "slave_" ++ col) (parse_value one parse_float val) fields)

  module _ {Error : Type 0} where
    unfoldable pub slave_rows :
        Bytes → List (ReadRow (List (Bytes × Bytes)) Error) → Gathered Float Error
    unfolding slave_fields call_of
    slave_rows servtag [] = record { added = []; error = none }
    slave_rows servtag (scan_error e ∷ rows) = record { added = []; error = some e }
    slave_rows servtag (row cols ∷ rows) = record {
      added = call_of (codes "mysql") servtag (slave_fields cols []) ∷ [];
      error = none;
    }

    unfoldable pub gather_slave_statuses :
        Bytes → Option Error → List (ReadRow (List (Bytes × Bytes)) Error) → Gathered Float Error
    unfolding queried slave_rows
    gather_slave_statuses servtag err rows = queried err (slave_rows servtag rows)

-- The sizes of all the files.
abbrev pub total_size : List (Bytes × ℕ) → ℕ
total_size [] = 0
total_size ((name, size) ∷ files) = size + total_size files

abbrev pub number_of : List (Bytes × ℕ) → ℕ
number_of [] = 0
number_of (file ∷ files) = suc (number_of files)

module _ {Error : Type 0} where
  logs_loop-eq :
      (servtag : Bytes) (files : List (Bytes × ℕ)) (size count : ℕ)
      → logs_loop servtag (size % 2 ^ 64) (count % 2 ^ 64) (map row files)
        ≡ logs_added {Error = Error} servtag
            ((size + total_size files) % 2 ^ 64)
            ((count + number_of files) % 2 ^ 64)
  unfolding logs_loop
  logs_loop-eq servtag [] size count = ap₂ (logs_added servtag) (omega arith) (omega arith)
  logs_loop-eq servtag ((name, file_size) ∷ files) size count =
      let size_sum : ((size % 2 ^ 64) + file_size) % 2 ^ 64 ≡ (size + file_size) % 2 ^ 64 =
        omega arith in
      let count_sum : ((count % 2 ^ 64) + 1) % 2 ^ 64 ≡ (count + 1) % 2 ^ 64 = omega arith in
      ap₂ (λ s c. logs_loop servtag s c (map row files)) size_sum count_sum
      ∙ logs_loop-eq servtag files (size + file_size) (count + 1)
      ∙ ap₂ (logs_added servtag) (omega arith) (omega arith)

  -- If the query succeeds and each row can be read, gatherBinaryLogs sends the sum of the sizes of the
  -- files and their number, both modulo 2^64.
  pub gather_binary_logs-eq :
      (servtag : Bytes) (files : List (Bytes × ℕ))
      → gather_binary_logs servtag none (map row files)
        ≡ logs_added {Error = Error} servtag (total_size files % 2 ^ 64) (number_of files % 2 ^ 64)
  unfolding gather_binary_logs queried
  gather_binary_logs-eq servtag files =
      logs_loop-eq servtag files 0 0 ∙ ap₂ (logs_added servtag) (omega arith) (omega arith)
