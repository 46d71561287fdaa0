-- ===== src/Input/Mysql.antt =====
-- mecury/plugins/input/mysql/mysql.go: what the plugin makes of the rows that the server returns. The
-- rows, the errors of the database and the tag of the server, which parse_dsn.go finds, are arguments.
pub mod Tables
pub mod Threads
pub mod Globals
pub mod Rows
pub mod Logs
pub mod Perf
pub mod Server
mod Tests
use vgo.Prelude.{ℕ, Bytes, codes, List, [], ◌∷◌, Option, none, some, equal, ◌||◌, if◌then◌else◌}
use vgo.Prelude.Dict.{Dict, insert_all}
use vgo.Input.Text.{replace_byte, join_words}

-- A row that `rows.Scan` reads, or its error.
pub data ReadRow (Row Error : Type 0) : Type 0 where
  row : Row → ReadRow Row Error
  scan_error : Error → ReadRow Row Error

-- A call of `acc.AddFields`.
pub record Added (V : Type 0) : Type 0 where
  pub measurement : Bytes
  pub fields : Dict V
  pub tags : Dict Bytes

-- The calls that a gatherer makes, and the error that it returns.
pub record Gathered (V Error : Type 0) : Type 0 where
  pub added : List (Added V)
  pub error : Option Error

-- `newNamespace`.
unfoldable pub new_namespace : List Bytes → Bytes
unfolding join_words replace_byte
new_namespace words = replace_byte b' ' b'_' (join_words words)

-- `copyTags`.
unfoldable pub copy_tags : Dict Bytes → Dict Bytes
unfolding insert_all
copy_tags tags = insert_all tags []

-- `parseValue`, where it returns true; ParseFloat is an argument, as is the number one.
module _ {Float : Type 0} (one : Float) (parse_float : Bytes → Option Float) where
  unfoldable pub parse_value : Bytes → Option Float
  parse_value value =
      if equal value (codes "Yes") || equal value (codes "ON")
      then some one
      else if equal value (codes "No") || equal value (codes "OFF")
      then none
      else parse_float value
