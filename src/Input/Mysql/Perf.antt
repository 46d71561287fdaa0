-- ===== src/Input/Mysql/Perf.antt =====
-- mecury/plugins/input/mysql/mysql.go: the gatherers of the performance schema. A count or a time is of a type
-- of numbers that is a parameter, as are `/ picoSeconds` and zero.
pub mod Events
pub mod Statements
use vgo.Prelude.{ℕ, Bytes, codes, List, [], ◌∷◌, ◌++◌, Option, none, some, equal, if◌then◌else◌}
use vgo.Prelude.Dict.{Dict, insert}
use vgo.Input.Mysql.{ReadRow, Added, Gathered, copy_tags}
use vgo.Input.Mysql.Rows.{each_row, queried}

abbrev pub perf_schema : Bytes
perf_schema = codes "mysql_perf_schema"

-- A count and a time of each operation.
pub record Waits (Float : Type 0) : Type 0 where
  pub count_fetch : Float
  pub count_insert : Float
  pub count_update : Float
  pub count_delete : Float
  pub time_fetch : Float
  pub time_insert : Float
  pub time_update : Float
  pub time_delete : Float

pub record TableWaits (Float : Type 0) : Type 0 where
  pub obj_schema : Bytes
  pub obj_name : Bytes
  pub waits : Waits Float

pub record IndexWaits (Float : Type 0) : Type 0 where
  pub obj_schema : Bytes
  pub obj_name : Bytes
  pub index_name : Bytes
  pub waits : Waits Float

pub record AutoInc : Type 0 where
  pub schema : Bytes
  pub table : Bytes
  pub column : Bytes
  pub inc_value : ℕ
  pub max_int : ℕ

unfoldable pub auto_inc_call : Bytes → AutoInc → List (Added ℕ)
auto_inc_call servtag r =
    record {
      measurement = codes "mysql_info_schema";
      fields =
          (codes "auto_increment_column", r.inc_value)
          ∷ (codes "auto_increment_column_max", r.max_int)
          ∷ [];
      tags =
          (codes "server", servtag)
          ∷ (codes "schema", r.schema)
          ∷ (codes "table", r.table)
          ∷ (codes "column", r.column)
          ∷ [];
    }
    ∷ []

unfoldable pub gather_info_schema_auto_inc_statuses :
    {Error : Type 0} → Bytes → Option Error → List (ReadRow AutoInc Error) → Gathered ℕ Error
unfolding queried each_row auto_inc_call
gather_info_schema_auto_inc_statuses servtag err rows =
    queried err (each_row (auto_inc_call servtag) rows)

-- The counts, or the times, of a row of lock waits.
pub record LockWaits (Float : Type 0) : Type 0 where
  pub read_normal : Float
  pub read_with_shared_locks : Float
  pub read_high_priority : Float
  pub read_no_insert : Float
  pub read_external : Float
  pub write_allow_write : Float
  pub write_concurrent_insert : Float
  pub write_low_priority : Float
  pub write_normal : Float
  pub write_external : Float

pub record TableLocks (Float : Type 0) : Type 0 where
  pub object_schema : Bytes
  pub object_name : Bytes
  pub counts : LockWaits Float
  pub times : LockWaits Float

-- What looking up the table of lock waits returns: no row, its error, or the table.
pub data TableName (Error : Type 0) : Type 0 where
  no_rows : TableName Error
  lookup_error : Error → TableName Error
  table_there : TableName Error

module _ {Float : Type 0} (seconds : Float → Float) where
  unfoldable pub table_waits_call : Bytes → TableWaits Float → List (Added Float)
  table_waits_call servtag r =
      let w = r.waits in
      record {
        measurement = perf_schema;
        fields =
            (codes "table_io_waits_total_fetch", w.count_fetch)
            ∷ (codes "table_io_waits_total_insert", w.count_insert)
            ∷ (codes "table_io_waits_total_update", w.count_update)
            ∷ (codes "table_io_waits_total_delete", w.count_delete)
            ∷ (codes "table_io_waits_seconds_total_fetch", seconds w.time_fetch)
            ∷ (codes "table_io_waits_seconds_total_insert", seconds w.time_insert)
            ∷ (codes "table_io_waits_seconds_total_update", seconds w.time_update)
            ∷ (codes "table_io_waits_seconds_total_delete", seconds w.time_delete)
            ∷ [];
        tags =
            (codes "server", servtag)
            ∷ (codes "schema", r.obj_schema)
            ∷ (codes "name", r.obj_name)
            ∷ [];
      }
      ∷ []

  unfoldable pub gather_perf_table_io_waits :
      {Error : Type 0}
      → Bytes
      → Option Error
      → List (ReadRow (TableWaits Float) Error)
      → Gathered Float Error
  unfolding queried each_row table_waits_call
  gather_perf_table_io_waits servtag err rows =
      queried err (each_row (table_waits_call servtag) rows)

  -- The write columns of an index, only when its name is NONE.
  unfoldable pub write_columns : IndexWaits Float → Dict Float
  write_columns r =
      let w = r.waits in
      if equal r.index_name (codes "NONE")
      then (codes "index_io_waits_total_insert", w.count_insert)
        ∷ (codes "index_io_waits_total_update", w.count_update)
        ∷ (codes "index_io_waits_total_delete", w.count_delete)
        ∷ (codes "index_io_waits_seconds_total_insert", seconds w.time_insert)
        ∷ (codes "index_io_waits_seconds_total_update", seconds w.time_update)
        ∷ (codes "index_io_waits_seconds_total_delete", seconds w.time_delete)
        ∷ []
      else []

  unfoldable pub index_waits_call : Bytes → IndexWaits Float → List (Added Float)
  unfolding write_columns
  index_waits_call servtag r =
      record {
        measurement = perf_schema;
        fields =
            (codes "index_io_waits_total_fetch", r.waits.count_fetch)
            ∷ (codes "index_io_waits_seconds_total_fetch", seconds r.waits.time_fetch)
            ∷ write_columns r;
        tags =
            (codes "server", servtag)
            ∷ (codes "schema", r.obj_schema)
            ∷ (codes "name", r.obj_name)
            ∷ (codes "index", r.index_name)
            ∷ [];
      }
      ∷ []

  unfoldable pub gather_perf_index_io_waits :
      {Error : Type 0}
      → Bytes
      → Option Error
      → List (ReadRow (IndexWaits Float) Error)
      → Gathered Float Error
  unfolding queried each_row index_waits_call
  gather_perf_index_io_waits servtag err rows =
      queried err (each_row (index_waits_call servtag) rows)

  -- The fields of one of the maps of gatherPerfTableLockWaits, for counts or times.
  unfoldable pub sql_lock_fields : (Float → Float) → LockWaits Float → Dict Float
  sql_lock_fields scale w =
      (codes "read_normal", scale w.read_normal)
      ∷ (codes "read_with_shared_locks", scale w.read_with_shared_locks)
      ∷ (codes "read_high_priority", scale w.read_high_priority)
      ∷ (codes "read_no_insert", scale w.read_no_insert)
      ∷ (codes "write_normal", scale w.write_normal)
      ∷ (codes "write_allow_write", scale w.write_allow_write)
      ∷ (codes "write_concurrent_insert", scale w.write_concurrent_insert)
      ∷ (codes "write_low_priority", scale w.write_low_priority)
      ∷ []

  unfoldable pub external_lock_fields : (Float → Float) → LockWaits Float → Dict Float
  external_lock_fields scale w =
      (codes "read", scale w.read_external) ∷ (codes "write", scale w.write_external) ∷ []

  unfoldable pub lock_call : Bytes → TableLocks Float → Bytes → Dict Float → Added Float
  unfolding copy_tags insert
  lock_call servtag r perf_query fields = record {
    measurement = perf_schema;
    fields = fields;
    tags = insert (codes "perf_query") perf_query (
        copy_tags (
          (codes "server", servtag)
          ∷ (codes "schema", r.object_schema)
          ∷ (codes "table", r.object_name)
          ∷ []));
  }

  unfoldable pub lock_calls : Bytes → TableLocks Float → List (Added Float)
  unfolding lock_call sql_lock_fields external_lock_fields
  lock_calls servtag r =
      lock_call servtag r (codes "sql_lock_waits_total") (sql_lock_fields (λ x. x) r.counts)
      ∷ lock_call servtag r (codes "external_lock_waits_total")
          (external_lock_fields (λ x. x) r.counts)
      ∷ lock_call servtag r (codes "sql_lock_waits_seconds_total") (sql_lock_fields seconds r.times)
      ∷ lock_call servtag r (codes "external_lock_waits_seconds_total")
          (external_lock_fields seconds r.times)
      ∷ []

  unfoldable pub gather_perf_table_lock_waits :
      {Error : Type 0}
      → Bytes
      → TableName Error
      → Option Error
      → List (ReadRow (TableLocks Float) Error)
      → Gathered Float Error
  unfolding queried each_row lock_calls
  gather_perf_table_lock_waits servtag no_rows err rows = record { added = []; error = none }
  gather_perf_table_lock_waits servtag (lookup_error e) err rows = record {
    added = [];
    error = some e;
  }
  gather_perf_table_lock_waits servtag table_there err rows =
      queried err (each_row (lock_calls servtag) rows)
