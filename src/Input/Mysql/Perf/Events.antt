-- ===== src/Input/Mysql/Perf/Events.antt =====
-- mecury/plugins/input/mysql/mysql.go: the gatherers of events, statements and tables.
use vgo.Prelude.{Bytes, codes, List, [], ◌∷◌, ◌++◌, Option, none, some}
use vgo.Prelude.Dict.{Dict, insert}
use vgo.Input.Mysql.{ReadRow, row, scan_error, Added, Gathered, copy_tags, new_namespace}
use vgo.Input.Mysql.Rows.{each_row, calls_then}

pub record EventWaits (Float : Type 0) : Type 0 where
  pub event : Bytes
  pub star_count : Float
  pub time_wait : Float

pub record FileEvents (Float : Type 0) : Type 0 where
  pub event_name : Bytes
  pub count_read : Float
  pub sum_timer_read : Float
  pub sum_num_bytes_read : Float
  pub count_write : Float
  pub sum_timer_write : Float
  pub sum_num_bytes_write : Float
  pub count_misc : Float
  pub sum_timer_misc : Float

-- The numbers of a row of statements that are scanned, and its three texts.
pub record Statements (Float : Type 0) : Type 0 where
  pub schema_name : Bytes
  pub digest : Bytes
  pub digest_text : Bytes
  pub count : Float
  pub query_time : Float
  pub errors : Float
  pub warnings : Float
  pub rows_affected : Float
  pub rows_sent : Float
  pub rows_examined : Float
  pub tmp_tables : Float
  pub tmp_disk_tables : Float
  pub sort_merge_passes : Float
  pub sort_rows : Float

pub record TableRow (Float : Type 0) : Type 0 where
  pub table_schema : Bytes
  pub table_name : Bytes
  pub table_type : Bytes
  pub engine : Bytes
  pub version : Float
  pub row_format : Bytes
  pub table_rows : Float
  pub data_length : Float
  pub index_length : Float
  pub data_free : Float
  pub create_options : Bytes

-- `acc.Add`: one field named "value".
unfoldable pub add_call : {Float : Type 0} → Bytes → Float → Dict Bytes → Added Float
add_call measurement value tags = record {
  measurement = measurement;
  fields = (codes "value", value) ∷ [];
  tags = tags;
}

-- The five calls of a row of gatherTableSchema.
unfoldable pub component_tags : Dict Bytes → Bytes → Dict Bytes
unfolding copy_tags insert
component_tags tags component = insert (codes "component") component (copy_tags tags)

unfoldable pub version_tags : {Float : Type 0} → Dict Bytes → TableRow Float → Dict Bytes
unfolding copy_tags insert
version_tags tags r = insert (codes "create_options") r.create_options (
    insert (codes "row_format") r.row_format
      (insert (codes "engine") r.engine (insert (codes "type") r.table_type (copy_tags tags))))

unfoldable pub table_calls : {Float : Type 0} → Bytes → TableRow Float → List (Added Float)
unfolding add_call component_tags version_tags new_namespace
table_calls servtag r =
    let tags : Dict Bytes =
      (codes "server", servtag)
      ∷ (codes "schema", r.table_schema)
      ∷ (codes "table", r.table_name)
      ∷ [] in
    let size =
      λ (part : Bytes). new_namespace (codes "info_schema" ∷ codes "table_size" ∷ part ∷ []) in
    add_call (new_namespace (codes "info_schema" ∷ codes "table_rows" ∷ [])) r.table_rows tags
    ∷ add_call (size (codes "data_length")) r.data_length
        (component_tags tags (codes "data_length"))
    ∷ add_call (size (codes "index_length")) r.index_length
        (component_tags tags (codes "index_length"))
    ∷ add_call (size (codes "data_free")) r.data_free (component_tags tags (codes "data_free"))
    ∷ add_call (new_namespace (codes "info_schema" ∷ codes "table_version" ∷ [])) r.version
        (version_tags tags r)
    ∷ []

-- What a query returns, its error or its rows, and the loop over the databases.
pub data Rows (Row Error : Type 0) : Type 0 where
  query_error : Error → Rows Row Error
  rows_of : List (ReadRow Row Error) → Rows Row Error

module _ {Float Error : Type 0} where
  -- What one loop has sent, then the rest, unless it has failed.
  unfoldable pub unless_failed :
      Option Error → List (Added Float) → Gathered Float Error → Gathered Float Error
  unfolding calls_then
  unless_failed (some e) calls rest = record { added = calls; error = some e }
  unless_failed none calls rest = calls_then calls rest

  unfoldable pub gather_database : Bytes → Rows (TableRow Float) Error → Gathered Float Error
  unfolding each_row table_calls
  gather_database servtag (query_error e) = record { added = []; error = some e }
  gather_database servtag (rows_of rows) = each_row (table_calls servtag) rows

  unfoldable pub gather_databases :
      (query : Bytes → Rows (TableRow Float) Error) → Bytes → List Bytes → Gathered Float Error
  unfolding unless_failed gather_database
  gather_databases query servtag [] = record { added = []; error = none }
  gather_databases query servtag (database ∷ databases) =
      let first = gather_database servtag (query database) in
      unless_failed first.error first.added (gather_databases query servtag databases)

  -- The databases that the server lists, if none is configured.
  unfoldable pub gather_listed :
      (query : Bytes → Rows (TableRow Float) Error)
      → Bytes
      → List Bytes
      → List (ReadRow Bytes Error)
      → Gathered Float Error
  unfolding gather_databases
  gather_listed query servtag listed [] = gather_databases query servtag listed
  gather_listed query servtag listed (scan_error e ∷ rows) = record { added = []; error = some e }
  gather_listed query servtag listed (row database ∷ rows) =
      gather_listed query servtag (listed ++ database ∷ []) rows

  unfoldable pub gather_table_schema :
      (query : Bytes → Rows (TableRow Float) Error)
      → Bytes
      → (table_schema_databases : List Bytes) → Rows Bytes Error
      → Gathered Float Error
  unfolding gather_listed gather_databases
  gather_table_schema query servtag (d ∷ ds) all = gather_databases query servtag (d ∷ ds)
  gather_table_schema query servtag [] (query_error e) = record { added = []; error = some e }
  gather_table_schema query servtag [] (rows_of rows) = gather_listed query servtag [] rows
