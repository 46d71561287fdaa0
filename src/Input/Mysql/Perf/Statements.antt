-- ===== src/Input/Mysql/Perf/Statements.antt =====
-- mecury/plugins/input/mysql/mysql.go: gatherPerfEventWaits, gatherPerfFileEventsStatuses and
-- gatherPerfEventsStatements. What the driver makes of the columns of a statement is an argument, as is
-- the error of a Scan into another number of variables than there are columns.
use vgo.Prelude.{ℕ, Bytes, codes, List, [], ◌∷◌, map, Option, length, ◌==◌, if◌then◌else◌}
use vgo.Prelude.Dict.{Dict, insert}
use vgo.Input.Mysql.{ReadRow, scan_error, Added, Gathered, copy_tags}
use vgo.Input.Mysql.Rows.{each_row, queried}
use vgo.Input.Mysql.Perf.{perf_schema}
use vgo.Input.Mysql.Perf.Events.{EventWaits, FileEvents, Statements}

-- The columns that the query of the statements selects.
abbrev pub statement_columns : List Bytes
statement_columns =
    codes "SCHEMA_NAME"
    ∷ codes "DIGEST"
    ∷ codes "DIGEST_TEXT"
    ∷ codes "COUNT_STAR"
    ∷ codes "SUM_TIMER_WAIT"
    ∷ codes "SUM_ERRORS"
    ∷ codes "SUM_WARNINGS"
    ∷ codes "SUM_ROWS_AFFECTED"
    ∷ codes "SUM_ROWS_SENT"
    ∷ codes "SUM_ROWS_EXAMINED"
    ∷ codes "SUM_CREATED_TMP_DISK_TABLES"
    ∷ codes "SUM_CREATED_TMP_TABLES"
    ∷ codes "SUM_SORT_MERGE_PASSES"
    ∷ codes "SUM_SORT_ROWS"
    ∷ codes "SUM_NO_INDEX_USED"
    ∷ []

-- The variables that the code scans a row into.
abbrev pub statement_variables : ℕ
statement_variables = 14

module _ {Float : Type 0} (zero_value : Float) (seconds : Float → Float) where
  unfoldable pub event_call : Bytes → EventWaits Float → List (Added Float)
  event_call servtag r =
      record {
        measurement = perf_schema;
        fields =
            (codes "events_waits_total", r.star_count)
            ∷ (codes "events_waits_seconds_total", seconds r.time_wait)
            ∷ [];
        tags = (codes "server", servtag) ∷ (codes "event_name", r.event) ∷ [];
      }
      ∷ []

  unfoldable pub gather_perf_event_waits :
      {Error : Type 0}
      → Bytes
      → Option Error
      → List (ReadRow (EventWaits Float) Error)
      → Gathered Float Error
  unfolding queried each_row event_call
  gather_perf_event_waits servtag err rows = queried err (each_row (event_call servtag) rows)

  -- A call of gatherPerfFileEventsStatuses: the total, the time, and the bytes where there are some.
  unfoldable pub file_call : Bytes → FileEvents Float → Bytes → Dict Float → Added Float
  unfolding copy_tags insert
  file_call servtag r mode fields = record {
    measurement = perf_schema;
    fields = fields;
    tags =
        insert (codes "mode") mode
          (copy_tags ((codes "server", servtag) ∷ (codes "event_name", r.event_name) ∷ []));
  }

  unfoldable pub file_calls : Bytes → FileEvents Float → List (Added Float)
  unfolding file_call
  file_calls servtag r =
      file_call servtag r (codes "misc") (
        (codes "file_events_total", r.count_write)
        ∷ (codes "file_events_seconds_total", seconds r.sum_timer_misc)
        ∷ [])
      ∷ file_call servtag r (codes "read") (
          (codes "file_events_total", r.count_read)
          ∷ (codes "file_events_seconds_total", seconds r.sum_timer_read)
          ∷ (codes "file_events_bytes_totals", r.sum_num_bytes_read)
          ∷ [])
      ∷ file_call servtag r (codes "write") (
          (codes "file_events_total", r.count_write)
          ∷ (codes "file_events_seconds_total", seconds r.sum_timer_write)
          ∷ (codes "file_events_bytes_totals", r.sum_num_bytes_write)
          ∷ [])
      ∷ []

  unfoldable pub gather_perf_file_events_statuses :
      {Error : Type 0}
      → Bytes
      → Option Error
      → List (ReadRow (FileEvents Float) Error)
      → Gathered Float Error
  unfolding queried each_row file_calls
  gather_perf_file_events_statuses servtag err rows =
      queried err (each_row (file_calls servtag) rows)

  -- The variable of the statements without an index is never set.
  unfoldable pub statement_call : Bytes → Statements Float → List (Added Float)
  statement_call servtag r =
      record {
        measurement = perf_schema;
        fields =
            (codes "events_statements_total", r.count)
            ∷ (codes "events_statements_seconds_total", seconds r.query_time)
            ∷ (codes "events_statements_errors_total", r.errors)
            ∷ (codes "events_statements_warnings_total", r.warnings)
            ∷ (codes "events_statements_rows_affected_total", r.rows_affected)
            ∷ (codes "events_statements_rows_sent_total", r.rows_sent)
            ∷ (codes "events_statements_rows_examined_total", r.rows_examined)
            ∷ (codes "events_statements_tmp_tables_total", r.tmp_tables)
            ∷ (codes "events_statements_tmp_disk_tables_total", r.tmp_disk_tables)
            ∷ (codes "events_statements_sort_merge_passes_total", r.sort_merge_passes)
            ∷ (codes "events_statements_sort_rows_total", r.sort_rows)
            ∷ (codes "events_statements_no_index_used_total", zero_value)
            ∷ [];
        tags =
            (codes "server", servtag)
            ∷ (codes "schema", r.schema_name)
            ∷ (codes "digest", r.digest)
            ∷ (codes "digest_text", r.digest_text)
            ∷ [];
      }
      ∷ []

  module _ {Error : Type 0} (wrong_count : ℕ → ℕ → Error)
      (convert : List Bytes → ReadRow (Statements Float) Error) where
    -- `rows.Scan`: as many variables as columns.
    unfoldable pub scan_statement : List Bytes → ReadRow (Statements Float) Error
    scan_statement columns =
        if length columns == statement_variables
        then convert columns
        else scan_error (wrong_count (length columns) statement_variables)

    unfoldable pub gather_perf_events_statements :
        Bytes → Option Error → List (List Bytes) → Gathered Float Error
    unfolding queried each_row statement_call scan_statement
    gather_perf_events_statements servtag err rows =
        queried err (each_row (statement_call servtag) (map scan_statement rows))
