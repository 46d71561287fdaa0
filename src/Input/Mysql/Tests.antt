-- ===== src/Input/Mysql/Tests.antt =====
-- The MySQL plugin on concrete rows, and the theorems about it at those rows.
use vgo.Prelude.{
  ℕ, ◌-◌, ◌^◌, ◌≡◌, refl, Bytes, codes, true, false, List, [], ◌∷◌, map, Option, none, some, equal,
  length,
}
use vgo.Prelude.Dict.{Dict, lookup, insert}
use vgo.Input.Mysql.{ReadRow, row, scan_error, Added, Gathered}
use vgo.Input.Mysql.Threads.{Process, find_thread_state, gather_process_list_statuses}
use vgo.Input.Mysql.Threads.Counted.{IsTallied, gather_process_list-IsTallied}
use vgo.Input.Mysql.Globals.{gather_global_variables, is_mapped, put_variable}
use vgo.Input.Mysql.Globals.Batches.{IsBatched, all_variables, gather_global_variables-IsBatched}
use vgo.Input.Mysql.Tables.{mappings}
use vgo.Input.Mysql.Perf.Events.{Statements, FileEvents}
use vgo.Input.Mysql.Perf.Statements.{gather_perf_events_statements, scan_statement, file_calls}
use vgo.Input.Mysql.Rows.{each_row, queried}
use vgo.Input.Mysql.Server.{Mysql, Gatherers, steps_of}
use vgo.Input.Mysql.Server.Order.{calls_until, first_error}

-- Two rows of one state, spelled in two ways.
abbrev two_updates : List Process
two_updates =
    record { command = codes "Query"; state = codes "Updating"; count = 3 }
    ∷ record { command = codes "Query"; state = codes "update"; count = 4 }
    ∷ []

gather_process_list-IsTallied_example :
    IsTallied {Error = ℕ}
      (codes "db")
      two_updates
      (gather_process_list_statuses (codes "db") none (map row two_updates))
gather_process_list-IsTallied_example = gather_process_list-IsTallied (codes "db") two_updates

both_updating :
    (find_thread_state (codes "Query") (codes "Updating") ≡ codes "updating")
    × (find_thread_state (codes "Query") (codes "update") ≡ codes "updating")
    × (find_thread_state (codes "Binlog_Dump") (codes "x") ≡ codes "replication master")
unfolding find_thread_state lookup equal
both_updating = (refl, refl, refl)

-- Numbers are texts of one digit here.
abbrev digit : Bytes → Option ℕ
digit [] = none
digit (c ∷ s) = some c

abbrev variables : List (Bytes × Bytes)
variables =
    (codes "Port", codes "3")
    ∷ (codes "port", codes "4")
    ∷ (codes "Log_bin", codes "OFF")
    ∷ (codes "Empty", [])
    ∷ []

gather_global_variables-IsBatched_example :
    IsBatched {Error = ℕ} []
      (all_variables 1 digit variables [])
      (gather_global_variables 1 digit (codes "db") none (map row variables))
gather_global_variables-IsBatched_example =
    gather_global_variables-IsBatched 1 digit (codes "db") variables

last_port : all_variables 1 digit variables [] ≡ (codes "port", 52) ∷ []
unfolding insert equal put_variable
last_port = refl

-- Slow_queries is a mapped status, so its own case of the switch is never reached.
slow_queries_mapped : is_mapped mappings (codes "Slow_queries") ≡ true
unfolding is_mapped
slow_queries_mapped = refl

-- The names with a prefix of Aria are not, for want of a second underscore.
aria_not_mapped : is_mapped mappings (codes "Aria_pagecache_reads") ≡ false
unfolding is_mapped
aria_not_mapped = refl

abbrev log_files : List (Bytes × ℕ)
log_files = (codes "log.1", 2 ^ 64 - 1) ∷ (codes "log.2", 6) ∷ []

-- A driver that converts nothing.
abbrev no_conversion : List Bytes → ReadRow (Statements ℕ) ℕ
no_conversion columns = scan_error 99

abbrev statement : List Bytes
statement =
    codes "s"
    ∷ codes "d"
    ∷ codes "t"
    ∷ codes "1"
    ∷ codes "2"
    ∷ codes "3"
    ∷ codes "4"
    ∷ codes "5"
    ∷ codes "6"
    ∷ codes "7"
    ∷ codes "8"
    ∷ codes "9"
    ∷ codes "10"
    ∷ codes "11"
    ∷ codes "12"
    ∷ []

statement_fails :
    gather_perf_events_statements 0
      (λ x. x)
      (λ n m. n)
      no_conversion
      (codes "db")
      none
      (statement ∷ [])
    ≡ record { added = []; error = some 15 }
unfolding gather_perf_events_statements scan_statement each_row queried
statement_fails = refl

abbrev file_row : FileEvents ℕ
file_row = record {
  event_name = codes "e";
  count_read = 1;
  sum_timer_read = 2;
  sum_num_bytes_read = 3;
  count_write = 4;
  sum_timer_write = 5;
  sum_num_bytes_write = 6;
  count_misc = 7;
  sum_timer_misc = 8;
}

abbrev fields_of : List (Added ℕ) → List (Dict ℕ)
fields_of [] = []
fields_of (call ∷ calls) = call.fields ∷ fields_of calls

-- The total of the other operations is that of the writes.
misc_total :
    fields_of (file_calls 0 (λ x. x) (codes "db") file_row)
    ≡ ((codes "file_events_total", 4) ∷ (codes "file_events_seconds_total", 8) ∷ [])
      ∷ ((codes "file_events_total", 1)
          ∷ (codes "file_events_seconds_total", 2)
          ∷ (codes "file_events_bytes_totals", 3)
          ∷ [])
      ∷ ((codes "file_events_total", 4)
          ∷ (codes "file_events_seconds_total", 5)
          ∷ (codes "file_events_bytes_totals", 6)
          ∷ [])
      ∷ []
unfolding file_calls
misc_total = refl

-- All chosen, and the third gatherer fails.
abbrev all_chosen : Mysql
all_chosen = record {
  interval_slow = [];
  gather_binary_logs = true;
  gather_process_list = true;
  gather_slave_status = true;
  gather_info_schema_auto_inc = true;
  gather_table_io_waits = true;
  gather_index_io_waits = true;
  gather_table_lock_waits = true;
  gather_event_waits = true;
  gather_file_events_stats = true;
  gather_perf_events_statements = true;
  gather_table_schema = true;
}

abbrev one_call : Bytes → Gathered ℕ ℕ
one_call name = record {
  added = record { measurement = name; fields = (codes "value", 1) ∷ []; tags = [] } ∷ [];
  error = none;
}

abbrev failing_lists : Gatherers ℕ ℕ
failing_lists = record {
  global_statuses = one_call (codes "statuses");
  global_variables = one_call (codes "variables");
  binary_logs = one_call (codes "logs");
  process_list = record { added = []; error = some 5 };
  slave_statuses = one_call (codes "slave");
  auto_inc = one_call (codes "auto");
  table_io_waits = one_call (codes "table");
  index_io_waits = one_call (codes "index");
  table_lock_waits = one_call (codes "locks");
  event_waits = one_call (codes "events");
  file_events = one_call (codes "files");
  events_statements = one_call (codes "statements");
  table_schema = one_call (codes "schema");
}

two_calls_then_five :
    (length (calls_until (steps_of all_chosen true failing_lists)) ≡ 2)
    × (first_error (steps_of all_chosen true failing_lists) ≡ some 5)
unfolding steps_of
two_calls_then_five = (refl, refl)
