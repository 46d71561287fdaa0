-- ===== src/Input/Mysql/Server.antt =====
-- mecury/plugins/input/mysql/mysql.go: gatherServer, which runs the gatherers one after the other until one of
-- them fails. Whether `lastT` is long ago is an argument; both of its branches gather the variables.
pub mod Order
use vgo.Prelude.{Bytes, Bool, true, false, List, [], ◌∷◌, Option, none, some, if◌then◌else◌}
use vgo.Input.Mysql.{Added, Gathered}
use vgo.Input.Mysql.Perf.Events.{unless_failed}

-- The fields of Mysql that choose the gatherers.
pub record Mysql : Type 0 where
  pub interval_slow : Bytes
  pub gather_binary_logs : Bool
  pub gather_process_list : Bool
  pub gather_slave_status : Bool
  pub gather_info_schema_auto_inc : Bool
  pub gather_table_io_waits : Bool
  pub gather_index_io_waits : Bool
  pub gather_table_lock_waits : Bool
  pub gather_event_waits : Bool
  pub gather_file_events_stats : Bool
  pub gather_perf_events_statements : Bool
  pub gather_table_schema : Bool

-- What each gatherer does, if it is called.
pub record Gatherers (V Error : Type 0) : Type 0 where
  pub global_statuses : Gathered V Error
  pub global_variables : Gathered V Error
  pub binary_logs : Gathered V Error
  pub process_list : Gathered V Error
  pub slave_statuses : Gathered V Error
  pub auto_inc : Gathered V Error
  pub table_io_waits : Gathered V Error
  pub index_io_waits : Gathered V Error
  pub table_lock_waits : Gathered V Error
  pub event_waits : Gathered V Error
  pub file_events : Gathered V Error
  pub events_statements : Gathered V Error
  pub table_schema : Gathered V Error

-- `len(m.IntervalSlow) > 0`.
unfoldable pub is_set : Bytes → Bool
is_set [] = false
is_set (c ∷ s) = true

module _ {V Error : Type 0} where
  -- A gatherer that is chosen, or not, before the rest.
  unfoldable pub run_then : Bool → Gathered V Error → Gathered V Error → Gathered V Error
  unfolding unless_failed
  run_then true first rest = unless_failed first.error first.added rest
  run_then false first rest = rest

  unfoldable pub run_all : List (Bool × Gathered V Error) → Gathered V Error
  unfolding run_then
  run_all [] = record { added = []; error = none }
  run_all ((chosen, first) ∷ steps) = run_then chosen first (run_all steps)

  unfoldable pub steps_of :
      Mysql → (is_long_ago : Bool) → Gatherers V Error → List (Bool × Gathered V Error)
  unfolding is_set
  steps_of m is_long_ago g =
      (true, g.global_statuses)
      ∷ (is_set m.interval_slow, if is_long_ago then g.global_variables else g.global_variables)
      ∷ (m.gather_binary_logs, g.binary_logs)
      ∷ (m.gather_process_list, g.process_list)
      ∷ (m.gather_slave_status, g.slave_statuses)
      ∷ (m.gather_info_schema_auto_inc, g.auto_inc)
      ∷ (m.gather_table_io_waits, g.table_io_waits)
      ∷ (m.gather_index_io_waits, g.index_io_waits)
      ∷ (m.gather_table_lock_waits, g.table_lock_waits)
      ∷ (m.gather_event_waits, g.event_waits)
      ∷ (m.gather_file_events_stats, g.file_events)
      ∷ (m.gather_perf_events_statements, g.events_statements)
      ∷ (m.gather_table_schema, g.table_schema)
      ∷ []

  -- What `dsnAddTimeout` and `sql.Open` return comes first.
  unfoldable pub gather_server :
      Mysql
      → Option Error
      → Option Error
      → (is_long_ago : Bool) → Gatherers V Error
      → Gathered V Error
  unfolding run_all steps_of
  gather_server m (some e) open_error is_long_ago g = record { added = []; error = some e }
  gather_server m none (some e) is_long_ago g = record { added = []; error = some e }
  gather_server m none none is_long_ago g = run_all (steps_of m is_long_ago g)
