-- ===== src/Input/Mysql/Threads.antt =====
-- mecury/plugins/input/mysql/mysql.go: findThreadState and GatherProcessListStatuses.
pub mod States
pub mod Counted
use vgo.Prelude.{
  ℕ, ◌+◌, ◌%◌, ◌^◌, Bytes, codes, Bool, true, false, ◌&&◌, List, [], ◌∷◌, Option, none, some, equal,
  if◌then◌else◌,
}
use vgo.Prelude.Dict.{Dict, lookup, insert}
use vgo.Input.Text.{to_lower, replace_byte, holds_text}
use vgo.Input.Mysql.{ReadRow, row, scan_error, Added, Gathered, new_namespace}
use vgo.Input.Mysql.Tables.{general_thread_states, state_status_mappings}

unfoldable pub normal : Bytes → Bytes
unfolding to_lower replace_byte
normal text = replace_byte b'_' b' ' (to_lower text)

-- The end of findThreadState, for a state that no table has.
unfoldable pub state_of_command : Bytes → Bytes → Bytes
unfolding holds_text
state_of_command command state =
    if holds_text state (codes "waiting for") && holds_text state (codes "lock")
    then codes "waiting for lock"
    else if equal command (codes "sleep") && equal state []
    then codes "idle"
    else if equal command (codes "query")
    then codes "executing"
    else if equal command (codes "binlog dump")
    then codes "replication master"
    else codes "other"

unfoldable pub plain_state : Option Bytes → Bytes → Bytes → Bytes
unfolding state_of_command
plain_state (some mapped) command state = mapped
plain_state none command state = state_of_command command state

unfoldable pub known_state : Option ℕ → Bytes → Bytes → Bytes
unfolding plain_state lookup
known_state (some count) command state = state
known_state none command state = plain_state (lookup state state_status_mappings) command state

unfoldable pub find_thread_state : Bytes → Bytes → Bytes
unfolding normal known_state
find_thread_state raw_command raw_state =
    let state = normal raw_state in
    known_state (lookup state general_thread_states) (normal raw_command) state

-- A row: the command, the state, and the number of threads, a uint32.
pub record Process : Type 0 where
  pub command : Bytes
  pub state : Bytes
  pub count : ℕ

-- `stateCounts[foundState] += count`; a missing count reads as zero.
unfoldable pub count_or_zero : Option ℕ → ℕ
count_or_zero none = 0
count_or_zero (some n) = n

unfoldable pub add_count : Bytes → ℕ → Dict ℕ → Dict ℕ
unfolding count_or_zero
add_count state count counts =
    insert state ((count_or_zero (lookup state counts) + count) % 2 ^ 32) counts

-- `fields[newNamespace("threads", s)] = c` for each state.
unfoldable pub thread_fields : Dict ℕ → Dict ℕ → Dict ℕ
unfolding new_namespace
thread_fields [] fields = fields
thread_fields ((state, count) ∷ counts) fields =
    thread_fields counts (insert (new_namespace (codes "threads" ∷ state ∷ [])) count fields)

module _ {Error : Type 0} where
  -- The call that ends the gathering.
  unfoldable pub threads_added : Bytes → Dict ℕ → Gathered ℕ Error
  unfolding thread_fields
  threads_added servtag counts = record {
    added =
        record {
          measurement = codes "mysql_info_schema";
          fields = thread_fields counts [];
          tags = (codes "server", servtag) ∷ [];
        }
        ∷ [];
    error = none;
  }

  -- The loop over the rows, then the fields.
  unfoldable pub count_rows : Bytes → Dict ℕ → List (ReadRow Process Error) → Gathered ℕ Error
  unfolding threads_added add_count find_thread_state
  count_rows servtag counts [] = threads_added servtag counts
  count_rows servtag counts (scan_error e ∷ rows) = record { added = []; error = some e }
  count_rows servtag counts (row p ∷ rows) =
      count_rows servtag (add_count (find_thread_state p.command p.state) p.count counts) rows

  unfoldable pub gather_process_list_statuses :
      Bytes → Option Error → List (ReadRow Process Error) → Gathered ℕ Error
  unfolding count_rows
  gather_process_list_statuses servtag (some e) rows = record { added = []; error = some e }
  gather_process_list_statuses servtag none rows = count_rows servtag general_thread_states rows
