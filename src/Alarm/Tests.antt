-- ===== src/Alarm/Tests.antt =====
-- Runs of the alarm service on concrete requests, and the theorems at them.
use vgo.Prelude.{
  ℕ, ◌+◌, ◌*◌, ◌≡◌, ◌↔◌, refl, subst, inr, Bytes, codes, List, [], ◌∷◌, length, Option, none, some,
  arith, equal,
}
use vgo.Prelude.Dict.{Dict, lookup, insert, upsert_all}
use vgo.Prelude.Int.{ℤ, pos, ◌+ℤ◌, ◌-ℤ◌, scale}
use vgo.Prelude.Words.{wrap64}
use vgo.Alarm.State.{User, Group, Groups, mail, Output, Sent, AlertData, at}
use vgo.Alarm.Counter.{Counter, observe}
use vgo.Alarm.Counter.Window.{Holds}
use vgo.Alarm.Process.{time_sub, process}
use vgo.Alarm.Process.Refine.{InRange}
use vgo.Alarm.Process.Window.{
  Held, Processed, process-observe, Report, process_all, process_all-Ran, alarms_at, IsAbout,
}
use vgo.Alarm.Manager.{
  AlertRequest, UserRequest, GroupRequest, AlertsRequest, Clock, seconds, seconds_before, new_alert,
  put_users, put_alert, add_group, add_alerts, init_group,
}
use vgo.Alarm.Manager.Held.{
  HasUsers, fresh_warn, fresh_crit, new_alert-Slot, add_group-Held, add_alerts-Held,
  add_alerts_panics,
}
use vgo.Alarm.Manager.WellFormed.{IsWellFormed}
use vgo.Alarm.Manager.Reachable.{
  Reach, start, next, group, IsReady, Succeeds, Reach-IsWellFormed, Reach-Succeeds,
}

abbrev clock : Clock
clock k = (pos 100000000000, pos 100000000000)

abbrev cpu : AlertRequest
cpu = record {
  warn_count = pos 2;
  crit_count = pos 1;
  warn_alarm = codes "mail";
  crit_alarm = codes "mail";
  warn_duration = pos 60;
  crit_duration = pos 60;
}

abbrev ann : UserRequest
ann = record { name = codes "ann"; info = (codes "mail", codes "ann@x") ∷ [] }

abbrev request : GroupRequest
request = record {
  id = codes "g";
  alerts = (codes "cpu.usage", cpu) ∷ [];
  users = (codes "u1", ann) ∷ [];
}

abbrev outputs : Dict Output
outputs = (codes "mail", record { name = codes "mail"; output = mail }) ∷ []

abbrev known_output : Output
known_output = record { name = codes "mail"; output = mail }

abbrev gs : Groups
gs = (add_group clock request init_group).0

abbrev alert_data : ℤ → AlertData
alert_data level = record {
  id = codes "cpu.usage";
  group_id = codes "g";
  value = 0;
  level = level;
  host_name = codes "h";
}

abbrev users : Dict User
users = put_users request.users []

abbrev counter : Counter
counter = fresh_warn clock (codes "cpu.usage") cpu

abbrev stored : Group
stored = record {
  id = codes "g";
  alerts = (codes "cpu.usage", new_alert clock (codes "cpu.usage") cpu) ∷ [];
  users = users;
}

held : Held gs (alert_data (pos 0)) users counter
unfolding lookup equal add_group insert upsert_all init_group
held = record {
  group = stored;
  found = refl;
  users_are = refl;
  alert = new_alert clock (codes "cpu.usage") cpu;
  found_alert = refl;
  slot = (new_alert-Slot clock (codes "cpu.usage") cpu).0;
}

held_crit : Held gs (alert_data (pos 1)) users (fresh_crit clock (codes "cpu.usage") cpu)
unfolding lookup equal add_group insert upsert_all init_group
held_crit = record {
  group = stored;
  found = refl;
  users_are = refl;
  alert = new_alert clock (codes "cpu.usage") cpu;
  found_alert = refl;
  slot = (new_alert-Slot clock (codes "cpu.usage") cpu).1;
}

add_group-Held_example :
    (users : Dict User) × HasUsers users request.users
    × Held gs (alert_data (pos 0)) users counter
    × Held gs (alert_data (pos 1)) users (fresh_crit clock (codes "cpu.usage") cpu)
unfolding lookup equal
add_group-Held_example =
    add_group-Held clock request init_group cpu (alert_data (pos 0)) (alert_data (pos 1)) (refl, tt)
      refl (refl, refl) (refl, refl, refl)

abbrev at_time : ℕ → Report
at_time t = record { now = pos t; raw = codes "r"; decoded = alert_data (pos 0) }

abbrev reports : List Report
reports = at_time 100000000000 ∷ at_time 100000000001 ∷ at_time 100000000002 ∷ []

process_all-Ran_example :
    (gs' : Groups) × (sent : List Sent) × (fired left : ℕ) × (d : Counter) × (process_all outputs
        reports gs
      ≡ some (gs', sent))
    × Held gs' (alert_data (pos 0)) users d
    × Holds d 1 left
    × (sent ≡ alarms_at known_output (codes "mail") users 1 0 reports)
    × (length sent ≡ fired * length users)
    × (fired * 2 + left ≡ 0 + 3)
unfolding lookup equal time_sub ◌-ℤ◌ ◌+ℤ◌ seconds seconds_before scale wrap64
process_all-Ran_example =
    process_all-Ran outputs (alert_data (pos 0)) users known_output reports gs counter 1 0 held
      (record { limit = refl; count = refl; below = omega arith }) (omega arith) refl
      (about, (about, (about, tt))) (refl, (refl, (refl, tt)))
  where
    about : IsAbout (alert_data (pos 0)) (alert_data (pos 0))
    about = (refl, refl, refl)

process-observe_example :
    Processed held
      (codes "r")
      known_output
      (observe counter (pos 100000000000))
      (process outputs (pos 100000000000) (codes "r") (alert_data (pos 0)) gs)
unfolding lookup equal
process-observe_example =
    process-observe outputs (pos 100000000000) (codes "r") (alert_data (pos 0)) gs users counter
      known_output held range refl
  where
    range : InRange counter
    range = omega arith

abbrev slower : AlertRequest
slower = record cpu {
  warn_count = pos 5;
  crit_count = pos 7;
  crit_alarm = codes "sms";
  warn_duration = pos 1;
}

abbrev new_limits : AlertsRequest
new_limits = record { group_id = codes "g"; alerts = (codes "cpu.usage", slower) ∷ [] }

abbrev gs_after : Groups
gs_after =
    (
      codes "g",
      record stored {
        alerts =
            (
              codes "cpu.usage",
              put_alert clock (codes "cpu.usage") slower
                  (some (new_alert clock (codes "cpu.usage") cpu)),
            )
            ∷ [];
      },
    )
    ∷ []

add_alerts-Held_example :
    Held gs_after (alert_data (pos 0)) users (record counter { limit = pos 5 })
    × Held gs_after
        (alert_data (pos 1))
        users
        (record (fresh_crit clock (codes "cpu.usage") cpu) { limit = pos 7; output = codes "sms" })
unfolding lookup equal add_alerts add_group insert upsert_all init_group
add_alerts-Held_example =
    add_alerts-Held clock new_limits gs gs_after (codes "add alerts ok") slower (alert_data (pos 0))
      (alert_data (pos 1)) users counter (fresh_crit clock (codes "cpu.usage") cpu) (refl, tt) refl
      (refl, refl) (refl, refl, refl) held held_crit refl

abbrev disk_limits : AlertsRequest
disk_limits = record { group_id = codes "d"; alerts = (codes "disk.free", cpu) ∷ [] }

abbrev disk_group : Group
disk_group = record { id = codes "d"; alerts = []; users = [] }

abbrev disk_groups : Groups
disk_groups = (codes "d", disk_group) ∷ []

add_alerts_panics_example : (add_alerts clock disk_limits disk_groups ≡ none) ↔ (
    (lookup (codes "cpu.usage") disk_limits.alerts ≡ none)
    × (lookup (codes "cpu.usage") disk_group.alerts ≡ none))
unfolding lookup equal
add_alerts_panics_example =
    add_alerts_panics clock disk_limits disk_groups disk_group (refl, tt) refl

add_alerts_panics_here : add_alerts clock disk_limits disk_groups ≡ none
unfolding add_alerts put_alert lookup equal upsert_all insert
add_alerts_panics_here = refl

reached : Reach outputs gs
reached = next start (group clock request (omega arith))

Reach-IsWellFormed_example : IsWellFormed gs
Reach-IsWellFormed_example = Reach-IsWellFormed reached

mail_is : (name : Bytes) → some (codes "mail") ≡ some name → lookup name outputs ≡ some known_output
unfolding lookup equal
mail_is name e = subst is_mail e refl
  where
    is_mail : Option Bytes → Type 0
    is_mail none = Unit
    is_mail (some n) = lookup n outputs ≡ some known_output

ready : IsReady outputs gs (alert_data (pos 1))
unfolding lookup equal add_group insert upsert_all init_group new_alert at
ready = record {
  group = stored;
  found = refl;
  alert = new_alert clock (codes "cpu.usage") cpu;
  found_alert = refl;
  level = inr refl;
  output = λ name e. (known_output, mail_is name e);
}

Reach-Succeeds_example : Succeeds outputs (pos 100000000000) (codes "r") (alert_data (pos 1)) gs
Reach-Succeeds_example =
    Reach-Succeeds outputs (pos 100000000000) (codes "r") (alert_data (pos 1)) gs reached ready
