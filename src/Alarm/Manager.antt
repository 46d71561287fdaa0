-- ===== src/Alarm/Manager.antt =====
-- alarm/service/manager.go: the gRPC handlers that write the groups.
-- The requests have the fields that the handlers read; the protobuf code is not modelled. `clock`
-- gives the two readings of `time.Now()` that are taken for the alert of a name.
pub mod Held
pub mod Levels
pub mod Reachable
pub mod WellFormed
use vgo.Prelude.{ℕ, Bytes, codes, List, [], ◌∷◌, map, Option, none, some}
use vgo.Prelude.Dict.{Dict, lookup, insert, upsert_all}
use vgo.Prelude.Int.{ℤ, pos, ◌+ℤ◌, ◌-ℤ◌, scale}
use vgo.Prelude.Words.{wrap64}
use vgo.Alarm.State.{Alert, User, Group, Groups}

pub record AlertRequest : Type 0 where
  pub warn_count : ℤ
  pub crit_count : ℤ
  pub warn_alarm : Bytes
  pub crit_alarm : Bytes
  pub warn_duration : ℤ
  pub crit_duration : ℤ

pub record UserRequest : Type 0 where
  pub name : Bytes
  pub info : Dict Bytes

pub record GroupRequest : Type 0 where
  pub id : Bytes
  pub alerts : Dict AlertRequest
  pub users : Dict UserRequest

pub record UsersRequest : Type 0 where
  pub group_id : Bytes
  pub users : Dict UserRequest

pub record AlertsRequest : Type 0 where
  pub group_id : Bytes
  pub alerts : Dict AlertRequest

abbrev pub Clock : Type 0
Clock = Bytes → ℤ × ℤ

-- `d * time.Second` in int64.
unfoldable pub seconds : ℤ → ℤ
seconds d = wrap64 (scale d 1000000000)

-- `time.Now().Add(-1 * d * time.Second)`.
unfoldable pub seconds_before : ℤ → ℤ → ℤ
unfolding seconds
seconds_before now d = now +ℤ seconds (wrap64 (pos 0 -ℤ d))

abbrev pub both {ℓ} : {A : Type ℓ} → A → A → List A
both warn crit = warn ∷ crit ∷ []

-- The literal `&Alert{…}`, which stands in AddGroup and in AddAlerts.
unfoldable pub new_alert : Clock → Bytes → AlertRequest → Alert
new_alert clock k a = record {
  type = pos 0;
  value = both 0 0;
  count = both a.warn_count a.crit_count;
  now_count = both (pos 0) (pos 0);
  alarm_output = both a.warn_alarm a.crit_alarm;
  duration = both (seconds a.warn_duration) (seconds a.crit_duration);
  last_time =
      both (seconds_before (clock k).0 a.warn_duration)
        (seconds_before (clock k).1 a.crit_duration);
}

unfoldable pub new_user : UserRequest → User
new_user u = record { name = u.name; info = u.info }

-- `for _, u := range r.Users { g.Users[u.Name] = … }`.
unfoldable pub put_users : Dict UserRequest → Dict User → Dict User
unfolding new_user
put_users [] users = users
put_users ((_, u) ∷ us) users = put_users us (insert u.name (new_user u) users)

unfoldable pub add_group : Clock → GroupRequest → Groups → Groups × Bytes
unfolding put_users new_alert
add_group clock r gs =
    let g : Group = record {
      id = r.id;
      alerts = upsert_all (λ k a old. new_alert clock k a) r.alerts [];
      users = put_users r.users [];
    } in
    (insert r.id g gs, codes "add group ok")

unfoldable pub add_users : UsersRequest → Groups → Groups × Bytes
unfolding put_users
add_users r gs = elim (lookup r.group_id gs) [
  | none ↦ (gs, codes "no group found")
  | some g ↦
      (insert r.group_id (record g { users = put_users r.users g.users }) gs, codes "add users ok")
]

-- The body of the loop of AddAlerts: a known alert keeps its counters and its window.
unfoldable pub put_alert : Clock → Bytes → AlertRequest → Option Alert → Alert
unfolding new_alert
put_alert clock k a none = new_alert clock k a
put_alert clock k a (some alert) = record alert {
  count = both a.warn_count a.crit_count;
  alarm_output = both a.warn_alarm a.crit_alarm;
}

-- `log.Println(g.Alerts["cpu.usage"].Duration)` and the reply: a nil alert is a panic, `none`.
abbrev pub logged : Option Alert → Groups → Option (Groups × Bytes)
logged none gs = none
logged (some a) gs = some (gs, codes "add alerts ok")

unfoldable pub add_alerts : Clock → AlertsRequest → Groups → Option (Groups × Bytes)
unfolding put_alert
add_alerts clock r gs = elim (lookup r.group_id gs) [
  | none ↦ some (gs, codes "no group found")
  | some g ↦
      let alerts = upsert_all (put_alert clock) r.alerts g.alerts in
      logged (lookup (codes "cpu.usage") alerts)
        (insert r.group_id (record g { alerts = alerts }) gs)
]

unfoldable pub init_group : Groups
init_group = []
