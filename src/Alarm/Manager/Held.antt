-- ===== src/Alarm/Manager/Held.antt =====
-- What the manager's handlers leave in the counters that `process` reads.
use vgo.Prelude.{
  ◌≡◌, ◌↔◌, refl, Bytes, codes, [], ◌∷◌, ◌∙◌, Option, none, some, equal, if◌then◌else◌, arith,
}
use vgo.Prelude.Dict.{
  Dict, lookup, insert, lookup-insert, lookup-insert_self, DistinctKeys, upsert_all,
  lookup-upsert_all, upserted,
}
use vgo.Prelude.Int.{pos}
use vgo.Alarm.State.{Alert, User, Group, Groups, AlertData, at}
use vgo.Alarm.Counter.{Counter}
use vgo.Alarm.Process.Refine.{Slot}
use vgo.Alarm.Process.Window.{Held}
use vgo.Alarm.Manager.{
  AlertRequest, UserRequest, GroupRequest, AlertsRequest, Clock, seconds, seconds_before, new_alert,
  new_user, put_users, add_group, put_alert, logged, add_alerts,
}

-- The counters of a new alert.
abbrev pub fresh_warn : Clock → Bytes → AlertRequest → Counter
fresh_warn clock k q = record {
  limit = q.warn_count;
  duration = seconds q.warn_duration;
  output = q.warn_alarm;
  now_count = pos 0;
  last = seconds_before (clock k).0 q.warn_duration;
}

abbrev pub fresh_crit : Clock → Bytes → AlertRequest → Counter
fresh_crit clock k q = record {
  limit = q.crit_count;
  duration = seconds q.crit_duration;
  output = q.crit_alarm;
  now_count = pos 0;
  last = seconds_before (clock k).1 q.crit_duration;
}

pub new_alert-Slot :
    (clock : Clock) (k : Bytes) (q : AlertRequest)
    → Slot (new_alert clock k q) (pos 0) (fresh_warn clock k q)
      × Slot (new_alert clock k q) (pos 1) (fresh_crit clock k q)
unfolding new_alert at
new_alert-Slot clock k q = (
  record { limit = refl; duration = refl; output = refl; now_count = refl; last = refl },
  record { limit = refl; duration = refl; output = refl; now_count = refl; last = refl },
)

-- The user that a request's map asks for under this name: the last of that name, as it is iterated.
abbrev pub requested : (name : Bytes) → Dict UserRequest → Option User
requested name [] = none
requested name ((k, u) ∷ us) = elim (requested name us) [
  | some last ↦ some last
  | none ↦ if equal u.name name then some (record { name = u.name; info = u.info }) else none
]

abbrev first_some : Option User → Option User → Option User
first_some (some u) other = some u
first_some none other = other

first_put :
    (name : Bytes) (users : Dict User) (last : Option User) (u : UserRequest)
    → first_some last (lookup name (insert u.name (new_user u) users))
      ≡ first_some
          (elim last [
            | some l ↦ some l
            | none ↦
                if equal u.name name then some (record { name = u.name; info = u.info }) else none
          ])
          (lookup name users)
unfolding new_user
first_put name users (some l) u = refl
first_put name users none u = ground (arith, lookup-insert u.name name (new_user u) users)

lookup-put_users :
    (name : Bytes) (us : Dict UserRequest) (users : Dict User)
    → lookup name (put_users us users) ≡ first_some (requested name us) (lookup name users)
unfolding put_users
lookup-put_users name [] users = refl
lookup-put_users name ((k, u) ∷ us) users =
    lookup-put_users name us (insert u.name (new_user u) users)
    ∙ first_put name users (requested name us) u

-- The users of a request, by their names.
pub record HasUsers (users : Dict User) (us : Dict UserRequest) : Type 0 where
  pub each : (name : Bytes) → lookup name users ≡ requested name us

put_users-HasUsers : (us : Dict UserRequest) → HasUsers (put_users us []) us
unfolding lookup
put_users-HasUsers us = record {
  each = λ name. lookup-put_users name us [] ∙ first_some-none (requested name us);
}
  where
    first_some-none : (o : Option User) → first_some o none ≡ o
    first_some-none none = refl
    first_some-none (some u) = refl

-- After AddGroup each alert of the request, whose map has distinct keys, is stored with both levels
-- at zero, with the limits, durations and outputs of the request; the users of its group are those
-- of the request by their names, the last one of a name where several have it, and no other.
pub add_group-Held :
    (clock : Clock) (r : GroupRequest) (gs : Groups) (q : AlertRequest) (warn crit : AlertData)
    → DistinctKeys r.alerts
    → lookup warn.id r.alerts ≡ some q
    → (warn.group_id ≡ r.id) × (warn.level ≡ pos 0)
    → (crit.group_id ≡ r.id) × (crit.level ≡ pos 1) × (crit.id ≡ warn.id)
    → (users : Dict User) × HasUsers users r.users
      × Held (add_group clock r gs).0 warn users (fresh_warn clock warn.id q)
      × Held (add_group clock r gs).0 crit users (fresh_crit clock warn.id q)
unfolding add_group lookup
add_group-Held clock r gs q warn crit d known (wg, wl) (cg, cl, ci) =
    let alerts = upsert_all (λ k a (old : Option Alert). new_alert clock k a) r.alerts [] in
    let g : Group = record { id = r.id; alerts = alerts; users = put_users r.users [] } in
    let stored : lookup warn.id alerts ≡ some (new_alert clock warn.id q) =
      rw (lookup-upsert_all _ warn.id r.alerts [] d, known) in
    let slots = new_alert-Slot clock warn.id q in
    (
      put_users r.users [],
      put_users-HasUsers r.users,
      record {
        group = g;
        found = rw wg (lookup-insert_self r.id g gs);
        users_are = refl;
        alert = new_alert clock warn.id q;
        found_alert = stored;
        slot = rw wl slots.0;
      },
      record {
        group = g;
        found = rw cg (lookup-insert_self r.id g gs);
        users_are = refl;
        alert = new_alert clock warn.id q;
        found_alert = rw ci stored;
        slot = rw cl slots.1;
      },
    )

abbrev pub merged : Clock → AlertsRequest → Group → Group
merged clock r g = record g { alerts = upsert_all (put_alert clock) r.alerts g.alerts }

pub add_alerts-logged :
    (clock : Clock) (r : AlertsRequest) (gs : Groups) (g : Group)
    → lookup r.group_id gs ≡ some g
    → add_alerts clock r gs
      ≡ logged
          (lookup (codes "cpu.usage") (merged clock r g).alerts)
          (insert r.group_id (merged clock r g) gs)
unfolding add_alerts
add_alerts-logged clock r gs g found = rw (found, add_alerts)

pub logged-some :
    (o : Option Alert) {gs gs' : Groups} {reply : Bytes}
    → logged o gs ≡ some (gs', reply)
    → gs' ≡ gs
logged-some none h = cc
logged-some (some a) h = cc

merged_warn-Held :
    (clock : Clock) (r : AlertsRequest) (gs gs' : Groups) (reply : Bytes) (q : AlertRequest)
    (a : AlertData) (users : Dict User) (c : Counter)
    → DistinctKeys r.alerts
    → a.group_id ≡ r.group_id
    → lookup a.id r.alerts ≡ some q
    → a.level ≡ pos 0
    → Held gs a users c
    → add_alerts clock r gs ≡ some (gs', reply)
    → Held gs' a users (record c { limit = q.warn_count; output = q.warn_alarm })
unfolding put_alert at
merged_warn-Held clock r gs gs' reply q a users c d same known level h done =
    let found = rw same at h.found in
    let is = logged-some _ (rw (add_alerts-logged clock r gs h.group found) at done) in
    let slot = rw level at h.slot in
    rw is (record {
      group = merged clock r h.group;
      found = rw same (lookup-insert_self r.group_id (merged clock r h.group) gs);
      users_are = h.users_are;
      alert = put_alert clock a.id q (some h.alert);
      found_alert = rw (lookup-upsert_all _ a.id r.alerts h.group.alerts d, known, h.found_alert);
      slot = rw level (record {
        limit = refl;
        duration = slot.duration;
        output = refl;
        now_count = slot.now_count;
        last = slot.last;
      });
    })

merged_crit-Held :
    (clock : Clock) (r : AlertsRequest) (gs gs' : Groups) (reply : Bytes) (q : AlertRequest)
    (a : AlertData) (users : Dict User) (c : Counter)
    → DistinctKeys r.alerts
    → a.group_id ≡ r.group_id
    → lookup a.id r.alerts ≡ some q
    → a.level ≡ pos 1
    → Held gs a users c
    → add_alerts clock r gs ≡ some (gs', reply)
    → Held gs' a users (record c { limit = q.crit_count; output = q.crit_alarm })
unfolding put_alert at
merged_crit-Held clock r gs gs' reply q a users c d same known level h done =
    let found = rw same at h.found in
    let is = logged-some _ (rw (add_alerts-logged clock r gs h.group found) at done) in
    let slot = rw level at h.slot in
    rw is (record {
      group = merged clock r h.group;
      found = rw same (lookup-insert_self r.group_id (merged clock r h.group) gs);
      users_are = h.users_are;
      alert = put_alert clock a.id q (some h.alert);
      found_alert = rw (lookup-upsert_all _ a.id r.alerts h.group.alerts d, known, h.found_alert);
      slot = rw level (record {
        limit = refl;
        duration = slot.duration;
        output = refl;
        now_count = slot.now_count;
        last = slot.last;
      });
    })

-- AddAlerts, where it returns, on a stored alert that the request, whose map has distinct keys, asks
-- for: both levels get the limit and the output that the request has for them, and keep their
-- counts, their last times and their durations, whatever durations the request asks for.
pub add_alerts-Held :
    (clock : Clock) (r : AlertsRequest) (gs gs' : Groups) (reply : Bytes) (q : AlertRequest)
    (warn crit : AlertData) (users : Dict User) (w c : Counter)
    → DistinctKeys r.alerts
    → lookup warn.id r.alerts ≡ some q
    → (warn.group_id ≡ r.group_id) × (warn.level ≡ pos 0)
    → (crit.group_id ≡ r.group_id) × (crit.level ≡ pos 1) × (crit.id ≡ warn.id)
    → Held gs warn users w
    → Held gs crit users c
    → add_alerts clock r gs ≡ some (gs', reply)
    → Held gs' warn users (record w { limit = q.warn_count; output = q.warn_alarm })
      × Held gs' crit users (record c { limit = q.crit_count; output = q.crit_alarm })
add_alerts-Held clock r gs gs' reply q warn crit users w c d known (wg, wl) (cg, cl, ci) hw hc
      done =
    (
      merged_warn-Held clock r gs gs' reply q warn users w d wg known wl hw done,
      merged_crit-Held clock r gs gs' reply q crit users c d cg (rw ci known) cl hc done,
    )

logged_iff :
    (clock : Clock) (k : Bytes) (q : Option AlertRequest) (old : Option Alert) (gs : Groups)
    → (logged (upserted (put_alert clock) k q old) gs ≡ none) ↔ ((q ≡ none) × (old ≡ none))
logged_iff clock k none none gs = (λ _. (refl, refl), λ _. refl)
logged_iff clock k none (some a) gs = (λ h. cc, λ h. cc)
logged_iff clock k (some q) old gs = (λ h. cc, λ h. cc)

-- On a known group AddAlerts panics exactly when neither the request nor the group has an alert
-- named cpu.usage.
pub add_alerts_panics :
    (clock : Clock) (r : AlertsRequest) (gs : Groups) (g : Group)
    → DistinctKeys r.alerts
    → lookup r.group_id gs ≡ some g
    → (add_alerts clock r gs ≡ none) ↔ (
        (lookup (codes "cpu.usage") r.alerts ≡ none) × (lookup (codes "cpu.usage") g.alerts ≡ none))
add_alerts_panics clock r gs g d found =
    rw (add_alerts-logged clock r gs g found, lookup-upsert_all _ _ r.alerts g.alerts d)
      (logged_iff clock (codes "cpu.usage") (lookup (codes "cpu.usage") r.alerts)
        (lookup (codes "cpu.usage") g.alerts) _)
