-- ===== src/Alarm/Process/Window.antt =====
-- `process` on the stored groups, one report and then a run of reports to one alert and level.
use vgo.Prelude.{
  ◌>>=◌, ℕ, suc, ◌+◌, ◌*◌, ◌≤◌, ◌≡◌, refl, ap, ◌∙◌, ◌==◌, ℕ_discrete, Bytes, Bool, true, false,
  List, [], ◌∷◌, ◌++◌, map, length, sym, length-append, length-map, Option, some, arith,
  if◌then◌else◌, equal,
}
use vgo.Prelude.Dict.{Dict, lookup, insert, lookup-insert, lookup-insert_self}
use vgo.Prelude.Int.{ℤ, pos, ◌+ℤ◌}
use vgo.Alarm.Counter.{Counter, observe}
use vgo.Alarm.Counter.Window.{
  observe_all, InWindow, Holds, observe_fires, observe_counts, observe_all-Ran,
}
use vgo.Alarm.State.{Alert, User, Group, Groups, Output, Sent, write, AlertData}
use vgo.Alarm.Process.{info, process}
use vgo.Alarm.Process.Refine.{Slot, InRange, Wrote, alarms, handle-observe}

-- The alert of a report is stored, and its level holds this counter.
pub record Held (gs : Groups) (a : AlertData) (users : Dict User) (c : Counter) : Type 0 where
  pub group : Group
  pub found : lookup a.group_id gs ≡ some group
  pub users_are : group.users ≡ users
  pub alert : Alert
  pub found_alert : lookup a.id group.alerts ≡ some alert
  pub slot : Slot alert a.level c

-- What a report may change: the counters of one level of one alert of one group.
pub record Frame (gs gs' : Groups) (a : AlertData) (before after : Group) : Type 0 where
  pub was : lookup a.group_id gs ≡ some before
  pub is : lookup a.group_id gs' ≡ some after
  pub same_id : after.id ≡ before.id
  pub same_users : after.users ≡ before.users
  pub other_groups : (gid : Bytes) → equal a.group_id gid ≡ false → lookup gid gs' ≡ lookup gid gs
  pub other_alerts :
      (id : Bytes) → equal a.id id ≡ false → lookup id after.alerts ≡ lookup id before.alerts

pub record Processed {gs : Groups} {a : AlertData} {users : Dict User} {c : Counter}
    (h : Held gs a users c) (raw : Bytes) (o : Output) (r : Counter × Bool)
    (out : Option (Groups × List Sent)) : Type 0 where
  pub groups : Groups
  pub returns : out ≡ some (groups, if r.1 then alarms o r.0.output raw users else [])
  pub held : Held groups a users r.0
  pub frame : Frame gs groups a h.group held.group
  pub wrote : Wrote h.alert held.alert a.level
  pub stored :
      groups
      ≡ insert a.group_id (record h.group { alerts = insert a.id held.alert h.group.alerts }) gs

-- A report to a stored alert does to the counter of its level what `observe` does: it returns, sends
-- one alarm to each user of the group exactly if the counter fires, stores the new counter, and
-- changes no other level, alert, group or user. The counter is in range and its output configured.
pub process-observe :
    (outputs : Dict Output) (now : ℤ) (raw : Bytes) (a : AlertData) (gs : Groups)
    (users : Dict User) (c : Counter) (o : Output) (h : Held gs a users c)
    → InRange c
    → lookup c.output outputs ≡ some o
    → Processed h raw o (observe c now) (process outputs now raw a gs)
unfolding process
process-observe outputs now raw a gs users c o h r known =
    let d = handle-observe raw h.group.users a.level now h.alert c o outputs h.slot r known in
    let alerts = insert a.id d.alert h.group.alerts in
    let group' = record h.group { alerts = alerts } in
    let gs' = insert a.group_id group' gs in
    record {
      groups = gs';
      returns = rw (h.found, h.found_alert, d.returns, h.users_are);
      held = record {
        group = group';
        found = lookup-insert_self a.group_id group' gs;
        users_are = h.users_are;
        alert = d.alert;
        found_alert = lookup-insert_self a.id d.alert h.group.alerts;
        slot = d.slot;
      };
      wrote = d.wrote;
      stored = refl;
      frame = record {
        was = h.found;
        is = lookup-insert_self a.group_id group' gs;
        same_id = refl;
        same_users = refl;
        other_groups = λ gid ne. rw (lookup-insert, ne);
        other_alerts = λ id ne. rw (lookup-insert, ne);
      };
    }

-- A delivered message: when it is handled, its bytes, and what they decode to.
pub record Report : Type 0 where
  pub now : ℤ
  pub raw : Bytes
  pub decoded : AlertData

-- The subscription hands the messages to `process` one after another.
unfoldable pub process_all : Dict Output → List Report → Groups → Option (Groups × List Sent)
process_all outputs [] gs = some (gs, [])
process_all outputs (r ∷ rs) gs = do
  (gs', sent) ← process outputs r.now r.raw r.decoded gs
  (gs'', more) ← process_all outputs rs gs'
  some (gs'', sent ++ more)

abbrev pub IsAbout : AlertData → AlertData → Type 0
IsAbout a b = (b.group_id ≡ a.group_id) × (b.id ≡ a.id) × (b.level ≡ a.level)

abbrev pub AllAbout : AlertData → List Report → Type 0
AllAbout a [] = Unit {0}
AllAbout a (r ∷ rs) = IsAbout a r.decoded × AllAbout a rs

pub observe-InRange : (c : Counter) (now : ℤ) → InRange c → InRange (observe c now).0
unfolding observe ◌+ℤ◌
observe-InRange c now r = ground arith

observe-output : (c : Counter) (now : ℤ) → (observe c now).0.output ≡ c.output
unfolding observe
observe-output c now = ground arith

Held-about :
    {gs : Groups} {users : Dict User} {c : Counter} (a b : AlertData)
    → IsAbout a b
    → Held gs a users c
    → Held gs b users c
Held-about a b (g, i, l) h = record {
  group = h.group;
  found = rw g h.found;
  users_are = h.users_are;
  alert = h.alert;
  found_alert = rw i h.found_alert;
  slot = rw l h.slot;
}

-- What the reports send that fire by `observe`.
abbrev pub observe_alarms : Output → Dict User → Counter → List Report → List Sent
observe_alarms o users c [] = []
observe_alarms o users c (m ∷ reports) =
    (if (observe c m.now).1 then alarms o (observe c m.now).0.output m.raw users else [])
    ++ observe_alarms o users (observe c m.now).0 reports

-- What is to be sent when `n` reports are counted already, by counting alone: at each `k + 1`st
-- report, to each of the users in their order, the address under that name with that report.
abbrev pub alarms_at : Output → (name : Bytes) → Dict User → (k n : ℕ) → List Report → List Sent
alarms_at o name users k n [] = []
alarms_at o name users k n (m ∷ reports) =
    (if n == k then alarms o name m.raw users else [])
    ++ alarms_at o name users k (if n == k then 0 else suc n) reports

observe_alarms-alarms_at :
    (o : Output) (users : Dict User) (c : Counter) (k n : ℕ) (reports : List Report)
    → Holds c k n
    → InWindow c.duration c.last (map (λ m. m.now) reports)
    → observe_alarms o users c reports ≡ alarms_at o c.output users k n reports
observe_alarms-alarms_at o users c k n [] h w = refl
observe_alarms-alarms_at o users c k n (m ∷ reports) h w = elim (ℕ_discrete n k) [
  | yes e ↦
      let rest =
        observe_alarms-alarms_at o users (record c { now_count = pos 0; last = m.now }) k 0 reports
          (record { limit = h.limit; count = refl; below = omega arith }) w.1 in
      let now : (n == k) ≡ true = ground arith in
      rw (observe_fires c k n m.now h w.0 e, now)
        (ap (λ more. alarms o c.output m.raw users ++ more) rest)
  | no ne ↦
      let rest =
        observe_alarms-alarms_at o users (record c { now_count = pos (suc n); last = m.now }) k
          (suc n) reports (record { limit = h.limit; count = refl; below = omega arith }) w.1 in
      let now : (n == k) ≡ false = ground arith in
      rw (observe_counts c k n m.now h w.0 ne, now) rest
]

-- After a run of reports: the counter that `observe_all` says, and an alarm for each user at each
-- report that fired.
pub record ProcessedAll (gs : Groups) (a : AlertData) (users : Dict User) (r : Counter × ℕ)
    (fired : List Sent) (out : Option (Groups × List Sent)) : Type 0 where
  pub groups : Groups
  pub sent : List Sent
  pub returns : out ≡ some (groups, sent)
  pub held : Held groups a users r.0
  pub sent_are : sent ≡ fired
  pub sent_count : length sent ≡ r.1 * length users

-- One report's alarms, if it fired, before those of the later reports.
length-alarms :
    (fired : Bool) (o : Output) (name raw : Bytes) (users : Dict User) (more : List Sent) (n : ℕ)
    → length more ≡ n * length users
    → length ((if fired then alarms o name raw users else []) ++ more)
      ≡ (if fired then suc n else n) * length users
length-alarms true o name raw users more n h = omega (
  arith,
  length-append (alarms o name raw users) more,
  length-map users (λ (p : Bytes × User). write o (record { content = raw; user = info p.1 name })),
)
length-alarms false o name raw users more n h = h

pub process_all-observe_all :
    (outputs : Dict Output) (a : AlertData) (users : Dict User) (o : Output) (reports : List Report)
    (gs : Groups) (c : Counter)
    → Held gs a users c
    → InRange c
    → lookup c.output outputs ≡ some o
    → AllAbout a reports
    → ProcessedAll gs a users
        (observe_all c (map (λ r. r.now) reports))
        (observe_alarms o users c reports)
        (process_all outputs reports gs)
unfolding process_all observe_all
process_all-observe_all outputs a users o [] gs c h r known about = record {
  groups = gs;
  sent = [];
  returns = refl;
  held = h;
  sent_are = refl;
  sent_count = omega arith;
}
process_all-observe_all outputs a users o (m ∷ reports) gs c h r known (here, rest) =
    let p =
      process-observe outputs m.now m.raw m.decoded gs users c o (Held-about a m.decoded here h) r
        known in
    let q =
      process_all-observe_all outputs a users o reports p.groups (observe c m.now).0
        (Held-about m.decoded a (sym here.0, sym here.1, sym here.2) p.held)
        (observe-InRange c m.now r) (rw observe-output known) rest in
    record {
      groups = q.groups;
      sent =
          (if (observe c m.now).1 then alarms o (observe c m.now).0.output m.raw users else [])
          ++ q.sent;
      returns = rw (p.returns, q.returns);
      held = q.held;
      sent_are =
          ap
            (λ more.
              (if (observe c m.now).1 then alarms o (observe c m.now).0.output m.raw users else [])
              ++ more)
            q.sent_are;
      sent_count = length-alarms (observe c m.now).1 o _ m.raw users q.sent _ q.sent_count;
    }

InRange-Holds : (c : Counter) (k n : ℕ) → Holds c k n → k ≤ 2147483646 → InRange c
InRange-Holds c k n h small = record {
  count_low = rw h.count (omega arith);
  count_high = rw h.count (omega (arith, h.below));
  limit_high = rw h.limit (omega arith);
}

-- A run of reports to one alert and level, each within the duration of the one before, whose counter
-- is `n` at first: every `k + 1`st report, where `k + 1` is the configured count, sends one alarm to
-- each user of the group, in their order, with the report as its content and the user's address
-- under the configured output's name, and no other report sends anything. The reports that
-- send, times `k + 1`, and the count that is kept add up to `n` and the number of reports.
pub process_all-Ran :
    (outputs : Dict Output) (a : AlertData) (users : Dict User) (o : Output) (reports : List Report)
    (gs : Groups) (c : Counter) (k n : ℕ)
    → Held gs a users c
    → Holds c k n
    → k ≤ 2147483646
    → lookup c.output outputs ≡ some o
    → AllAbout a reports
    → InWindow c.duration c.last (map (λ r. r.now) reports)
    → (gs' : Groups) × (sent : List Sent) × (fired left : ℕ) × (d : Counter) × (process_all outputs
          reports gs
        ≡ some (gs', sent))
      × Held gs' a users d
      × Holds d k left
      × (sent ≡ alarms_at o c.output users k n reports)
      × (length sent ≡ fired * length users)
      × (fired * suc k + left ≡ n + length reports)
process_all-Ran outputs a users o reports gs c k n h holds small known about window =
    let p =
      process_all-observe_all outputs a users o reports gs c h (InRange-Holds c k n holds small)
        known about in
    let r = observe_all-Ran c k n (map (λ m. m.now) reports) holds window in
    let total : _ = rw length-map at r.total in
    (
      p.groups,
      p.sent,
      (observe_all c (map (λ m. m.now) reports)).1,
      r.left,
      (observe_all c (map (λ m. m.now) reports)).0,
      p.returns,
      p.held,
      r.holds,
      p.sent_are ∙ observe_alarms-alarms_at o users c k n reports holds window,
      p.sent_count,
      total,
    )
