-- ===== src/Alarm/Manager/Reachable.antt =====
-- The requests and reports as steps, and what holds in every state that they reach.
use vgo.Prelude.{◌≡◌, ◌⊎◌, inl, inr, refl, ◌∙◌, sym, subst, Bytes, List, some}
use vgo.Prelude.Dict.{Dict, lookup}
use vgo.Prelude.Int.{ℤ, pos}
use vgo.Alarm.State.{Alert, Group, Groups, Output, Sent, AlertData, at}
use vgo.Alarm.Counter.{Counter}
use vgo.Alarm.Process.{process}
use vgo.Alarm.Process.Refine.{Slot, InRange, Wrote}
use vgo.Alarm.Process.Window.{Held, process-observe, observe-InRange}
use vgo.Alarm.Manager.{
  GroupRequest, UsersRequest, AlertsRequest, Clock, add_group, add_users, add_alerts, init_group,
}
use vgo.Alarm.Manager.WellFormed.{
  IsLevelled, IsWellFormed, CountsInt32, add_group-IsWellFormed, add_users-IsWellFormed,
  add_alerts-IsWellFormed, IsWellFormed-insert, AllLevelled-insert,
}
use vgo.Alarm.Manager.Levels.{process-IsWellFormed}

-- The report names a stored alert and one of the two levels, whose output is configured.
pub record IsReady (outputs : Dict Output) (gs : Groups) (a : AlertData) : Type 0 where
  pub group : Group
  pub found : lookup a.group_id gs ≡ some group
  pub alert : Alert
  pub found_alert : lookup a.id group.alerts ≡ some alert
  pub level : (a.level ≡ pos 0) ⊎ (a.level ≡ pos 1)
  pub output :
      (name : Bytes)
      → at alert.alarm_output a.level ≡ some name
      → (o : Output) × (lookup name outputs ≡ some o)

-- A request, or a report that is handled without a panic, whatever it names and whatever is
-- configured.
pub data Step (outputs : Dict Output) : Groups → Groups → Type 0 where
  group :
      (clock : Clock) (r : GroupRequest) {gs : Groups}
      → CountsInt32 r.alerts
      → Step outputs gs (add_group clock r gs).0
  users : (r : UsersRequest) {gs : Groups} → Step outputs gs (add_users r gs).0
  alerts :
      (clock : Clock) (r : AlertsRequest) (reply : Bytes) {gs gs' : Groups}
      → CountsInt32 r.alerts
      → add_alerts clock r gs ≡ some (gs', reply)
      → Step outputs gs gs'
  report :
      (now : ℤ) (raw : Bytes) (a : AlertData) (sent : List Sent) {gs gs' : Groups}
      → process outputs now raw a gs ≡ some (gs', sent)
      → Step outputs gs gs'

pub data Reach (outputs : Dict Output) : Groups → Type 0 where
  start : Reach outputs init_group
  next : {gs gs' : Groups} → Reach outputs gs → Step outputs gs gs' → Reach outputs gs'

-- What `process` returns on a ready report.
pub record Succeeds (outputs : Dict Output) (now : ℤ) (raw : Bytes) (a : AlertData) (gs : Groups)
    : Type 0 where
  pub groups : Groups
  pub sent : List Sent
  pub returns : process outputs now raw a gs ≡ some (groups, sent)
  pub well_formed : IsWellFormed groups

module _ (outputs : Dict Output) (now : ℤ) (raw : Bytes) (a : AlertData) (gs : Groups)
    (all : IsWellFormed gs) (r : IsReady outputs gs a) where
  -- The level that the report is about, and the counter there.
  slot_of : (c : Counter) × Slot r.alert a.level c × InRange c
  slot_of =
      let both = all a.group_id r.group r.found a.id r.alert r.found_alert in
      elim r.level [
        | inl e ↦ (both.warn, rw e both.warn_slot, both.warn_range)
        | inr e ↦ (both.crit, rw e both.crit_slot, both.crit_range)
      ]

  held : Held gs a r.group.users slot_of.0
  held = record {
    group = r.group;
    found = r.found;
    users_are = refl;
    alert = r.alert;
    found_alert = r.found_alert;
    slot = slot_of.1;
  }

  old : IsLevelled r.alert
  old = all a.group_id r.group r.found a.id r.alert r.found_alert

  -- The counter of the report's level may have moved; the other level keeps its counter.
  levelled :
      {c : Counter} (b : Alert)
      → Slot b a.level c
      → InRange c
      → Wrote r.alert b a.level
      → IsLevelled b
  levelled {c} b s range w = elim r.level [
    | inl e ↦ record {
      warn = c;
      crit = old.crit;
      warn_slot = rw e at s;
      crit_slot = w.others (pos 1) old.crit (λ x. cc (x ∙ e)) old.crit_slot;
      warn_range = range;
      crit_range = old.crit_range;
    }
    | inr e ↦ record {
      warn = old.warn;
      crit = c;
      warn_slot = w.others (pos 0) old.warn (λ x. cc (x ∙ e)) old.warn_slot;
      crit_slot = rw e at s;
      warn_range = old.warn_range;
      crit_range = range;
    }
  ]

  process-Succeeds : Succeeds outputs now raw a gs
  unfolding held
  process-Succeeds =
      let (c, slot, range) = slot_of in
      let (o, known) = r.output c.output slot.output in
      let p = process-observe outputs now raw a gs r.group.users c o held range known in
      record {
        groups = p.groups;
        sent = _;
        returns = p.returns;
        well_formed = subst IsWellFormed (sym p.stored) (
            IsWellFormed-insert a.group_id _ gs all (
              AllLevelled-insert a.id p.held.alert r.group.alerts (all a.group_id r.group r.found)
                (levelled p.held.alert p.held.slot (observe-InRange c now range) p.wrote)));
      }

init_group-IsWellFormed : IsWellFormed init_group
unfolding init_group lookup
init_group-IsWellFormed gid g h = cc

Step-IsWellFormed :
    {outputs : Dict Output} {gs gs' : Groups}
    → Step outputs gs gs'
    → IsWellFormed gs
    → IsWellFormed gs'
Step-IsWellFormed (group clock r {gs} c) all = add_group-IsWellFormed clock r gs c all
Step-IsWellFormed (users r {gs}) all = add_users-IsWellFormed r gs all
Step-IsWellFormed (alerts clock r reply {gs} {gs'} c e) all =
    add_alerts-IsWellFormed clock r gs gs' reply c all e
Step-IsWellFormed {outputs} (report now raw a sent {gs} {gs'} e) all =
    process-IsWellFormed outputs now raw a gs all e

-- In every state reached from the empty one by requests, whose counts are int32, and by reports
-- that are handled without a panic, whatever they name and whatever is configured: both levels of
-- each stored alert hold a counter that cannot wrap.
pub Reach-IsWellFormed : {outputs : Dict Output} {gs : Groups} → Reach outputs gs → IsWellFormed gs
Reach-IsWellFormed start = init_group-IsWellFormed
Reach-IsWellFormed (next r s) = Step-IsWellFormed s (Reach-IsWellFormed r)

-- In every state reached from the empty one by requests, whose counts are int32, and by reports
-- that are handled without a panic, a report of a stored alert, at level 0 or 1 with its output
-- configured, is handled without a panic, and the state stays well formed.
pub Reach-Succeeds :
    (outputs : Dict Output) (now : ℤ) (raw : Bytes) (a : AlertData) (gs : Groups)
    → Reach outputs gs
    → IsReady outputs gs a
    → Succeeds outputs now raw a gs
Reach-Succeeds outputs now raw a gs r ready =
    process-Succeeds outputs now raw a gs (Reach-IsWellFormed r) ready
