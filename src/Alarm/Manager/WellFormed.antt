-- ===== src/Alarm/Manager/WellFormed.antt =====
-- The state that the handlers of the alarm service can reach from `initGroup`.
use vgo.Prelude.{
  ◌≡◌, ◌⊎◌, inl, inr, refl, sym, subst, Bytes, [], ◌∷◌, Option, none, some, arith, Option-cases,
}
use vgo.Prelude.Dict.{Dict, lookup, insert, lookup-insert, upsert_all}
use vgo.Prelude.Int.{pos, ◌≤ℤ◌}
use vgo.Alarm.State.{Alert, Group, Groups, at}
use vgo.Alarm.Counter.{Counter}
use vgo.Alarm.Process.Refine.{Slot, InRange}
use vgo.Alarm.Manager.{
  AlertRequest, GroupRequest, UsersRequest, AlertsRequest, Clock, new_alert, put_alert, add_group,
  add_users, add_alerts,
}
use vgo.Alarm.Manager.Held.{new_alert-Slot, merged, logged-some, add_alerts-logged}

-- Both levels of the alert hold a counter that cannot wrap.
pub record IsLevelled (a : Alert) : Type 0 where
  pub warn : Counter
  pub crit : Counter
  pub warn_slot : Slot a (pos 0) warn
  pub crit_slot : Slot a (pos 1) crit
  pub warn_range : InRange warn
  pub crit_range : InRange crit

abbrev pub AllLevelled : Dict Alert → Type 0
AllLevelled m = (id : Bytes) (a : Alert) → lookup id m ≡ some a → IsLevelled a

abbrev pub IsWellFormed : Groups → Type 0
IsWellFormed gs =
    (gid : Bytes) (g : Group)
    → lookup gid gs ≡ some g
    → (id : Bytes) (a : Alert) → lookup id g.alerts ≡ some a
    → IsLevelled a

-- The protobuf counts are int32.
abbrev pub CountsInt32 : Dict AlertRequest → Type 0
CountsInt32 [] = Unit {0}
CountsInt32 ((k, q) ∷ m) =
    (q.warn_count ≤ℤ pos 2147483647) × (q.crit_count ≤ℤ pos 2147483647) × CountsInt32 m

lookup-insert_cases {ℓ} :
    {V : Type ℓ} (k j : Bytes) (v x : V) (m : Dict V)
    → lookup j (insert k v m) ≡ some x
    → (v ≡ x) ⊎ (lookup j m ≡ some x)
lookup-insert_cases k j v x m h = ground (arith, lookup-insert k j v m)

pub AllLevelled-insert :
    (k : Bytes) (a : Alert) (m : Dict Alert)
    → AllLevelled m
    → IsLevelled a
    → AllLevelled (insert k a m)
AllLevelled-insert k a m all new id b h = elim (lookup-insert_cases k id a b m h) [
  | inl e ↦ subst IsLevelled e new
  | inr old ↦ all id b old
]

pub IsWellFormed-insert :
    (k : Bytes) (g : Group) (gs : Groups)
    → IsWellFormed gs
    → AllLevelled g.alerts
    → IsWellFormed (insert k g gs)
IsWellFormed-insert k g gs all new gid g' h = elim (lookup-insert_cases k gid g g' gs h) [
  | inl e ↦ subst (λ x. AllLevelled x.alerts) e new
  | inr old ↦ all gid g' old
]

new_alert-IsLevelled :
    (clock : Clock) (k : Bytes) (q : AlertRequest)
    → q.warn_count ≤ℤ pos 2147483647
    → q.crit_count ≤ℤ pos 2147483647
    → IsLevelled (new_alert clock k q)
new_alert-IsLevelled clock k q w c = record {
  warn = _;
  crit = _;
  warn_slot = (new_alert-Slot clock k q).0;
  crit_slot = (new_alert-Slot clock k q).1;
  warn_range = omega arith;
  crit_range = omega arith;
}

put_alert-IsLevelled :
    (clock : Clock) (k : Bytes) (q : AlertRequest) (old : Option Alert)
    → q.warn_count ≤ℤ pos 2147483647
    → q.crit_count ≤ℤ pos 2147483647
    → ((a : Alert) → old ≡ some a → IsLevelled a)
    → IsLevelled (put_alert clock k q old)
unfolding put_alert at
put_alert-IsLevelled clock k q none w c h = new_alert-IsLevelled clock k q w c
put_alert-IsLevelled clock k q (some a) w c h =
    let was = h a refl in
    record {
      warn = record was.warn { limit = q.warn_count; output = q.warn_alarm };
      crit = record was.crit { limit = q.crit_count; output = q.crit_alarm };
      warn_slot = record {
        limit = refl;
        duration = was.warn_slot.duration;
        output = refl;
        now_count = was.warn_slot.now_count;
        last = was.warn_slot.last;
      };
      crit_slot = record {
        limit = refl;
        duration = was.crit_slot.duration;
        output = refl;
        now_count = was.crit_slot.now_count;
        last = was.crit_slot.last;
      };
      warn_range = omega (arith, was.warn_range);
      crit_range = omega (arith, was.crit_range);
    }

some_group :
    {gs gs' : Groups} {b b' : Bytes}
    → ◌≡◌ {A = Option (Groups × Bytes)} (some (gs, b)) (some (gs', b'))
    → gs ≡ gs'
some_group h = cc

module _ (clock : Clock) where
  put_alerts-AllLevelled :
      (ws : Dict AlertRequest) (m : Dict Alert)
      → CountsInt32 ws
      → AllLevelled m
      → AllLevelled (upsert_all (put_alert clock) ws m)
  unfolding upsert_all
  put_alerts-AllLevelled [] m c all = all
  put_alerts-AllLevelled ((k, q) ∷ ws) m (w, x, rest) all =
      put_alerts-AllLevelled ws _ rest
        (AllLevelled-insert k _ m all (put_alert-IsLevelled clock k q (lookup k m) w x (all k)))

  new_alerts-AllLevelled :
      (ws : Dict AlertRequest) (m : Dict Alert)
      → CountsInt32 ws
      → AllLevelled m
      → AllLevelled (upsert_all (λ k q (old : Option Alert). new_alert clock k q) ws m)
  unfolding upsert_all
  new_alerts-AllLevelled [] m c all = all
  new_alerts-AllLevelled ((k, q) ∷ ws) m (w, x, rest) all =
      new_alerts-AllLevelled ws _ rest
        (AllLevelled-insert k _ m all (new_alert-IsLevelled clock k q w x))

  pub add_group-IsWellFormed :
      (r : GroupRequest) (gs : Groups)
      → CountsInt32 r.alerts
      → IsWellFormed gs
      → IsWellFormed (add_group clock r gs).0
  unfolding add_group lookup
  add_group-IsWellFormed r gs c all =
      IsWellFormed-insert r.id _ gs all (new_alerts-AllLevelled r.alerts [] c (λ id a h. cc))

  pub add_alerts-IsWellFormed :
      (r : AlertsRequest) (gs gs' : Groups) (reply : Bytes)
      → CountsInt32 r.alerts
      → IsWellFormed gs
      → add_alerts clock r gs ≡ some (gs', reply)
      → IsWellFormed gs'
  unfolding add_alerts
  add_alerts-IsWellFormed r gs gs' reply c all h = elim (Option-cases (lookup r.group_id gs)) [
    | inl e ↦ subst IsWellFormed (some_group (rw (e, add_alerts) at h)) all
    | inr (g, e) ↦
        let is = logged-some _ (rw (add_alerts-logged clock r gs g e) at h) in
        subst IsWellFormed (sym is) (
          IsWellFormed-insert r.group_id (merged clock r g) gs all
            (put_alerts-AllLevelled r.alerts g.alerts c (all r.group_id g e)))
  ]

pub add_users-IsWellFormed :
    (r : UsersRequest) (gs : Groups) → IsWellFormed gs → IsWellFormed (add_users r gs).0
unfolding add_users
add_users-IsWellFormed r gs all = elim (Option-cases (lookup r.group_id gs)) [
  | inl e ↦ rw (e, add_users) all
  | inr (g, e) ↦ rw (e, add_users) (IsWellFormed-insert r.group_id _ gs all (all r.group_id g e))
]
