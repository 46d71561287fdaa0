-- ===== src/Alarm/Manager/Levels.antt =====
-- What a report that is handled without a panic does to the levels of the stored alerts.
use vgo.Prelude.{zero, suc, arith, false, ◌≢◌, ◌≡◌, ◌∙◌, sym, subst, Bytes, List, some}
use vgo.Prelude.Dict.{Dict}
use vgo.Prelude.Int.{ℤ, pos, negsuc, ◌+ℤ◌, leb_ℤ}
use vgo.Prelude.Words.{wrap32, wrap32_of_IsInt32}
use vgo.Alarm.Process.Recorded.{
  NewCount, restarted, cleared, raised, Recorded, some-inj, record_count-others, handle-Recorded,
  process-handled,
}
use vgo.Alarm.State.{Alert, Groups, Output, Sent, AlertData}
use vgo.Alarm.Counter.{Counter}
use vgo.Alarm.Process.{process}
use vgo.Alarm.Process.Refine.{Slot, InRange, record_count_lem}
use vgo.Alarm.Manager.WellFormed.{IsLevelled, IsWellFormed, IsWellFormed-insert, AllLevelled-insert}

raised-InRange :
    (c : Counter) (now : ℤ)
    → InRange c
    → leb_ℤ c.limit (wrap32 (c.now_count +ℤ pos 1)) ≡ false
    → InRange (record c { now_count = wrap32 (c.now_count +ℤ pos 1); last = now })
raised-InRange c now r room =
    let kept : wrap32 (c.now_count +ℤ pos 1) ≡ c.now_count +ℤ pos 1 =
      wrap32_of_IsInt32 _ (unfold ◌+ℤ◌ in ground (arith, r)) in
    rw kept (unfold ◌+ℤ◌ in ground (arith, r, (rw kept at room)))

other_level :
    (a a' : Alert) (level now : ℤ)
    → IsLevelled a
    → Recorded a level now a'
    → pos 0 ≢ level
    → pos 1 ≢ level
    → IsLevelled a'
other_level a a' level now h w zeroth first = record {
  warn = h.warn;
  crit = h.crit;
  warn_slot = record_count-others a level w.n now w.written (pos 0) h.warn zeroth h.warn_slot;
  crit_slot = record_count-others a level w.n now w.written (pos 1) h.crit first h.crit_slot;
  warn_range = h.warn_range;
  crit_range = h.crit_range;
}

new_count-InRange :
    (a : Alert) (level n now : ℤ) (c : Counter)
    → Slot a level c
    → InRange c
    → NewCount a level n
    → InRange (record c { now_count = n; last = now })
new_count-InRange a level _ now c s r restarted = omega (arith, r)
new_count-InRange a level _ now c s r cleared = omega (arith, r)
new_count-InRange a level _ now c s r (raised m limit e e' room) =
    let count : c.now_count ≡ m = some-inj (sym s.now_count ∙ e) in
    let most : c.limit ≡ limit = some-inj (sym s.limit ∙ e') in
    subst (λ x. InRange (record c { now_count = wrap32 (x +ℤ pos 1); last = now })) count
      (raised-InRange c now r (rw (← count, ← most) at room))

-- The counter of the level that is written moves to a count in range.
level-InRange :
    (a a' : Alert) (level now : ℤ) (c : Counter)
    → Slot a level c
    → InRange c
    → Recorded a level now a'
    → (d : Counter) × Slot a' level d × InRange d
level-InRange a a' level now c s r w =
    let (b, e, slot, wrote) = record_count_lem a level c w.n now s in
    (
      record c { now_count = w.n; last = now },
      subst (λ x. Slot x level (record c { now_count = w.n; last = now }))
          (some-inj (sym e ∙ w.written)) slot,
      new_count-InRange a level w.n now c s r w.new_count,
    )

Recorded-IsLevelled :
    (a a' : Alert) (level now : ℤ) → IsLevelled a → Recorded a level now a' → IsLevelled a'
Recorded-IsLevelled a a' (pos zero) now h w =
    let (d, slot, range) = level-InRange a a' (pos 0) now h.warn h.warn_slot h.warn_range w in
    record {
      warn = d;
      crit = h.crit;
      warn_slot = slot;
      crit_slot =
          record_count-others a (pos 0) w.n now w.written (pos 1) h.crit (λ e. cc) h.crit_slot;
      warn_range = range;
      crit_range = h.crit_range;
    }
Recorded-IsLevelled a a' (pos (suc zero)) now h w =
    let (d, slot, range) = level-InRange a a' (pos 1) now h.crit h.crit_slot h.crit_range w in
    record {
      warn = h.warn;
      crit = d;
      warn_slot =
          record_count-others a (pos 1) w.n now w.written (pos 0) h.warn (λ e. cc) h.warn_slot;
      crit_slot = slot;
      warn_range = h.warn_range;
      crit_range = range;
    }
Recorded-IsLevelled a a' (pos (suc (suc k))) now h w =
    other_level a a' (pos (suc (suc k))) now h w (λ e. cc) (λ e. cc)
Recorded-IsLevelled a a' (negsuc k) now h w =
    other_level a a' (negsuc k) now h w (λ e. cc) (λ e. cc)

-- Whatever a report is about, the levels of the stored alerts stay in range if it returns.
pub process-IsWellFormed :
    (outputs : Dict Output) (now : ℤ) (raw : Bytes) (a : AlertData) (gs : Groups) {gs' : Groups}
    {sent : List Sent}
    → IsWellFormed gs
    → process outputs now raw a gs ≡ some (gs', sent)
    → IsWellFormed gs'
process-IsWellFormed outputs now raw a gs all e =
    let (g, b, b', s, found, found_alert, handled, stored) =
      process-handled outputs now raw a gs e in
    let recorded = handle-Recorded outputs raw g.users a.level now b handled in
    let new =
      Recorded-IsLevelled b b' a.level now (all a.group_id g found a.id b found_alert) recorded in
    subst IsWellFormed stored (
      IsWellFormed-insert a.group_id _ gs all
        (AllLevelled-insert a.id b' g.alerts (all a.group_id g found) new))
