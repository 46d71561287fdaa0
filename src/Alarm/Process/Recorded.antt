-- ===== src/Alarm/Process/Recorded.antt =====
-- What `process` writes, whatever the report, its level and the outputs are: the counters of one
-- level of one alert, if it returns.
use vgo.Prelude.{
  ◌≡◌, ◌≢◌, inl, inr, refl, ap, sym, subst, ◌∙◌, Bytes, Bool, true, false, List, length, set,
  get_elem?-set_ne, Option, none, some, ltb, if◌then◌else◌, if_some_inj, >>=-eq-some, Bool-cases,
}
use vgo.Prelude.Dict.{Dict, lookup, insert}
use vgo.Prelude.Int.{ℤ, pos, negsuc, ◌+ℤ◌, leb_ℤ}
use vgo.Prelude.Words.{wrap32}
use vgo.Alarm.State.{Alert, User, Group, Groups, Output, Sent, AlertData, at, set_at}
use vgo.Alarm.Counter.{Counter}
use vgo.Alarm.Process.{
  notify, is_stale, record_count, silently, fire, count_report, handle, process,
}
use vgo.Alarm.Process.Refine.{Slot}

-- A write that succeeds moves nothing else.
set_at-others {ℓ} :
    {A : Type ℓ} (xs : List A) (level : ℤ) (v : A) {ys : List A}
    → set_at xs level v ≡ some ys
    → (k : ℤ) → k ≢ level
    → at ys k ≡ at xs k
unfolding at set_at
set_at-others xs (negsuc n) v h k ne = cc
set_at-others xs (pos n) v h (negsuc k) ne = refl
set_at-others xs (pos n) v {ys} h (pos k) ne = elim (Bool-cases (ltb n (length xs))) [
  | inl lt ↦
      let same : set xs n v ≡ ys = if_some_inj true (rw lt at h) in
      rw (← same) (get_elem?-set_ne xs v (λ e. ne (ap pos (sym e))))
  | inr out ↦ cc (rw out at h)
]

pub some-inj {ℓ} : {A : Type ℓ} {x y : A} → some x ≡ some y → x ≡ y
some-inj e = cc

-- The other levels keep their counters.
pub record_count-others :
    (a : Alert) (level n now : ℤ) {a' : Alert}
    → record_count a level n now ≡ some a'
    → (k : ℤ) (c : Counter) → k ≢ level
    → Slot a k c
    → Slot a' k c
unfolding record_count
record_count-others a level n now h k c ne s =
    let (ns, e, h') = >>=-eq-some (set_at a.now_count level n) _ h in
    let (ts, e', h'') = >>=-eq-some (set_at a.last_time level now) _ h' in
    subst (λ x. Slot x k c) (some-inj h'')
      (record {
        limit = s.limit;
        duration = s.duration;
        output = s.output;
        now_count = set_at-others a.now_count level n e k ne ∙ s.now_count;
        last = set_at-others a.last_time level now e' k ne ∙ s.last;
      })

-- The count that a report leaves at its level.
pub data NewCount (a : Alert) (level : ℤ) : ℤ → Type 0 where
  restarted : NewCount a level (pos 1)
  cleared : NewCount a level (pos 0)
  raised :
      (m limit : ℤ)
      → at a.now_count level ≡ some m
      → at a.count level ≡ some limit
      → leb_ℤ limit (wrap32 (m +ℤ pos 1)) ≡ false
      → NewCount a level (wrap32 (m +ℤ pos 1))

pub record Recorded (a : Alert) (level now : ℤ) (a' : Alert) : Type 0 where
  pub n : ℤ
  pub new_count : NewCount a level n
  pub written : record_count a level n now ≡ some a'

silently-alert :
    (m : Option Alert) {a' : Alert} {sent : List Sent} → silently m ≡ some (a', sent) → m ≡ some a'
silently-alert none h = cc
silently-alert (some a) h = cc

pair_fst {ℓ} : {A B : Type ℓ} (p q : A × B) → some p ≡ some q → some p.0 ≡ some q.0
pair_fst p q e = cc

module _ (outputs : Dict Output) (raw : Bytes) (users : Dict User) (level now : ℤ) (a : Alert) where
  fire-Recorded :
      {a' : Alert} {sent : List Sent}
      → fire outputs raw users level now a ≡ some (a', sent)
      → Recorded a level now a'
  unfolding fire
  fire-Recorded h =
      let (name, _, h') = >>=-eq-some (at a.alarm_output level) _ h in
      let (s, _, h'') = >>=-eq-some (notify (lookup name outputs) name raw users) _ h' in
      let (b, e, last) = >>=-eq-some (record_count a level (pos 0) now) _ h'' in
      record { n = pos 0; new_count = cleared; written = e ∙ pair_fst _ _ last }

  count_report-Recorded :
      {a' : Alert} {sent : List Sent}
      → count_report outputs raw users level now a ≡ some (a', sent)
      → Recorded a level now a'
  unfolding count_report
  count_report-Recorded h =
      let (m, e, h') = >>=-eq-some (at a.now_count level) _ h in
      let (limit, e', h'') = >>=-eq-some (at a.count level) _ h' in
      elim (Bool-cases (leb_ℤ limit (wrap32 (m +ℤ pos 1)))) [
        | inl full ↦ fire-Recorded (rw full at h'')
        | inr room ↦ record {
          n = wrap32 (m +ℤ pos 1);
          new_count = raised m limit e e' room;
          written = silently-alert _ (rw room at h'');
        }
      ]

  pub handle-Recorded :
      {a' : Alert} {sent : List Sent}
      → handle outputs raw users level now a ≡ some (a', sent)
      → Recorded a level now a'
  unfolding handle
  handle-Recorded h =
      let (stale, _, h') = >>=-eq-some (is_stale a level now) _ h in of_stale stale h'
    where
      of_stale :
          (stale : Bool) {a' : Alert} {sent : List Sent}
          → (if stale
              then silently (record_count a level (pos 1) now)
              else count_report outputs raw users level now a)
            ≡ some (a', sent)
          → Recorded a level now a'
      of_stale true h = record { n = pos 1; new_count = restarted; written = silently-alert _ h }
      of_stale false h = count_report-Recorded h

-- A report that returns stores what `handle` leaves of the alert that it names.
pub process-handled :
    (outputs : Dict Output) (now : ℤ) (raw : Bytes) (r : AlertData) (gs : Groups) {gs' : Groups}
    {sent : List Sent}
    → process outputs now raw r gs ≡ some (gs', sent)
    → (g : Group) × (b b' : Alert) × (s : List Sent) × (lookup r.group_id gs ≡ some g)
      × (lookup r.id g.alerts ≡ some b)
      × (handle outputs raw g.users r.level now b ≡ some (b', s))
      × (insert r.group_id (record g { alerts = insert r.id b' g.alerts }) gs ≡ gs')
unfolding process
process-handled outputs now raw r gs h =
    let (g, e, h') = >>=-eq-some (lookup r.group_id gs) _ h in
    let (b, e', h'') = >>=-eq-some (lookup r.id g.alerts) _ h' in
    let ((b', s), e'', last) = >>=-eq-some (handle outputs raw g.users r.level now b) _ h'' in
    (g, b, b', s, e, e', e'', ap (λ p. p.0) (some-inj last))
