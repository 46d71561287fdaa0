-- ===== src/Alarm/Process/Refine.antt =====
-- `handle` does to the slot of its level what `observe` does to a Counter, and touches no other.
use vgo.Prelude.{
  ℕ, zero, suc, ◌<◌, ◌≡◌, ◌≢◌, refl, ap, ◌∙◌, Bytes, Bool, true, false, List, [], ◌∷◌, map, length,
  set, get_elem?, get_elem?-set_self, get_elem?-set_ne, Option, some, arith, if◌then◌else◌, lt→ltb,
  Bool-cases, sym, inl, inr,
}
use vgo.Prelude.Dict.{Dict, lookup}
use vgo.Prelude.Int.{ℤ, pos, negsuc, ◌+ℤ◌, ◌≤ℤ◌, ltb_ℤ, leb_ℤ}
use vgo.Prelude.Words.{wrap32, wrap32_of_IsInt32}
use vgo.Alarm.Counter.{Counter, restart, advance, observe}
use vgo.Alarm.State.{Alert, User, Output, Sent, write, at, set_at}
use vgo.Alarm.Process.{time_sub, info, notify, is_stale, record_count, fire, count_report, handle}

-- The slices of the alert hold this counter at the level.
pub record Slot (a : Alert) (level : ℤ) (c : Counter) : Type 0 where
  pub limit : at a.count level ≡ some c.limit
  pub duration : at a.duration level ≡ some c.duration
  pub output : at a.alarm_output level ≡ some c.output
  pub now_count : at a.now_count level ≡ some c.now_count
  pub last : at a.last_time level ≡ some c.last

-- The counts that the service can reach: `NowCount[level] + 1` does not wrap.
pub record InRange (c : Counter) : Type 0 where
  pub count_low : pos 0 ≤ℤ c.now_count
  pub count_high : c.now_count ≤ℤ pos 2147483646
  pub limit_high : c.limit ≤ℤ pos 2147483647

-- What `fire` sends: one alarm for each user, to the output of the level.
abbrev pub alarms : Output → Bytes → Bytes → Dict User → List Sent
alarms o name raw users = map (λ p. write o (record { content = raw; user = info p.1 name })) users

get_elem?-lt {ℓ} :
    {A : Type ℓ} (xs : List A) (n : ℕ) {x : A} → get_elem? xs n ≡ some x → n < length xs
get_elem?-lt [] n h = cc
get_elem?-lt (x ∷ xs) zero h = omega arith
get_elem?-lt (x ∷ xs) (suc n) h = omega (arith, get_elem?-lt xs n h)

-- A write at an index that can be read succeeds, and moves nothing else.
set_at_lem {ℓ} :
    {A : Type ℓ} (xs : List A) (level : ℤ) {x : A} (v : A)
    → at xs level ≡ some x
    → (ys : List A) × (set_at xs level v ≡ some ys)
      × (at ys level ≡ some v)
      × ((k : ℤ) → k ≢ level → at ys k ≡ at xs k)
unfolding at set_at
set_at_lem xs (negsuc n) v h = cc
set_at_lem xs (pos n) v h =
    let lt = get_elem?-lt xs n h in
    (
      set xs n v,
      rw (lt→ltb _ _ lt),
      get_elem?-set_self xs n v lt,
      elim [
        | negsuc k ↦ λ ne. refl
        | pos k ↦ λ ne. get_elem?-set_ne xs v (λ e. ne (ap pos (sym e)))
      ],
    )

-- The rest of the alert after the counters of one level were written.
pub record Wrote (a a' : Alert) (level : ℤ) : Type 0 where
  pub type : a'.type ≡ a.type
  pub value : a'.value ≡ a.value
  pub others : (k : ℤ) (c : Counter) → k ≢ level → Slot a k c → Slot a' k c

pub record_count_lem :
    (a : Alert) (level : ℤ) (c : Counter) (n now : ℤ)
    → Slot a level c
    → (a' : Alert) × (record_count a level n now ≡ some a')
      × Slot a' level (record c { now_count = n; last = now })
      × Wrote a a' level
unfolding record_count
record_count_lem a level c n now s =
    let (ns, e, here, there) = set_at_lem a.now_count level n s.now_count in
    let (ts, e', here', there') = set_at_lem a.last_time level now s.last in
    (
      record a { now_count = ns; last_time = ts },
      rw (e, e'),
      record {
        limit = s.limit;
        duration = s.duration;
        output = s.output;
        now_count = here;
        last = here';
      },
      record {
        type = refl;
        value = refl;
        others = λ k d ne t. record {
          limit = t.limit;
          duration = t.duration;
          output = t.output;
          now_count = there k ne ∙ t.now_count;
          last = there' k ne ∙ t.last;
        };
      },
    )

pub notify-some :
    (o : Output) (name raw : Bytes) (users : Dict User)
    → notify (some o) name raw users ≡ some (alarms o name raw users)
unfolding notify
notify-some o name raw [] = refl
notify-some o name raw ((k, u) ∷ users) = rw (notify-some o name raw users)

-- What the handler returns on a counter: the counter's next state, and its alarms.
pub record Handled (a : Alert) (level : ℤ) (users : Dict User) (raw : Bytes) (o : Output)
    (r : Counter × Bool) (out : Option (Alert × List Sent)) : Type 0 where
  pub alert : Alert
  pub returns : out ≡ some (alert, if r.1 then alarms o r.0.output raw users else [])
  pub slot : Slot alert level r.0
  pub wrote : Wrote a alert level

module _ (raw : Bytes) (users : Dict User) (level now : ℤ) (a : Alert) (c : Counter) (o : Output)
    (outputs : Dict Output) (s : Slot a level c) where
  is_stale_lem : is_stale a level now ≡ some (ltb_ℤ c.duration (time_sub now c.last))
  unfolding is_stale
  is_stale_lem = rw (s.last, s.duration)

  handle_stale :
      ltb_ℤ c.duration (time_sub now c.last) ≡ true
      → Handled a level users raw o (restart c now) (handle outputs raw users level now a)
  unfolding handle
  handle_stale stale =
      let (a', e, s', w) = record_count_lem a level c (pos 1) now s in
      record { alert = a'; returns = rw (is_stale_lem, stale, e); slot = s'; wrote = w }

  module _ (r : InRange c) where
    no_wrap : wrap32 (c.now_count +ℤ pos 1) ≡ c.now_count +ℤ pos 1
    no_wrap = wrap32_of_IsInt32 _ (unfold ◌+ℤ◌ in ground (arith, r))

    count_report_fires :
        lookup c.output outputs ≡ some o
        → leb_ℤ c.limit (c.now_count +ℤ pos 1) ≡ true
        → Handled a level users raw o (advance c now) (count_report outputs raw users level now a)
    unfolding count_report fire
    count_report_fires known full =
        let (a', e, s', w) = record_count_lem a level c (pos 0) now s in
        rw full (record {
          alert = a';
          returns = rw (s.now_count, s.limit, no_wrap, full, s.output, known, notify-some, e);
          slot = s';
          wrote = w;
        })

    count_report_counts :
        leb_ℤ c.limit (c.now_count +ℤ pos 1) ≡ false
        → Handled a level users raw o (advance c now) (count_report outputs raw users level now a)
    unfolding count_report
    count_report_counts room =
        let (a', e, s', w) = record_count_lem a level c (c.now_count +ℤ pos 1) now s in
        rw room (record {
          alert = a';
          returns = rw (s.now_count, s.limit, no_wrap, room, e);
          slot = s';
          wrote = w;
        })

    handle_fresh :
        lookup c.output outputs ≡ some o
        → ltb_ℤ c.duration (time_sub now c.last) ≡ false
        → Handled a level users raw o (advance c now) (handle outputs raw users level now a)
    unfolding handle
    handle_fresh known fresh =
        rw (is_stale_lem, fresh)
          (elim (Bool-cases (leb_ℤ c.limit (c.now_count +ℤ pos 1))) [
            | inl full ↦ count_report_fires known full
            | inr room ↦ count_report_counts room
          ])

    pub handle-observe :
        lookup c.output outputs ≡ some o
        → Handled a level users raw o (observe c now) (handle outputs raw users level now a)
    unfolding observe
    handle-observe known = elim (Bool-cases (ltb_ℤ c.duration (time_sub now c.last))) [
      | inl stale ↦ rw stale (handle_stale stale)
      | inr fresh ↦ rw fresh (handle_fresh known fresh)
    ]
