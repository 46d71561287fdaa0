-- ===== src/Stream/Ring/Queue.antt =====
-- The ring of stream/service/disruptor.go and writer.go as a queue of metrics.
use vgo.Prelude.{
  ℕ, zero, suc, ◌+◌, ◌-◌, ◌%◌, ◌^◌, ◌≤◌, ◌<◌, Bytes, ◌≡◌, ◌≢◌, refl, sym, ap, map, subst, ◌∙◌,
  arith, List, [], ◌∷◌, ◌++◌, some, get_elem?, set, length, replicate, length-set,
  get_elem?-set_self, get_elem?-set_ne, length-append, append_assoc, append-nil, lt→ltb,
}
use native.Mathlib.Nat.{mod-lt}
use vgo.Stream.Ring.{
  Controller, Receiver, alarmer, chain, metric_output, slot, put, put_all, publish, compute,
  consume_all, consume,
}
use vgo.Stream.Ring.Mask.{bit_and-mask, mod_inj, pow_pos}

-- Who is to get each metric, in the order of the calls.
abbrev pub receivers : (chains metric_outputs : List Bytes) → List Receiver
receivers chains metric_outputs = alarmer ∷ map chain chains ++ map metric_output metric_outputs

module _ {ℓ} {Metrics : Type ℓ} where
  -- The ring has a power of two of slots, and the mask is one less.
  pub record IsSized (c : Controller Metrics) : Type 0 where
    pub bits : ℕ
    pub bits_fit : bits ≤ 63
    pub ring_size : length c.ring ≡ 2 ^ bits
    pub mask_is : c.buffer_mask ≡ 2 ^ bits - 1

  -- The slots from this sequence on hold these metrics.
  abbrev pub Holds : Controller Metrics → ℕ → List Metrics → Type ℓ
  Holds c from [] = Unit
  Holds c from (m ∷ ms) = (get_elem? c.ring (slot c from) ≡ some m) × Holds c (suc from) ms

  -- The metrics from this sequence on wait for the consumer.
  pub record Queued (c : Controller Metrics) (from : ℕ) (ms : List Metrics) : Type ℓ where
    pub sized : IsSized c
    pub fits : length ms ≤ length c.ring
    pub holds : Holds c from ms

  slot-mod : (c : Controller Metrics) (x : ℕ) → IsSized c → slot c x ≡ x % length c.ring
  unfolding slot
  slot-mod c x s = rw (s.ring_size, s.mask_is) (bit_and-mask 63 s.bits x s.bits_fit)

  slot-lt : (c : Controller Metrics) (x : ℕ) → IsSized c → slot c x < length c.ring
  slot-lt c x s =
      let positive : 0 < length c.ring = subst (λ n. 0 < n) (sym s.ring_size) (pow_pos s.bits) in
      subst (λ y. y < length c.ring) (sym (slot-mod c x s)) (mod-lt x positive)

  -- A write to a sequence behind those that wait, less than the ring's size from the first.
  written : Controller Metrics → ℕ → Metrics → Controller Metrics
  written c j m = record c { ring = set c.ring (slot c j) m }

  Holds-written :
      (c : Controller Metrics) (from j : ℕ) (m : Metrics) (ms : List Metrics)
      → IsSized c
      → from + length ms ≤ j
      → j < from + length c.ring
      → Holds c from ms
      → Holds (written c j m) from ms
  unfolding written slot
  Holds-written c from j m [] s le lt h = tt
  Holds-written c from j m (n ∷ ms) s le lt h = (
    get_elem?-set_ne c.ring m apart ∙ h.0,
    Holds-written c (suc from) j m ms s (omega arith) (omega arith) h.1,
  )
    where
      apart : slot c j ≢ slot c from
      apart e =
          let same =
            mod_inj (length c.ring) from j (omega arith) lt
              (sym (slot-mod c from s) ∙ sym e ∙ slot-mod c j s) in
          omega arith

  Holds-snoc :
      (c : Controller Metrics) (from : ℕ) (m : Metrics) (ms : List Metrics)
      → Holds c from ms
      → get_elem? c.ring (slot c (from + length ms)) ≡ some m
      → Holds c from (ms ++ m ∷ [])
  Holds-snoc c from m [] h e =
      (subst (λ x. get_elem? c.ring (slot c x) ≡ some m) (omega arith) e, tt)
  Holds-snoc c from m (n ∷ ms) h e = (
    h.0,
    Holds-snoc c (suc from) m ms h.1
        (subst (λ x. get_elem? c.ring (slot c x) ≡ some m) (omega arith) e),
  )

  put-eq :
      (c : Controller Metrics) (j : ℕ) (m : Metrics) → IsSized c → put c j m ≡ some (written c j m)
  unfolding put written
  put-eq c j m s = rw (lt→ltb _ _ (slot-lt c j s)) refl

  Queued-written :
      (c : Controller Metrics) (from : ℕ) (m : Metrics) (ms : List Metrics)
      → Queued c from ms
      → length ms < length c.ring
      → Queued (written c (from + length ms) m) from (ms ++ m ∷ [])
  unfolding written slot
  Queued-written c from m ms q room =
      let j = from + length ms in
      let same : length (written c j m).ring ≡ length c.ring = length-set c.ring (slot c j) m in
      record {
        sized = record {
          bits = q.sized.bits;
          bits_fit = q.sized.bits_fit;
          ring_size = same ∙ q.sized.ring_size;
          mask_is = q.sized.mask_is;
        };
        fits = (let grown = length-append ms (m ∷ []) in omega arith);
        holds =
            Holds-snoc (written c j m) from m ms
              (Holds-written c from j m ms q.sized (omega arith) (omega arith) q.holds)
              (get_elem?-set_self c.ring (slot c j) m (slot-lt c j q.sized));
      }

  -- What a run of writes leaves: the new metrics behind the old ones, and nothing else changed.
  pub record Extended (c d : Controller Metrics) (from : ℕ) (ms : List Metrics) : Type ℓ where
    pub queued : Queued d from ms
    pub same_size : length d.ring ≡ length c.ring
    pub same_reservations : d.reservations ≡ c.reservations

  put_all-Extended :
      (rounds : ℕ) (c : Controller Metrics) (from : ℕ) (m : Metrics) (ms : List Metrics)
      → Queued c from ms
      → length ms + rounds ≤ length c.ring
      → (d : Controller Metrics) × (put_all rounds c (from + length ms) m ≡ some d)
        × Extended c d from (ms ++ replicate rounds m)
  unfolding put_all written
  put_all-Extended zero c from m ms q room = (
    c,
    refl,
    record {
      queued = subst (Queued c from) (sym (append-nil ms)) q;
      same_size = refl;
      same_reservations = refl;
    },
  )
  put_all-Extended (suc rounds) c from m ms q room =
      let j = from + length ms in
      let grown = length-append ms (m ∷ []) in
      let same : length (written c j m).ring ≡ length c.ring = length-set c.ring (slot c j) m in
      let (d, e, x) =
        put_all-Extended rounds (written c j m) from m (ms ++ m ∷ [])
          (Queued-written c from m ms q (omega arith)) (omega arith) in
      let next : from + length (ms ++ m ∷ []) ≡ suc j = omega arith in
      (
        d,
        rw (put-eq c j m q.sized) (subst (λ k. put_all rounds (written c j m) k m ≡ some d) next e),
        record {
          queued = subst (Queued d from) (append_assoc ms (m ∷ []) (replicate rounds m)) x.queued;
          same_size = x.same_size ∙ same;
          same_reservations = x.same_reservations;
        },
      )

  -- On a ring whose size is a power of two, with its mask, Publish, with the sequence that Reserve
  -- returns when the ring has room for the reserved slots, does not panic: it puts the metric into
  -- each of these slots, behind the metrics that wait, which stay as they are, and it commits
  -- exactly these slots.
  pub publish-Extended :
      (c : Controller Metrics) (from sequence : ℕ) (m : Metrics) (ms : List Metrics)
      → Queued c from ms
      → length ms + c.reservations ≤ length c.ring
      → sequence + 1 ≡ from + length ms + c.reservations
      → (d : Controller Metrics) × (publish c sequence m ≡ some (d, from + length ms, sequence))
        × Extended c d from (ms ++ replicate c.reservations m)
  unfolding publish
  publish-Extended c from sequence m ms q room reserved =
      let (d, e, x) = put_all-Extended c.reservations c from m ms q room in
      let lower : sequence + 1 - c.reservations ≡ from + length ms = omega arith in
      let rounds : sequence + 1 - (from + length ms) ≡ c.reservations = omega arith in
      (d, rw (lower, rounds, e) refl, x)

  abbrev calls_after : Metrics → (chains metric_outputs : List Bytes) → List (Receiver × Metrics)
  calls_after m chains metric_outputs =
      map (λ c. (chain c, m)) chains ++ map (λ c. (metric_output c, m)) metric_outputs

  map-receivers :
      (m : Metrics) (chains metric_outputs : List Bytes)
      → calls_after m chains metric_outputs
        ≡ map (λ r. (r, m)) (map chain chains ++ map metric_output metric_outputs)
  map-receivers m [] [] = refl
  map-receivers m [] (o ∷ os) = ap (λ calls. (metric_output o, m) ∷ calls) (map-receivers m [] os)
  map-receivers m (c ∷ cs) os = ap (λ calls. (chain c, m) ∷ calls) (map-receivers m cs os)

  module _ (chains metric_outputs : List Bytes) where
    -- Each metric, in order, to each of the receivers.
    unfoldable pub computed : List Metrics → List (Receiver × Metrics)
    computed [] = []
    computed (m ∷ ms) = map (λ r. (r, m)) (receivers chains metric_outputs) ++ computed ms

    compute-eq :
        (m : Metrics)
        → compute chains metric_outputs m ≡ map (λ r. (r, m)) (receivers chains metric_outputs)
    unfolding compute
    compute-eq m = ap (λ calls. (alarmer, m) ∷ calls) (map-receivers m chains metric_outputs)

    consume_all-computed :
        (c : Controller Metrics) (from : ℕ) (ms rest : List Metrics)
        → Holds c from (ms ++ rest)
        → consume_all chains metric_outputs (length ms) c from ≡ some (computed ms)
    unfolding consume_all computed
    consume_all-computed c from [] rest h = refl
    consume_all-computed c from (m ∷ ms) rest h =
        rw (h.0, consume_all-computed c (suc from) ms rest h.1)
          (ap (λ calls. some (calls ++ computed ms)) (compute-eq m))

    Holds-drop :
        (c : Controller Metrics) (from : ℕ) (ms rest : List Metrics)
        → Holds c from (ms ++ rest)
        → Holds c (from + length ms) rest
    Holds-drop c from [] rest h = subst (λ x. Holds c x rest) (omega arith) h
    Holds-drop c from (m ∷ ms) rest h =
        subst (λ x. Holds c x rest) (omega arith) (Holds-drop c (suc from) ms rest h.1)

    -- On a ring whose size is a power of two, with its mask, Consume, called with the bounds of
    -- the first of the metrics that wait, does not panic: it passes each of them in order to the
    -- alarmer, to all chains and to all metric outputs, and the other metrics still wait.
    pub consume-Queued :
        (c : Controller Metrics) (from upper : ℕ) (ms rest : List Metrics)
        → Queued c from (ms ++ rest)
        → upper + 1 ≡ from + length ms
        → (consume chains metric_outputs c from upper ≡ some (computed ms))
          × Queued c (from + length ms) rest
    unfolding consume
    consume-Queued c from upper ms rest q bounds =
        let rounds : upper + 1 - from ≡ length ms = omega arith in
        let total = length-append ms rest in
        (
          rw rounds (consume_all-computed c from ms rest q.holds),
          record { sized = q.sized; fits = omega arith; holds = Holds-drop c from ms rest q.holds },
        )
