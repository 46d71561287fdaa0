-- ===== src/Stream/Ring/Delivery.antt =====
-- Interleavings of Publish (stream/service/disruptor.go) and Consume (stream/service/writer.go).
use vgo.Prelude.{
  ℕ, zero, suc, ◌+◌, ◌-◌, ◌^◌, ◌≤◌, Bytes, ◌≡◌, refl, sym, ap, subst, ◌∙◌, arith, List, [], ◌∷◌,
  ◌++◌, map, some, length, replicate, take, drop, take-append-drop, length-take, length-append,
  append_assoc, append-nil,
}
use vgo.Stream.Ring.{Controller, Receiver, init, publish, consume}
use vgo.Stream.Ring.Queue.{Queued, publish-Extended, receivers, computed, consume-Queued}

module _ {ℓ} {Metrics : Type ℓ} where
  length-replicate : (n : ℕ) (m : Metrics) → length (replicate n m) ≡ n
  length-replicate zero m = refl
  length-replicate (suc n) m = ap suc (length-replicate n m)

  -- `Init` with a power of two and its mask.
  pub init-Queued :
      (zero_value : Metrics) (bits reservations : ℕ)
      → bits ≤ 63
      → Queued (init zero_value (2 ^ bits) (2 ^ bits - 1) reservations) 0 []
  unfolding init
  init-Queued zero_value bits reservations fit = record {
    sized = record {
      bits = bits;
      bits_fit = fit;
      ring_size = length-replicate (2 ^ bits) zero_value;
      mask_is = refl;
    };
    fits = omega arith;
    holds = tt;
  }

  -- Each metric as many times as slots are reserved for it.
  unfoldable pub repeated : ℕ → List Metrics → List Metrics
  repeated n [] = []
  repeated n (m ∷ ms) = replicate n m ++ repeated n ms

  repeated-snoc :
      (n : ℕ) (ms : List Metrics) (m : Metrics)
      → repeated n (ms ++ m ∷ []) ≡ repeated n ms ++ replicate n m
  unfolding repeated
  repeated-snoc n [] m = append-nil (replicate n m)
  repeated-snoc n (k ∷ ms) m =
      rw (repeated-snoc n ms m) (sym (append_assoc (replicate n k) (repeated n ms) (replicate n m)))

  module _ (chains metric_outputs : List Bytes) where
    computed-append :
        (xs ys : List Metrics)
        → computed chains metric_outputs (xs ++ ys)
          ≡ computed chains metric_outputs xs ++ computed chains metric_outputs ys
    unfolding computed
    computed-append [] ys = refl
    computed-append (x ∷ xs) ys = rw (computed-append xs ys) (
        sym (
          append_assoc (map (λ r. (r, x)) (receivers chains metric_outputs))
            (computed chains metric_outputs xs) (computed chains metric_outputs ys)))

    -- A run: the controller, the next sequence to consume, the next to reserve, the metrics that
    -- were published and the calls of Compute so far. Reserve waits until the ring has room, and
    -- the consumer group passes bounds that are committed.
    pub data Run (start : Controller Metrics)
        : Controller Metrics → ℕ → ℕ → List Metrics → List (Receiver × Metrics) → Type ℓ where
      started : Run start start 0 0 [] []
      published :
          {c d : Controller Metrics} {from to : ℕ} {ms : List Metrics}
          {calls : List (Receiver × Metrics)} (m : Metrics) (sequence lower : ℕ)
          → Run start c from to ms calls
          → to + c.reservations ≤ from + length c.ring
          → sequence + 1 ≡ to + c.reservations
          → publish c sequence m ≡ some (d, lower, sequence)
          → Run start d from (sequence + 1) (ms ++ m ∷ []) calls
      consumed :
          {c : Controller Metrics} {from to : ℕ} {ms : List Metrics}
          {calls more : List (Receiver × Metrics)} (upper : ℕ)
          → Run start c from to ms calls
          → from ≤ upper + 1
          → upper + 1 ≤ to
          → consume chains metric_outputs c from upper ≡ some more
          → Run start c (upper + 1) to ms (calls ++ more)

    -- What waits in the ring, after the calls already made, completes what was published.
    pub record Delivers (start c : Controller Metrics) (from to : ℕ) (ms : List Metrics)
        (calls : List (Receiver × Metrics)) : Type ℓ where
      pub waiting : List Metrics
      pub queued : Queued c from waiting
      pub all_waiting : from + length waiting ≡ to
      pub same_reservations : c.reservations ≡ start.reservations
      pub complete :
          calls ++ computed chains metric_outputs waiting
          ≡ computed chains metric_outputs (repeated start.reservations ms)

    Delivers-published :
        (start c d : Controller Metrics) (from to : ℕ) (ms : List Metrics)
        (calls : List (Receiver × Metrics)) (m : Metrics) (sequence lower : ℕ)
        → Delivers start c from to ms calls
        → to + c.reservations ≤ from + length c.ring
        → sequence + 1 ≡ to + c.reservations
        → publish c sequence m ≡ some (d, lower, sequence)
        → Delivers start d from (sequence + 1) (ms ++ m ∷ []) calls
    Delivers-published start c d from to ms calls m sequence lower h room reserved e =
        let place = h.all_waiting in
        let (x, e', extended) =
          publish-Extended c from sequence m h.waiting h.queued (omega arith) (omega arith) in
        let same : x ≡ d = cc in
        let new = replicate c.reservations m in
        let counted = length-append h.waiting new in
        let size = length-replicate c.reservations m in
        record {
          waiting = h.waiting ++ new;
          queued = subst (λ y. Queued y from (h.waiting ++ new)) same extended.queued;
          all_waiting = omega arith;
          same_reservations =
              ap (λ y. y.reservations) (sym same)
              ∙ extended.same_reservations
              ∙ h.same_reservations;
          complete =
              ap (λ y. calls ++ y) (computed-append h.waiting new)
              ∙ sym (
                  append_assoc calls (computed chains metric_outputs h.waiting)
                    (computed chains metric_outputs new))
              ∙ ap (λ y. y ++ computed chains metric_outputs new) h.complete
              ∙ ap
                  (λ n.
                    computed chains metric_outputs (repeated start.reservations ms)
                    ++ computed chains metric_outputs (replicate n m))
                  h.same_reservations
              ∙ sym (
                  computed-append (repeated start.reservations ms) (replicate start.reservations m))
              ∙ ap (computed chains metric_outputs) (sym (repeated-snoc start.reservations ms m));
        }

    Delivers-consumed :
        (start c : Controller Metrics) (from to : ℕ) (ms : List Metrics)
        (calls more : List (Receiver × Metrics)) (upper : ℕ)
        → Delivers start c from to ms calls
        → from ≤ upper + 1
        → upper + 1 ≤ to
        → consume chains metric_outputs c from upper ≡ some more
        → Delivers start c (upper + 1) to ms (calls ++ more)
    Delivers-consumed start c from to ms calls more upper h le bound e =
        let place = h.all_waiting in
        let n = upper + 1 - from in
        let front = take n h.waiting in
        let back = drop n h.waiting in
        let parts : front ++ back ≡ h.waiting = take-append-drop n h.waiting in
        let taken : length front ≡ n = omega (arith, length-take n h.waiting) in
        let total = length-append front back in
        let whole : length (front ++ back) ≡ length h.waiting = ap length parts in
        let (got, rest) =
          consume-Queued chains metric_outputs c from upper front back
            (subst (Queued c from) (sym parts) h.queued) (omega arith) in
        let same : computed chains metric_outputs front ≡ more = cc in
        let after : from + length front ≡ upper + 1 = omega arith in
        record {
          waiting = back;
          queued = subst (λ k. Queued c k back) after rest;
          all_waiting = omega arith;
          same_reservations = h.same_reservations;
          complete =
              append_assoc calls more (computed chains metric_outputs back)
              ∙ ap (λ y. calls ++ (y ++ computed chains metric_outputs back)) (sym same)
              ∙ ap (λ y. calls ++ y) (sym (computed-append front back))
              ∙ ap (λ y. calls ++ computed chains metric_outputs y) parts
              ∙ h.complete;
        }

    Run-Delivers :
        (start c : Controller Metrics) (from to : ℕ) (ms : List Metrics)
        (calls : List (Receiver × Metrics))
        → Queued start 0 []
        → Run start c from to ms calls
        → Delivers start c from to ms calls
    unfolding computed repeated
    Run-Delivers start _ _ _ _ _ q started = record {
      waiting = [];
      queued = q;
      all_waiting = refl;
      same_reservations = refl;
      complete = refl;
    }
    Run-Delivers start _ _ _ _ _ q
          (published {c} {d} {from} {to} {ms} {calls} m sequence lower r room reserved e) =
        Delivers-published start c d from to ms calls m sequence lower
          (Run-Delivers start c from to ms calls q r) room reserved e
    Run-Delivers start _ _ _ _ _ q
          (consumed {c} {from} {to} {ms} {calls} {more} upper r le bound e) =
        Delivers-consumed start c from to ms calls more upper
          (Run-Delivers start c from to ms calls q r) le bound e

    -- From a ring whose size is a power of two, at most 2^63, with its mask, whatever the
    -- interleaving of Publish and Consume: when the consumer has caught up, the calls of Compute
    -- are, for each published metric in order and as many times as slots are reserved by one
    -- Publish, one to the alarmer, then one to each chain and then one to each metric output.
    pub Run-computed :
        (zero_value : Metrics) (bits reservations : ℕ) (c : Controller Metrics) (at : ℕ)
        (ms : List Metrics) (calls : List (Receiver × Metrics))
        → bits ≤ 63
        → Run (init zero_value (2 ^ bits) (2 ^ bits - 1) reservations) c at at ms calls
        → calls ≡ computed chains metric_outputs (repeated reservations ms)
    unfolding init computed
    Run-computed zero_value bits reservations c at ms calls fit r =
        caught_up (Run-Delivers _ c at at ms calls (init-Queued zero_value bits reservations fit) r)
      where
        nothing : (xs : List Metrics) → at + length xs ≡ at → xs ≡ []
        nothing [] h = refl
        nothing (x ∷ xs) h = absurd (omega arith)

        caught_up :
            Delivers (init zero_value (2 ^ bits) (2 ^ bits - 1) reservations) c at at ms calls
            → calls ≡ computed chains metric_outputs (repeated reservations ms)
        caught_up h =
            sym (append-nil calls)
            ∙ ap (λ xs. calls ++ computed chains metric_outputs xs)
                (sym (nothing h.waiting h.all_waiting))
            ∙ h.complete
