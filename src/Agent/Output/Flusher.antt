-- ===== src/Agent/Output/Flusher.antt =====
-- The flusher's loop over every order of shutdowns, ticks and metrics.
use vgo.Prelude.{
  ◌+◌, ◌≤◌, ◌≡◌, refl, sym, subst, List, [], ◌∷◌, ◌++◌, Option, some, length, length-append,
  append_assoc, append-nil, arith,
}
use vgo.Agent.Output.{
  OutputConfig, write_all, add_metric, Event, shutdown, tick, metric, each, flush, flusher,
}
use vgo.Agent.Output.Delivery.{
  Delivers, Emptied, Delivers-Holding, write_all-Emptied, add_metric-Delivers,
}

module _ {ℓ} {M : Type ℓ} where
  -- The metrics that arrive before the shutdown.
  abbrev pub received : List (Event M) → List M
  received [] = []
  received (shutdown ∷ es) = []
  received (tick ∷ es) = received es
  received (metric m ∷ es) = m ∷ received es

  abbrev pub AllOutputs : (OutputConfig M → Type ℓ) → List (OutputConfig M) → Type ℓ
  AllOutputs P [] = Unit
  AllOutputs P (o ∷ os) = P o × AllOutputs P os

  each_lem :
      (f : OutputConfig M → Option (OutputConfig M)) (P Q : OutputConfig M → Type ℓ)
      (keep : (o : OutputConfig M) → P o → (o' : OutputConfig M) × (f o ≡ some o') × Q o')
      (os : List (OutputConfig M))
      → AllOutputs P os
      → (os' : List (OutputConfig M)) × (each f os ≡ some os') × AllOutputs Q os'
  unfolding each
  each_lem f P Q keep [] all = ([], refl, tt)
  each_lem f P Q keep (o ∷ os) (p, all) =
      let (o', e, q) = keep o p in
      let (os', e', rest) = each_lem f P Q keep os all in (o' ∷ os', rw (e, e'), (q, rest))

  AllOutputs-map :
      (P Q : OutputConfig M → Type ℓ) (weaken : (o : OutputConfig M) → P o → Q o)
      (os : List (OutputConfig M))
      → AllOutputs P os
      → AllOutputs Q os
  AllOutputs-map P Q weaken [] all = tt
  AllOutputs-map P Q weaken (o ∷ os) (p, all) = (weaken o p, AllOutputs-map P Q weaken os all)

  flush-Emptied :
      (ms : List M) (os : List (OutputConfig M))
      → AllOutputs (Delivers ms) os
      → (os' : List (OutputConfig M)) × (flush os ≡ some os') × AllOutputs (Emptied ms) os'
  unfolding flush
  flush-Emptied ms os =
      each_lem write_all (Delivers ms) (Emptied ms)
        (λ o d. write_all-Emptied ms o (Delivers-Holding ms o d)) os

  -- The flusher never blocks. Whatever the order of ticks and metrics, every output is left with
  -- the metrics received so far, in order and none dropped, provided that they stay below 2^63.
  pub flusher-Delivers :
      (es : List (Event M)) (ms : List M) (os : List (OutputConfig M))
      → AllOutputs (Delivers ms) os
      → length ms + length (received es) ≤ 9223372036854775807
      → (os' : List (OutputConfig M)) × (flusher es os ≡ some os')
        × AllOutputs (Delivers (ms ++ received es)) os'
  unfolding flusher
  flusher-Delivers [] ms os all small =
      (os, refl, subst (λ l. AllOutputs (Delivers l) os) (sym (append-nil ms)) all)
  flusher-Delivers (shutdown ∷ es) ms os all small =
      let (os', e, done) = flush-Emptied ms os all in
      (
        os',
        e,
        AllOutputs-map (Emptied ms) (Delivers (ms ++ [])) (λ o d. rw append-nil d.delivers) os'
            done,
      )
  flusher-Delivers (tick ∷ es) ms os all small =
      let (os', e, done) = flush-Emptied ms os all in
      let (os'', e', rest) =
        flusher-Delivers es ms os'
          (AllOutputs-map (Emptied ms) (Delivers ms) (λ o d. d.delivers) os' done) small in
      (os'', rw e e', rest)
  flusher-Delivers (metric m ∷ es) ms os all small =
      let (os', e, done) =
        each_lem (λ o. add_metric o m) (Delivers ms) (Delivers (ms ++ m ∷ []))
          (λ o d. add_metric-Delivers ms o m d (omega arith)) os all in
      let (os'', e', rest) =
        flusher-Delivers es (ms ++ m ∷ []) os' done (omega (arith, length-append ms (m ∷ []))) in
      (os'', rw e e', rw append_assoc at rest)

  -- After any sequence of ticks and metrics, a shutdown leaves every output with all that was
  -- received written, in order, and nothing held back, provided that the totals stay below 2^63.
  pub flusher_shutdown :
      (es : List (Event M)) (later : List (Event M)) (ms : List M) (os : List (OutputConfig M))
      → AllOutputs (Delivers ms) os
      → length ms + length (received es) ≤ 9223372036854775807
      → (os' : List (OutputConfig M)) × (flusher (es ++ shutdown ∷ later) os ≡ some os')
        × AllOutputs (Emptied (ms ++ received es)) os'
  unfolding flusher
  flusher_shutdown [] later ms os all small =
      let (os', e, done) = flush-Emptied ms os all in (os', e, rw append-nil done)
  flusher_shutdown (shutdown ∷ es) later ms os all small =
      let (os', e, done) = flush-Emptied ms os all in (os', e, rw append-nil done)
  flusher_shutdown (tick ∷ es) later ms os all small =
      let (os', e, done) = flush-Emptied ms os all in
      let (os'', e', rest) =
        flusher_shutdown es later ms os'
          (AllOutputs-map (Emptied ms) (Delivers ms) (λ o d. d.delivers) os' done) small in
      (os'', rw e e', rest)
  flusher_shutdown (metric m ∷ es) later ms os all small =
      let (os', e, done) =
        each_lem (λ o. add_metric o m) (Delivers ms) (Delivers (ms ++ m ∷ []))
          (λ o d. add_metric-Delivers ms o m d (omega arith)) os all in
      let (os'', e', rest) =
        flusher_shutdown es later (ms ++ m ∷ []) os' done
          (omega (arith, length-append ms (m ∷ []))) in
      (os'', rw e e', rw append_assoc at rest)
