-- ===== src/Agent/Output/Delivery.antt =====
-- Nothing that the flusher receives is lost before it reaches the `Write` of every output.
use vgo.Prelude.{
  ℕ, ◌+◌, ◌-◌, ◌≤◌, ◌<◌, ◌≡◌, refl, ap, sym, ◌∙◌, List, [], ◌∷◌, ◌++◌, some, length, take, drop,
  length-append, append_assoc, append-nil, arith, leb, Bool-cases, inl, inr,
}
use vgo.Prelude.Int.{pos}
use Prim.Native.Nat.{min}
use vgo.Agent.Buffer.{len, capacity, add}
use vgo.Agent.Buffer.Fifo.{Counted, Added, add-Added, batch_lem}
use vgo.Agent.Output.{OutputConfig, write, write_all, add_metric, write}

module _ {ℓ} {M : Type ℓ} where
  -- All that was written, in order.
  abbrev pub written : List (List M) → List M
  written [] = []
  written (b ∷ bs) = b ++ written bs

  -- A call of `Write` hands over at least one metric and at most a batch.
  abbrev pub AllBatches : ℕ → List (List M) → Type 0
  AllBatches n [] = Unit {0}
  AllBatches n (b ∷ bs) = (0 < length b) × (length b ≤ n) × AllBatches n bs

  written-append_one : (bs : List (List M)) (b : List M) → written (bs ++ b ∷ []) ≡ written bs ++ b
  written-append_one [] b = append-nil b
  written-append_one (x ∷ bs) b =
      ap (λ l. x ++ l) (written-append_one bs b) ∙ sym (append_assoc x _ b)

  AllBatches-append_one :
      (n : ℕ) (bs : List (List M)) (b : List M)
      → AllBatches n bs
      → 0 < length b
      → length b ≤ n
      → AllBatches n (bs ++ b ∷ [])
  AllBatches-append_one n [] b all some_length fits = (some_length, fits, tt)
  AllBatches-append_one n (x ∷ bs) b (p, q, all) some_length fits =
      (p, q, AllBatches-append_one n bs b all some_length fits)

-- The output was given `ms` since it was made: it has written the first of them, holds the rest,
-- and has dropped none.
pub record Delivers {ℓ} {M : Type ℓ} (ms : List M) (o : OutputConfig M) : Type ℓ where
  pub content : written o.output ++ o.metrics.buf ≡ ms
  pub counted : Counted o.metrics (length ms) 0
  pub room : length o.metrics.buf < o.metrics.size
  pub batch_is_size : o.metrics.metric_batch_size ≡ o.metrics.size
  pub batches : AllBatches o.metrics.size o.output

-- The same, just after a metric came in.
pub record Holding {ℓ} {M : Type ℓ} (ms : List M) (o : OutputConfig M) : Type ℓ where
  pub content : written o.output ++ o.metrics.buf ≡ ms
  pub counted : Counted o.metrics (length ms) 0
  pub batch_is_size : o.metrics.metric_batch_size ≡ o.metrics.size
  pub some_size : 0 < o.metrics.size
  pub batches : AllBatches o.metrics.size o.output

pub record Emptied {ℓ} {M : Type ℓ} (ms : List M) (o : OutputConfig M) : Type ℓ where
  pub delivers : Delivers ms o
  pub empty : o.metrics.buf ≡ []

module _ {ℓ} {M : Type ℓ} where
  take_all : (xs : List M) → take (min (length xs) (length xs)) xs ≡ xs
  take_all xs = ap (λ n. take n xs) (omega arith) ∙ go xs
    where
      go : (ys : List M) → take (length ys) ys ≡ ys
      go [] = refl
      go (y ∷ ys) = ap (◌∷◌ y) (go ys)

  drop_all : (xs : List M) → drop (min (length xs) (length xs)) xs ≡ []
  drop_all xs = ap (λ n. drop n xs) (omega arith) ∙ go xs
    where
      go : (ys : List M) → drop (length ys) ys ≡ []
      go [] = refl
      go (y ∷ ys) = go ys

  write_all_lem :
      (o : OutputConfig M)
      → write_all o
        ≡ some (write (record o { metrics = record (o.metrics) { buf = [] } }) o.metrics.buf)
  unfolding write_all len
  write_all_lem o = rw (batch_lem o.metrics (length o.metrics.buf), take_all, drop_all)

  write-Emptied :
      (ms : List M) (o : OutputConfig M) (b : List M)
      → o.metrics.buf ≡ b
      → Holding ms o
      → Emptied ms (write (record o { metrics = record (o.metrics) { buf = [] } }) b)
  unfolding write
  write-Emptied ms o [] e h = record {
    delivers = record {
      content = rw e at h.content;
      counted = record {
        fits = omega arith;
        total = h.counted.total;
        drops = h.counted.drops;
        dropped = h.counted.dropped;
      };
      room = h.some_size;
      batch_is_size = h.batch_is_size;
      batches = h.batches;
    };
    empty = refl;
  }
  write-Emptied ms o (m ∷ b) e h = record {
    delivers = record {
      content = append-nil _ ∙ written-append_one o.output (m ∷ b) ∙ (rw e at h.content);
      counted = record {
        fits = omega arith;
        total = h.counted.total;
        drops = h.counted.drops;
        dropped = h.counted.dropped;
      };
      room = h.some_size;
      batch_is_size = h.batch_is_size;
      batches =
          AllBatches-append_one o.metrics.size o.output (m ∷ b) h.batches (omega arith)
            (omega (arith, h.counted.fits, ap length e));
    };
    empty = refl;
  }

  pub write_all-Emptied :
      (ms : List M) (o : OutputConfig M)
      → Holding ms o
      → (o' : OutputConfig M) × (write_all o ≡ some o') × Emptied ms o'
  write_all-Emptied ms o h = (_, write_all_lem o, write-Emptied ms o o.metrics.buf refl h)

  pub Delivers-Holding : (ms : List M) (o : OutputConfig M) → Delivers ms o → Holding ms o
  Delivers-Holding ms o d = record {
    content = d.content;
    counted = d.counted;
    batch_is_size = d.batch_is_size;
    some_size = omega (arith, d.room);
    batches = d.batches;
  }

  -- After `Add` has put one more metric into a buffer with room.
  Holding-Added :
      (ms : List M) (o : OutputConfig M) (m : M)
      → Delivers ms o
      → (a : Added o.metrics (m ∷ []) (length ms) 0 (add o.metrics (m ∷ [])))
      → Holding (ms ++ m ∷ []) (record o { metrics = a.after })
  Holding-Added ms o m d a =
      let none_dropped : length o.metrics.buf + 1 - o.metrics.size ≡ 0 = omega (arith, d.room) in
      let size_is = a.same_size in
      record {
        content =
            ap (λ xs. written o.output ++ xs)
              (a.newest ∙ ap (λ n. drop n (o.metrics.buf ++ m ∷ [])) none_dropped)
            ∙ sym (append_assoc (written o.output) o.metrics.buf (m ∷ []))
            ∙ ap (λ xs. xs ++ m ∷ []) d.content;
        counted = record {
          fits = a.counted.fits;
          total = a.counted.total ∙ ap pos (sym (length-append ms (m ∷ [])));
          drops = a.counted.drops ∙ ap pos (omega (arith, none_dropped));
          dropped = omega arith;
        };
        batch_is_size = a.same_batch ∙ d.batch_is_size ∙ sym a.same_size;
        some_size = omega (arith, d.room, a.same_size);
        batches = rw size_is d.batches;
      }

  -- `AddMetric` never blocks and drops nothing: what an output has written and holds grows by the
  -- new metric, and the buffer is left with room for one more.
  pub add_metric-Delivers :
      (ms : List M) (o : OutputConfig M) (m : M)
      → Delivers ms o
      → length ms < 9223372036854775807
      → (o' : OutputConfig M) × (add_metric o m ≡ some o') × Delivers (ms ++ m ∷ []) o'
  unfolding add_metric capacity len
  add_metric-Delivers ms o m d small =
      let a =
        add-Added (m ∷ []) o.metrics (length ms) 0 d.counted (omega arith)
          (omega (arith, d.room)) in
      let h = Holding-Added ms o m d a in
      elim (Bool-cases (leb a.after.metric_batch_size (length a.after.buf))) [
        | inl full ↦
            let (o', e, emptied) =
              write_all-Emptied (ms ++ m ∷ []) (record o { metrics = a.after }) h in
            (o', rw (a.returns, full) e, emptied.delivers)
        | inr partly ↦ (
          record o { metrics = a.after },
          rw (a.returns, partly) refl,
          record {
            content = h.content;
            counted = h.counted;
            room = ground (arith, h.batch_is_size);
            batch_is_size = h.batch_is_size;
            batches = h.batches;
          },
        )
      ]
