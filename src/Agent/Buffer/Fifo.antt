-- ===== src/Agent/Buffer/Fifo.antt =====
-- The buffer keeps the newest metrics in order, and counts what it took in and dropped.
use vgo.Prelude.{
  ℕ, zero, suc, ◌+◌, ◌-◌, ◌≤◌, ◌<◌, ◌≡◌, refl, ap, sym, ◌∙◌, false, List, [], ◌∷◌, ◌++◌, Option,
  some, length, take, drop, length-append, length-drop, ap₂, append_assoc, append-nil, arith, ltb,
  lt→ltb, dec_lt,
}
use vgo.Prelude.Int.{pos, ◌+ℤ◌}
use vgo.Prelude.Words.{incr, wrap64}
use Prim.Native.Nat.{min}
use vgo.Agent.Buffer.{Buffer, len, add_one, add, receive, batch}

pub incr_pos : (n : ℕ) → n < 9223372036854775807 → incr (pos n) ≡ pos (suc n)
unfolding incr wrap64 ◌+ℤ◌
incr_pos n h = ground arith

ltb_of_le : (a b : ℕ) → b ≤ a → ltb a b ≡ false
ltb_of_le a b h = ground arith

-- A buffer that fits its channel and has counted `t` metrics, `d` of them dropped.
pub record Counted {ℓ} {M : Type ℓ} (b : Buffer M) (t d : ℕ) : Type ℓ where
  pub fits : length b.buf ≤ b.size
  pub total : b.total ≡ pos t
  pub drops : b.drops ≡ pos d
  pub dropped : d ≤ t

drop_of_zero {ℓ} : {M : Type ℓ} (xs : List M) {n : ℕ} → n ≡ 0 → drop n xs ≡ xs
drop_of_zero xs e = ap (λ k. drop k xs) e

drop-drop-append {ℓ} :
    {M : Type ℓ} (k n : ℕ) (xs ys : List M)
    → k ≤ length xs
    → drop n (drop k xs ++ ys) ≡ drop (k + n) (xs ++ ys)
drop-drop-append zero n xs ys h = ap (λ j. drop j (xs ++ ys)) (omega arith)
drop-drop-append (suc k) n [] ys h = absurd (omega arith)
drop-drop-append (suc k) n (x ∷ xs) ys h =
    drop-drop-append k n xs ys (omega arith)
    ∙ ap (λ j. drop j (x ∷ xs ++ ys)) {x = suc (k + n)} (omega arith)

uncons {ℓ} :
    {M : Type ℓ} (xs : List M) → 0 < length xs → (x : M) × (rest : List M) × (xs ≡ x ∷ rest)
uncons [] h = absurd (omega arith)
uncons (x ∷ rest) h = (x, rest, refl)

-- What `Add` leaves: the newest `size` of the old content and the new metrics, in order.
pub record Added {ℓ} {M : Type ℓ} (b : Buffer M) (ms : List M) (t d : ℕ) (out : Option (Buffer M))
    : Type ℓ where
  pub after : Buffer M
  pub returns : out ≡ some after
  pub newest : after.buf ≡ drop (length b.buf + length ms - b.size) (b.buf ++ ms)
  pub counted : Counted after (t + length ms) (d + (length b.buf + length ms - b.size))
  pub same_size : after.size ≡ b.size
  pub same_batch : after.metric_batch_size ≡ b.metric_batch_size

module _ {ℓ} {M : Type ℓ} where
  add_one_room :
      (b : Buffer M) (m : M) (t d : ℕ)
      → Counted b t d
      → t < 9223372036854775807
      → length b.buf < b.size
      → Added b (m ∷ []) t d (add_one b m)
  unfolding add_one
  add_one_room b m t d c small room = rw (lt→ltb _ _ room) (record {
    after = record b { buf = b.buf ++ m ∷ []; total = incr b.total };
    returns = refl;
    newest = sym (drop_of_zero _ (omega arith));
    counted = record {
      fits = omega (arith, length-append b.buf (m ∷ []));
      total = rw c.total (incr_pos t small ∙ ap pos (omega arith));
      drops = c.drops ∙ ap pos (omega arith);
      dropped = omega (arith, c.dropped);
    };
    same_size = refl;
    same_batch = refl;
  })

  add_one_full :
      (b : Buffer M) (m : M) (t d : ℕ)
      → Counted b t d
      → t < 9223372036854775807
      → 0 < b.size
      → b.size ≤ length b.buf
      → Added b (m ∷ []) t d (add_one b m)
  unfolding add_one
  add_one_full b m t d c small some_size full =
      let (x, rest, e) = uncons b.buf (omega (arith, c.fits)) in
      let size_is : b.size ≡ suc (length rest) = omega (arith, c.fits, ap length e) in
      let one : length b.buf + length (m ∷ []) - b.size ≡ 1 = omega (arith, ap length e) in
      record {
        after = record b { buf = rest ++ m ∷ []; total = incr b.total; drops = incr b.drops };
        returns = rw (ltb_of_le _ _ full, e);
        newest = rw (one, e) refl;
        counted = record {
          fits = omega (arith, length-append rest (m ∷ []));
          total = rw c.total (incr_pos t small ∙ ap pos (omega arith));
          drops = rw c.drops (incr_pos d (omega (arith, c.dropped)) ∙ ap pos (omega arith));
          dropped = omega (arith, c.dropped);
        };
        same_size = refl;
        same_batch = refl;
      }

  add_one-Added :
      (b : Buffer M) (m : M) (t d : ℕ)
      → Counted b t d
      → t < 9223372036854775807
      → 0 < b.size
      → Added b (m ∷ []) t d (add_one b m)
  add_one-Added b m t d c small some_size = elim (dec_lt (length b.buf) b.size) [
    | yes room ↦ add_one_room b m t d c small room
    | no full ↦ add_one_full b m t d c small some_size (omega arith)
  ]

  -- `Add` on a buffer of a positive size always returns. It keeps the newest metrics, as many as
  -- fit, in order, adds their number to the total, and counts as dropped those it let go, provided
  -- that the total stays below 2^63.
  pub add-Added :
      (ms : List M) (b : Buffer M) (t d : ℕ)
      → Counted b t d
      → t + length ms ≤ 9223372036854775807
      → 0 < b.size
      → Added b ms t d (add b ms)
  unfolding add
  add-Added [] b t d c small some_size = record {
    after = b;
    returns = refl;
    newest = sym (append-nil b.buf) ∙ sym (drop_of_zero (b.buf ++ []) (omega (arith, c.fits)));
    counted = record {
      fits = c.fits;
      total = c.total ∙ ap pos (omega arith);
      drops = c.drops ∙ ap pos (omega (arith, c.fits));
      dropped = omega (arith, c.dropped, c.fits);
    };
    same_size = refl;
    same_batch = refl;
  }
  add-Added (m ∷ ms) b t d c small some_size =
      let one = add_one-Added b m t d c (omega arith) some_size in
      let rest =
        add-Added ms one.after (t + 1) (d + (length b.buf + 1 - b.size)) one.counted (omega arith)
          (rw one.same_size some_size) in
      let k : ℕ = length b.buf + 1 - b.size in
      let k_le : k ≤ length (b.buf ++ m ∷ []) = omega (arith, length-append b.buf (m ∷ [])) in
      let left : length one.after.buf ≡ length b.buf + 1 - k =
        ap length one.newest
        ∙ length-drop k (b.buf ++ m ∷ [])
        ∙ omega (arith, length-append b.buf (m ∷ [])) in
      let more : k + (length one.after.buf + length ms - one.after.size)
          ≡ length b.buf + length (m ∷ ms) - b.size =
        omega (arith, left, one.same_size) in
      rw one.returns (record {
        after = rest.after;
        returns = rest.returns;
        newest =
            rest.newest
            ∙ ap (λ xs. drop (length one.after.buf + length ms - one.after.size) (xs ++ ms))
                one.newest
            ∙ drop-drop-append k _ (b.buf ++ m ∷ []) ms k_le
            ∙ ap₂ drop more (append_assoc b.buf (m ∷ []) ms);
        counted = record {
          fits = rest.counted.fits;
          total = rest.counted.total ∙ ap pos (omega arith);
          drops = rest.counted.drops ∙ ap pos (omega (arith, more));
          dropped = omega (arith, rest.counted.dropped, more);
        };
        same_size = rest.same_size ∙ one.same_size;
        same_batch = rest.same_batch ∙ one.same_batch;
      })

  receive_lem : (n : ℕ) (xs : List M) → n ≤ length xs → receive n xs ≡ some (take n xs, drop n xs)
  unfolding receive
  receive_lem zero xs h = refl
  receive_lem (suc n) [] h = absurd (omega arith)
  receive_lem (suc n) (x ∷ xs) h = rw (receive_lem n xs (omega arith))

  -- `Batch` never blocks: it takes the oldest metrics, at most `n`, and leaves the others.
  pub batch_lem :
      (b : Buffer M) (n : ℕ)
      → batch b n
        ≡ some (
          take (min (length b.buf) n) b.buf,
          record b { buf = drop (min (length b.buf) n) b.buf },
        )
  unfolding batch len
  batch_lem b n = rw (receive_lem (min (length b.buf) n) b.buf (omega arith))
