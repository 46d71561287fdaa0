-- ===== src/Agent/Buffer.antt =====
-- agent/buffer.go: a channel used as a queue that drops its oldest metric when it is full.
-- Only the flusher's goroutine uses a buffer, so a channel is the list of what it holds, and an
-- operation that nobody can ever complete is `none`. `Metric` is any type.
pub mod Fifo
use vgo.Prelude.{
  ℕ, zero, suc, ◌+◌, Bool, true, false, List, [], ◌∷◌, ◌++◌, Option, none, some, ◌>>=◌, length, ltb,
  if◌then◌else◌,
}
use vgo.Prelude.Int.{ℤ, pos, negsuc}
use vgo.Prelude.Words.{incr}
use Prim.Native.Nat.{min}

pub record Buffer {ℓ} (Metric : Type ℓ) : Type ℓ where
  pub buf : List Metric
  -- the channel's capacity
  pub size : ℕ
  pub drops : ℤ
  pub total : ℤ
  pub metric_batch_size : ℕ

module _ {ℓ} {Metric : Type ℓ} where
  -- `make` panics at a negative size.
  unfoldable pub new_buffer : ℤ → Option (Buffer Metric)
  new_buffer (pos n) =
      some (record { buf = []; size = n; drops = pos 0; total = pos 0; metric_batch_size = n })
  new_buffer (negsuc n) = none

  unfoldable pub is_empty : Buffer Metric → Bool
  is_empty b = elim b.buf [ [] ↦ true | _ ↦ false ]

  unfoldable pub len : Buffer Metric → ℕ
  len b = length b.buf

  unfoldable pub capacity : Buffer Metric → ℕ
  capacity b = b.metric_batch_size

  -- `default:` count a drop, receive the oldest, send the new one. On an empty channel, which is
  -- full only at size 0, the receive blocks for ever.
  unfoldable pub replace_oldest : Buffer Metric → List Metric → Metric → Option (Buffer Metric)
  replace_oldest b [] m = none
  replace_oldest b (_ ∷ rest) m = some (record b { buf = rest ++ m ∷ []; drops = incr b.drops })

  -- One round of the loop of `Add`.
  unfoldable pub add_one : Buffer Metric → Metric → Option (Buffer Metric)
  unfolding replace_oldest
  add_one b m =
      let b' = record b { total = incr b.total } in
      if ltb (length b.buf) b.size
      then some (record b' { buf = b.buf ++ m ∷ [] })
      else replace_oldest b' b.buf m

  unfoldable pub add : Buffer Metric → List Metric → Option (Buffer Metric)
  add b [] = some b
  add b (m ∷ ms) = do b' ← add_one b m; add b' ms

  -- `n` receives from the channel.
  unfoldable pub receive : ℕ → List Metric → Option (List Metric × List Metric)
  receive zero buf = some ([], buf)
  receive (suc n) [] = none
  receive (suc n) (m ∷ buf) = receive n buf >>= λ (out, rest). some (m ∷ out, rest)

  unfoldable pub batch : Buffer Metric → ℕ → Option (List Metric × Buffer Metric)
  batch b batch_size = do
    (out, rest) ← receive (min (len b) batch_size) b.buf
    some (out, record b { buf = rest })
