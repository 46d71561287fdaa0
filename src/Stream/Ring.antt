-- ===== src/Stream/Ring.antt =====
-- stream/service/disruptor.go and writer.go: the ring buffer through which the inputs hand metrics
-- to the consumer. The sequences of go-disruptor, which start at 0, are arguments: `Reserve` returns
-- the last one that the producer may write, and the consumer group calls Consume with bounds.
pub mod Mask
pub mod Queue
pub mod Delivery
use vgo.Prelude.{
  ℕ, zero, suc, ◌+◌, ◌-◌, ◌*◌, ◌/◌, ◌%◌, Bytes, List, [], ◌∷◌, ◌++◌, Option, none, some, ◌>>=◌,
  get_elem?, set, length, ltb, if◌then◌else◌, map, replicate,
}

-- `a & b` of two numbers that are not negative, on the lowest bits of this number.
unfoldable pub bit_and : (bits : ℕ) → ℕ → ℕ → ℕ
bit_and zero a b = 0
bit_and (suc bits) a b = (a % 2) * (b % 2) + 2 * bit_and bits (a / 2) (b / 2)

-- What is called with each metric: the alarmer, the chains and the metric outputs, by name.
pub data Receiver : Type 0 where
  alarmer : Receiver
  chain : Bytes → Receiver
  metric_output : Bytes → Receiver

pub record Controller {ℓ} (Metrics : Type ℓ) : Type ℓ where
  pub ring : List Metrics
  pub buffer_mask : ℕ
  pub reservations : ℕ

module _ {ℓ} {Metrics : Type ℓ} where
  -- `Init`, whose ring holds the zero value.
  unfoldable pub init : Metrics → (buffer_size buffer_mask reservations : ℕ) → Controller Metrics
  init zero_value buffer_size buffer_mask reservations = record {
    ring = replicate buffer_size zero_value;
    buffer_mask = buffer_mask;
    reservations = reservations;
  }

  -- The index of an int64 sequence.
  unfoldable pub slot : Controller Metrics → ℕ → ℕ
  slot c lower = bit_and 63 lower c.buffer_mask

  -- `ring[lower & mask] = m`; `none` is the panic of an index out of range.
  unfoldable pub put : Controller Metrics → ℕ → Metrics → Option (Controller Metrics)
  unfolding slot
  put c lower m =
      if ltb (slot c lower) (length c.ring)
      then some (record c { ring = set c.ring (slot c lower) m })
      else none

  -- The loop of `Publish`, of so many rounds from `lower`.
  unfoldable pub put_all :
      (rounds : ℕ) → Controller Metrics → ℕ → Metrics → Option (Controller Metrics)
  unfolding put
  put_all zero c lower m = some c
  put_all (suc rounds) c lower m = put c lower m >>= λ d. put_all rounds d (suc lower) m

  -- `Publish` with the sequence that Reserve returned, and the bounds that it commits.
  unfoldable pub publish :
      Controller Metrics → (sequence : ℕ) → Metrics → Option (Controller Metrics × ℕ × ℕ)
  unfolding put_all
  publish c sequence m = do
    let lower = sequence + 1 - c.reservations
    d ← put_all (sequence + 1 - lower) c lower m
    some (d, lower, sequence)

  module _ (chains metric_outputs : List Bytes) where
    -- The calls of Compute for one metric, in order.
    unfoldable pub compute : Metrics → List (Receiver × Metrics)
    compute m =
        (alarmer, m) ∷ map (λ c. (chain c, m)) chains
        ++ map (λ c. (metric_output c, m)) metric_outputs

    -- The loop of `Consume`, of so many rounds from `lower`; `none` is the panic.
    unfoldable pub consume_all :
        (rounds : ℕ) → Controller Metrics → ℕ → Option (List (Receiver × Metrics))
    unfolding slot compute
    consume_all zero c lower = some []
    consume_all (suc rounds) c lower = do
      m ← get_elem? c.ring (slot c lower)
      rest ← consume_all rounds c (suc lower)
      some (compute m ++ rest)

    unfoldable pub consume :
        Controller Metrics → (lower upper : ℕ) → Option (List (Receiver × Metrics))
    unfolding consume_all
    consume c lower upper = consume_all (upper + 1 - lower) c lower
