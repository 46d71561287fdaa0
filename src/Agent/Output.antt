-- ===== src/Agent/Output.antt =====
-- agent/output.go, and the flusher of agent/agent.go.
-- The plugin of an output is the list of the batches that its `Write` was called with; its errors
-- are dropped by the code. `none` is an operation that blocks for ever.
pub mod Delivery
pub mod Flusher
use vgo.Prelude.{
  ℕ, Bool, true, false, Bytes, List, [], ◌∷◌, ◌++◌, Option, none, some, ◌>>=◌, leb, if◌then◌else◌,
}
use vgo.Prelude.Int.{ℤ, pos}
use vgo.Agent.Buffer.{Buffer, new_buffer, len, capacity, add, batch}

pub record OutputConfig {ℓ} (Metric : Type ℓ) : Type ℓ where
  pub name : Bytes
  pub output : List (List Metric)
  pub metrics : Buffer Metric

module _ {ℓ} {Metric : Type ℓ} where
  -- `NewOutput`: a buffer of 1024.
  unfoldable pub new_output : Bytes → Option (OutputConfig Metric)
  unfolding new_buffer
  new_output name = do
    b ← new_buffer (pos 1024)
    some (record { name = name; output = []; metrics = b })

  -- `o.write(metrics)`: an empty batch is not written.
  unfoldable pub write : OutputConfig Metric → List Metric → OutputConfig Metric
  write o [] = o
  write o (m ∷ ms) = record o { output = o.output ++ (m ∷ ms) ∷ [] }

  -- `o.Write()`: take all that is buffered, and write it.
  unfoldable pub write_all : OutputConfig Metric → Option (OutputConfig Metric)
  unfolding write
  write_all o = do
    (out, b) ← batch o.metrics (len o.metrics)
    some (write (record o { metrics = b }) out)

  -- `AddMetric`: a buffer that has reached its batch size is written at once.
  unfoldable pub add_metric : OutputConfig Metric → Metric → Option (OutputConfig Metric)
  unfolding write_all
  add_metric o m = do
    b ← add o.metrics (m ∷ [])
    let o' = record o { metrics = b }
    if leb (capacity b) (len b) then write_all o' else some o'

-- What wakes the flusher.
pub data Event {ℓ} (Metric : Type ℓ) : Type ℓ where
  shutdown tick : Event Metric
  metric : Metric → Event Metric

module _ {ℓ} {Metric : Type ℓ} where
  -- `for _, o := range Conf.Outputs { f(o) }`.
  unfoldable pub each :
      (OutputConfig Metric → Option (OutputConfig Metric))
      → List (OutputConfig Metric)
      → Option (List (OutputConfig Metric))
  each f [] = some []
  each f (o ∷ os) = do o' ← f o; os' ← each f os; some (o' ∷ os')

  unfoldable pub flush : List (OutputConfig Metric) → Option (List (OutputConfig Metric))
  unfolding each
  flush = each write_all

  -- The loop of `flusher`, over the events in the order in which `select` takes them.
  unfoldable pub flusher :
      List (Event Metric) → List (OutputConfig Metric) → Option (List (OutputConfig Metric))
  unfolding flush
  flusher [] os = some os
  flusher (shutdown ∷ es) os = flush os
  flusher (tick ∷ es) os = flush os >>= λ os'. flusher es os'
  flusher (metric m ∷ es) os = each (λ o. add_metric o m) os >>= λ os'. flusher es os'
