-- ===== src/Agent/Tests.antt =====
-- Runs of the agent's parts on concrete inputs, and the theorems at them.
mod Globs
mod Fields
mod Documents
mod Influx
use vgo.Prelude.{
  ℕ, ◌+◌, ◌≤◌, ◌≡◌, refl, Bytes, codes, List, [], ◌∷◌, ◌++◌, Option, none, some, arith, length,
  take, drop,
}
use vgo.Prelude.Int.{ℤ, pos, ◌+ℤ◌}
use vgo.Prelude.Words.{incr, wrap64}
use Prim.Native.Nat.{min}
use vgo.Agent.Buffer.{
  Buffer, new_buffer, len, capacity, replace_oldest, add_one, add, receive, batch,
}
use vgo.Agent.Buffer.Fifo.{Counted, Added, add-Added, batch_lem}
use vgo.Agent.Output.{
  OutputConfig, write, write_all, add_metric, Event, shutdown, tick, metric, each, flush, flusher,
}
use vgo.Agent.Output.Delivery.{Delivers, Emptied, add_metric-Delivers}
use vgo.Agent.Output.Flusher.{AllOutputs, received, flusher-Delivers, flusher_shutdown}

abbrev full : Buffer ℕ
full = record { buf = 1 ∷ 2 ∷ []; size = 2; drops = pos 1; total = pos 3; metric_batch_size = 2 }

add_drops_oldest :
    add full (3 ∷ 4 ∷ 5 ∷ [])
    ≡ some (record full { buf = 4 ∷ 5 ∷ []; drops = pos 4; total = pos 6 })
unfolding add add_one replace_oldest incr wrap64 ◌+ℤ◌
add_drops_oldest = refl

add-Added_example : Added full (3 ∷ 4 ∷ 5 ∷ []) 3 1 (add full (3 ∷ 4 ∷ 5 ∷ []))
add-Added_example =
    add-Added (3 ∷ 4 ∷ 5 ∷ []) full 3 1
      (record { fits = omega arith; total = refl; drops = refl; dropped = omega arith })
      (omega arith) (omega arith)

-- An output as buildOutput makes it, with a batch size of two.
abbrev new : OutputConfig ℕ
new = record {
  name = codes "influxdb";
  output = [];
  metrics = record { buf = []; size = 2; drops = pos 0; total = pos 0; metric_batch_size = 2 };
}

new-Delivers : Delivers [] new
new-Delivers = record {
  content = refl;
  counted = record { fits = omega arith; total = refl; drops = refl; dropped = omega arith };
  room = omega arith;
  batch_is_size = refl;
  batches = tt;
}

abbrev events : List (Event ℕ)
events = metric 1 ∷ metric 2 ∷ tick ∷ metric 3 ∷ []

flusher-Delivers_example :
    (os' : List (OutputConfig ℕ)) × (flusher events (new ∷ []) ≡ some os')
    × AllOutputs (Delivers (1 ∷ 2 ∷ 3 ∷ [])) os'
flusher-Delivers_example = flusher-Delivers events [] (new ∷ []) (new-Delivers, tt) (omega arith)

flusher_shutdown_example :
    (os' : List (OutputConfig ℕ)) × (flusher (events ++ shutdown ∷ metric 4 ∷ []) (new ∷ [])
      ≡ some os')
    × AllOutputs (Emptied (1 ∷ 2 ∷ 3 ∷ [])) os'
flusher_shutdown_example =
    flusher_shutdown events (metric 4 ∷ []) [] (new ∷ []) (new-Delivers, tt) (omega arith)
