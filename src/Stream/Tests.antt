-- ===== src/Stream/Tests.antt =====
-- Runs of stream/service/host.go and of the ring of disruptor.go at concrete inputs.
use vgo.Prelude.{
  Bytes, codes, equal, true, false, ◌≡◌, refl, ℕ, ◌∷◌, [], ◌++◌, ◌-◌, List, arith, ◌^◌,
}
use vgo.Prelude.Dict.{lookup, insert, delete}
use vgo.Stream.Hosts.{
  Call, call_add, call_dele, call_del, run, add, get, dele_group_in_hosts, del_host,
}
use vgo.Stream.Hosts.Relation.{belongs, related, run-related}
use vgo.Stream.Ring.{
  Controller, Receiver, alarmer, chain, init, publish, consume, put_all, put, slot, bit_and,
  compute, consume_all,
}
use vgo.Stream.Ring.Queue.{Queued, computed}
use vgo.Stream.Ring.Delivery.{Run, started, published, consumed, Run-computed, repeated}

abbrev calls : List Call
calls =
    call_add (codes "google") (codes "zeus")
    ∷ call_add (codes "google") (codes "room")
    ∷ call_dele (codes "google") (codes "zeus")
    ∷ call_del (codes "apple")
    ∷ []

run-related_example :
    belongs (run calls []) (codes "google") (codes "room")
    ≡ related calls (belongs []) (codes "google") (codes "room")
run-related_example = run-related calls [] (codes "google") (codes "room")

room_left : belongs (run calls []) (codes "google") (codes "room") ≡ true
unfolding run add dele_group_in_hosts del_host get lookup insert equal delete
room_left = refl

zeus_gone : belongs (run calls []) (codes "google") (codes "zeus") ≡ false
unfolding run add dele_group_in_hosts del_host get lookup insert equal delete
zeus_gone = refl

-- A ring of two slots, one reserved by each Publish.
abbrev empty : Controller ℕ
empty = init 0 (2 ^ 1) (2 ^ 1 - 1) 1

abbrev ring_of : ℕ → ℕ → Controller ℕ
ring_of a b = record { ring = a ∷ b ∷ []; buffer_mask = 1; reservations = 1 }

abbrev chains : List Bytes
chains = codes "c" ∷ []

abbrev of_all : ℕ → List (Receiver × ℕ)
of_all m = (alarmer, m) ∷ (chain (codes "c"), m) ∷ []

-- Three metrics through the two slots, the second batch of two at once.
three : Run chains [] empty (ring_of 9 8) 3 3 (7 ∷ 8 ∷ 9 ∷ []) (of_all 7 ++ of_all 8 ++ of_all 9)
unfolding init publish put_all put slot bit_and consume consume_all compute
three =
    consumed 2
      (published 9 2 2
        (published 8 1 1
          (consumed 0 (published 7 0 0 started (omega arith) refl refl) (omega arith) (omega arith)
            refl)
          (omega arith) refl refl)
        (omega arith) refl refl)
      (omega arith) (omega arith) refl

Run-computed_example :
    of_all 7 ++ of_all 8 ++ of_all 9 ≡ computed chains [] (repeated 1 (7 ∷ 8 ∷ 9 ∷ []))
Run-computed_example =
    Run-computed chains [] 0 1 1 (ring_of 9 8) 3 (7 ∷ 8 ∷ 9 ∷ []) (of_all 7 ++ of_all 8 ++ of_all 9)
      (omega arith) three

-- Two metrics wait: the first in the second slot, the second in the first.
abbrev two_waiting : Queued (ring_of 9 8) 1 (8 ∷ 9 ∷ [])
unfolding slot bit_and
two_waiting = record {
  sized = record { bits = 1; bits_fit = omega arith; ring_size = refl; mask_is = refl };
  fits = omega arith;
  holds = (refl, (refl, tt));
}

-- The calls for one metric, in order.
computed_one : computed chains [] (8 ∷ []) ≡ of_all 8
unfolding computed compute
computed_one = refl
