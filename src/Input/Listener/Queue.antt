-- ===== src/Input/Listener/Queue.antt =====
-- mecury/plugins/input/tcp_listener/tcp_listener.go: what each round does to the queue and to what is counted.
use vgo.Prelude.{
  ℕ, ◌≤◌, ◌<◌, ◌≡◌, refl, ap, Bytes, Bool, List, [], ◌∷◌, Option, none, some, arith, length,
  length-append, subst,
}
use vgo.Prelude.Outcome.{
  Outcome, returned, panicked, out_of_fuel, then_call, returned_inj, if_panicked_inj,
}
use vgo.Prelude.Int.{ℤ}
use vgo.Prelude.Words.{incr}
use vgo.Input.Listener.{
  Handler, TcpListener, Fate, blank, queued, dropped, fate, handle_line, deliver, drop_warns,
  parsed_into, parse_packet, see_done, take_packet, stop,
}

module _ {Metric : Type 0} (parse : Bytes → Option (List Metric)) where
  -- What is counted, apart from the queue.
  abbrev pub counts : TcpListener Metric → ℕ × ℕ × ℕ × List Handler
  counts t = (t.allowed_pending_messages, t.max_tcp_connections, t.accept, t.handlers)

  pub record WithinQueue (t u : TcpListener Metric) : Type 0 where
    pub same : counts u ≡ counts t
    pub fits : length u.in_queue ≤ u.allowed_pending_messages

  fate-queued :
      (t : TcpListener Metric) (text : Bytes)
      → fate parse t text ≡ queued
      → length t.in_queue < t.allowed_pending_messages
  unfolding fate
  fate-queued t [] e = cc
  fate-queued t (c ∷ text) e = ground arith

  dropped-WithinQueue :
      (r : Outcome Bool) (d : ℤ) (t : TcpListener Metric) {u : TcpListener Metric}
      → then_call r (λ warns. returned (record t { drops = d })) ≡ returned u
      → length t.in_queue ≤ t.allowed_pending_messages
      → WithinQueue t u
  dropped-WithinQueue (returned warns) d t eq fits =
      subst (λ v. WithinQueue t v) (returned_inj eq) (record { same = refl; fits = fits })
  dropped-WithinQueue panicked d t eq fits = cc
  dropped-WithinQueue out_of_fuel d t eq fits = cc

  -- A line within the bound of the queue.
  deliver-WithinQueue :
      (f : Fate) (text : Bytes) (seen : ℤ) (t : TcpListener Metric) {u : TcpListener Metric}
      → fate parse t text ≡ f
      → deliver parse f text seen t ≡ returned u
      → length t.in_queue ≤ t.allowed_pending_messages
      → WithinQueue t u
  unfolding deliver
  deliver-WithinQueue blank text seen t e eq fits =
      subst (λ v. WithinQueue t v) (returned_inj eq) (record { same = refl; fits = fits })
  deliver-WithinQueue queued text seen t e eq fits =
      let room = fate-queued t text e in
      subst (λ v. WithinQueue t v) (returned_inj eq)
        (record { same = refl; fits = omega (arith, length-append t.in_queue (text ∷ []), room) })
  deliver-WithinQueue dropped text seen t e eq fits =
      dropped-WithinQueue (drop_warns t.allowed_pending_messages (incr seen)) (incr seen) t eq fits

  pub handle_line-WithinQueue :
      (text : Bytes) (seen : ℤ) (t : TcpListener Metric) {u : TcpListener Metric}
      → handle_line parse text seen t ≡ returned u
      → length t.in_queue ≤ t.allowed_pending_messages
      → WithinQueue t u
  unfolding handle_line
  handle_line-WithinQueue text seen t eq fits =
      deliver-WithinQueue (fate parse t text) text seen t refl eq fits

  parsed_into-WithinQueue :
      (r : Option (List Metric)) (t : TcpListener Metric)
      → length t.in_queue ≤ t.allowed_pending_messages
      → WithinQueue t (parsed_into parse r t)
  unfolding parsed_into
  parsed_into-WithinQueue none t fits = record { same = refl; fits = fits }
  parsed_into-WithinQueue (some metrics) t fits = record { same = refl; fits = fits }

  pub parse_packet-WithinQueue :
      (packet : Bytes) (t : TcpListener Metric)
      → length t.in_queue ≤ t.allowed_pending_messages
      → WithinQueue t (parse_packet parse packet t)
  unfolding parse_packet
  parse_packet-WithinQueue [] t fits = record { same = refl; fits = fits }
  parse_packet-WithinQueue (c ∷ packet) t fits = parsed_into-WithinQueue (parse (c ∷ packet)) t fits

  pub take_packet-WithinQueue :
      (packets : List Bytes) (t : TcpListener Metric)
      → packets ≡ t.in_queue
      → length t.in_queue ≤ t.allowed_pending_messages
      → WithinQueue t (take_packet parse packets t)
  unfolding take_packet
  take_packet-WithinQueue [] t e fits = record { same = refl; fits = fits }
  take_packet-WithinQueue (packet ∷ packets) t e fits =
      let rest =
        parse_packet-WithinQueue packet (record t { in_queue = packets })
          (omega (arith, ap length e)) in
      record { same = rest.same; fits = rest.fits }

  pub see_done-WithinQueue :
      (packets : List Bytes) (t : TcpListener Metric)
      → length t.in_queue ≤ t.allowed_pending_messages
      → WithinQueue t (see_done parse packets t)
  unfolding see_done
  see_done-WithinQueue [] t fits = record { same = refl; fits = fits }
  see_done-WithinQueue (packet ∷ packets) t fits = record { same = refl; fits = fits }

  pub stop-WithinQueue :
      (t : TcpListener Metric) {u : TcpListener Metric} {closed : List ℕ}
      → stop parse t ≡ returned (u, closed)
      → length t.in_queue ≤ t.allowed_pending_messages
      → WithinQueue t u
  unfolding stop
  stop-WithinQueue t eq fits =
      subst (λ v. WithinQueue t v) (ap (λ p. p.0) (if_panicked_inj t.done eq))
        (record { same = refl; fits = fits })
