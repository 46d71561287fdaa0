-- ===== src/Input/Listener/Delivery.antt =====
-- mecury/plugins/input/tcp_listener/tcp_listener.go: where the scanned lines go.
use vgo.Prelude.{
  ℕ, zero, suc, ◌+◌, ◌≡◌, refl, ap, sym, subst, ◌∙◌, Bytes, Bool, List, [], ◌∷◌, ◌++◌, append-nil,
  append_assoc, Option, some, arith, ltb, if_some_inj,
}
use vgo.Prelude.Int.{ℤ}
use vgo.Prelude.Words.{incr}
use vgo.Prelude.Outcome.{
  Outcome, returned, panicked, out_of_fuel, then_call, returned_inj, if_panicked_inj,
}
use vgo.Input.Listener.{
  Handler, TcpListener, Fate, blank, queued, dropped, start, tcp_listen, handle_or_refuse, remember,
  forget, handle_line, deliver, drop_warns, cleanup, see_done, take_packet, parse_packet, stop,
}
use vgo.Input.Listener.Steps.{
  Turn, Run, connect, end_listening, begin_scan, line, hand_over, end_handler, parser_takes,
  parser_sees_done, stopped, here, next, queued_of,
}
use vgo.Input.Listener.Taken.{
  counted, packet_metrics, packet_malformed, metrics_in, malformed_in, parse_packet-Took,
}

module _ {Metric : Type 0} (parse : Bytes → Option (List Metric)) where
  -- The packets that were queued are those taken, then those in the queue; what has been taken is
  -- parsed and passed on, in order, and each packet that does not parse is counted.
  pub record IsDelivered (sent : List Bytes) (t : TcpListener Metric) : Type 0 where
    pub taken : List Bytes
    pub in_order : sent ≡ taken ++ t.in_queue
    pub parsed : t.gathered ≡ metrics_in parse taken
    pub refused : t.malformed ≡ counted (malformed_in parse taken)

  metrics_in-append :
      (xs : List Bytes) (packet : Bytes)
      → metrics_in parse (xs ++ packet ∷ []) ≡ metrics_in parse xs ++ packet_metrics parse packet
  metrics_in-append [] packet = append-nil (packet_metrics parse packet)
  metrics_in-append (x ∷ xs) packet = rw (metrics_in-append xs packet, append_assoc) refl

  malformed_in-append :
      (xs : List Bytes) (packet : Bytes)
      → malformed_in parse (xs ++ packet ∷ [])
        ≡ malformed_in parse xs + packet_malformed parse packet
  malformed_in-append [] packet = omega arith
  malformed_in-append (x ∷ xs) packet = omega (arith, malformed_in-append xs packet)

  -- The fields that the record is about.
  abbrev flow : TcpListener Metric → List Bytes × List Metric × ℤ
  flow t = (t.in_queue, t.gathered, t.malformed)

  same_flow-IsDelivered :
      {sent : List Bytes} {t u : TcpListener Metric}
      → flow u ≡ flow t
      → IsDelivered sent t
      → IsDelivered (sent ++ []) u
  same_flow-IsDelivered {sent = sent} same d = record {
    taken = d.taken;
    in_order = append-nil sent ∙ d.in_order ∙ ap (λ q. d.taken ++ q) (sym (ap (λ f. f.0) same));
    parsed = ap (λ f. f.1) same ∙ d.parsed;
    refused = ap (λ f. f.2) same ∙ d.refused;
  }

  dropped-IsDelivered :
      (r : Outcome Bool) (drops : ℤ) {sent : List Bytes} (t : TcpListener Metric)
      {u : TcpListener Metric}
      → then_call r (λ warns. returned (record t { drops = drops })) ≡ returned u
      → IsDelivered sent t
      → IsDelivered (sent ++ []) u
  dropped-IsDelivered (returned warns) drops {sent = sent} t e d =
      subst (λ v. IsDelivered (sent ++ []) v) (returned_inj e)
        (record {
          taken = d.taken;
          in_order = append-nil sent ∙ d.in_order;
          parsed = d.parsed;
          refused = d.refused;
        })
  dropped-IsDelivered panicked drops t e d = cc
  dropped-IsDelivered out_of_fuel drops t e d = cc

  line-IsDelivered :
      (f : Fate) (text : Bytes) (seen : ℤ) {sent : List Bytes} (t : TcpListener Metric)
      {u : TcpListener Metric}
      → deliver parse f text seen t ≡ returned u
      → IsDelivered sent t
      → IsDelivered (sent ++ queued_of f text) u
  unfolding deliver
  line-IsDelivered blank text seen {sent = sent} t e d =
      subst (λ v. IsDelivered (sent ++ []) v) (returned_inj e) (same_flow-IsDelivered refl d)
  line-IsDelivered queued text seen {sent = sent} t e d =
      subst (λ v. IsDelivered (sent ++ text ∷ []) v) (returned_inj e)
        (record {
          taken = d.taken;
          in_order =
              ap (λ q. q ++ text ∷ []) d.in_order ∙ append_assoc d.taken t.in_queue (text ∷ []);
          parsed = d.parsed;
          refused = d.refused;
        })
  line-IsDelivered dropped text seen t e d =
      dropped-IsDelivered (drop_warns t.allowed_pending_messages (incr seen)) (incr seen) t e d

  take_packet-IsDelivered :
      (packets : List Bytes) {sent : List Bytes} (t : TcpListener Metric)
      → t.in_queue ≡ packets
      → IsDelivered sent t
      → IsDelivered (sent ++ []) (take_packet parse packets t)
  unfolding take_packet
  take_packet-IsDelivered [] t e d = same_flow-IsDelivered refl d
  take_packet-IsDelivered (packet ∷ packets) {sent = sent} t e d =
      let took = parse_packet-Took parse packet (record t { in_queue = packets }) in
      record {
        taken = d.taken ++ packet ∷ [];
        in_order = rw (append-nil, d.in_order, e, took.keeps_queue, append_assoc) refl;
        parsed =
            took.gathers
            ∙ ap (λ g. g ++ packet_metrics parse packet) d.parsed
            ∙ sym (metrics_in-append d.taken packet);
        refused =
            took.refuses (malformed_in parse d.taken) d.refused
            ∙ ap counted (sym (malformed_in-append d.taken packet));
      }

  -- A packet that never was in the queue.
  handed-IsDelivered :
      (packet : Bytes) {sent : List Bytes} (t : TcpListener Metric)
      → t.in_queue ≡ []
      → IsDelivered sent t
      → IsDelivered (sent ++ packet ∷ []) (parse_packet parse packet t)
  handed-IsDelivered packet t empty d =
      let took = parse_packet-Took parse packet t in
      record {
        taken = d.taken ++ packet ∷ [];
        in_order =
            rw
              (
                d.in_order,
                took.keeps_queue,
                empty,
                append-nil d.taken,
                append-nil (d.taken ++ packet ∷ []),
              )
              refl;
        parsed =
            took.gathers
            ∙ ap (λ g. g ++ packet_metrics parse packet) d.parsed
            ∙ sym (metrics_in-append d.taken packet);
        refused =
            took.refuses (malformed_in parse d.taken) d.refused
            ∙ ap counted (sym (malformed_in-append d.taken packet));
      }

  cleanup-flow :
      (id : Bytes) (others : List Handler) (t : TcpListener Metric) {u : TcpListener Metric}
      → cleanup parse id others t ≡ some u
      → flow u ≡ flow t
  unfolding cleanup forget
  cleanup-flow id others t ended =
      sym (ap flow (if_some_inj (ltb t.accept t.max_tcp_connections) ended))

  stop-flow :
      (t : TcpListener Metric) {u : TcpListener Metric} {closed : List ℕ}
      → stop parse t ≡ returned (u, closed)
      → flow u ≡ flow t
  unfolding stop
  stop-flow t ended = sym (ap (λ p. flow p.0) (if_panicked_inj t.done ended))

  handle_or_refuse-flow :
      (tokens : ℕ) (id : Bytes) (conn : ℕ) (t : TcpListener Metric)
      → flow (handle_or_refuse parse tokens id conn t) ≡ flow t
  unfolding handle_or_refuse remember
  handle_or_refuse-flow zero id conn t = refl
  handle_or_refuse-flow (suc tokens) id conn t = refl

  see_done-flow :
      (packets : List Bytes) (t : TcpListener Metric) → flow (see_done parse packets t) ≡ flow t
  unfolding see_done
  see_done-flow [] t = refl
  see_done-flow (packet ∷ packets) t = refl

  Turn-IsDelivered :
      {t u : TcpListener Metric} {sent' : List Bytes} {lost' : ℕ} {sent : List Bytes}
      → Turn parse t sent' lost' u
      → IsDelivered sent t
      → IsDelivered (sent ++ sent') u
  unfolding tcp_listen handle_line
  Turn-IsDelivered (connect id conn accepting) d =
      same_flow-IsDelivered (handle_or_refuse-flow _ id conn _) d
  Turn-IsDelivered end_listening d = same_flow-IsDelivered refl d
  Turn-IsDelivered (begin_scan before after id conn at undone) d = same_flow-IsDelivered refl d
  Turn-IsDelivered (line before after id conn text seen at scanned) d =
      let rest = line-IsDelivered _ text seen _ scanned d in
      record {
        taken = rest.taken;
        in_order = rest.in_order;
        parsed = rest.parsed;
        refused = rest.refused;
      }
  Turn-IsDelivered (hand_over before after id conn text at unbuffered empty running some_text) d =
      let rest = handed-IsDelivered text _ empty d in
      record {
        taken = rest.taken;
        in_order = rest.in_order;
        parsed = rest.parsed;
        refused = rest.refused;
      }
  Turn-IsDelivered (end_handler before after handler at over ended) d =
      same_flow-IsDelivered (cleanup-flow handler.id (before ++ after) _ ended) d
  Turn-IsDelivered (parser_takes running) d = take_packet-IsDelivered _ _ refl d
  Turn-IsDelivered (parser_sees_done running over) d = same_flow-IsDelivered (see_done-flow _ _) d
  Turn-IsDelivered (stopped over) d = same_flow-IsDelivered (stop-flow _ over) d

  -- Whatever the interleaving, and whatever the handlers' race for `drops` leaves there, the packets
  -- that were queued, or handed over where there is no buffer, in order, are those that the parser
  -- has taken and then those still in the queue. What the former parse to has been passed on, in
  -- order, and `malformed` counts, in int64 arithmetic, those that do not parse.
  pub Run-IsDelivered :
      (pending connections : ℕ) {lost : ℕ} {sent : List Bytes} {t : TcpListener Metric}
      → Run parse (start parse pending connections) sent lost t
      → IsDelivered sent t
  unfolding start
  Run-IsDelivered pending connections here = record {
    taken = [];
    in_order = refl;
    parsed = refl;
    refused = refl;
  }
  Run-IsDelivered pending connections (next r step) =
      Turn-IsDelivered step (Run-IsDelivered pending connections r)
