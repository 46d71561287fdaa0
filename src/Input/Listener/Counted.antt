-- ===== src/Input/Listener/Counted.antt =====
-- mecury/plugins/input/tcp_listener/tcp_listener.go: the bounds that the two channels and the map of
-- a listener keep.
use vgo.Prelude.{
  ℕ, zero, suc, ◌+◌, ◌≤◌, ◌≡◌, refl, ap, ◌∙◌, Bytes, List, ◌∷◌, ◌++◌, Option, some, arith, length,
  length-append, subst, ltb, if_some_inj,
}
use vgo.Input.Listener.{
  Handler, TcpListener, start, fill_accept, tcp_listen, handle_or_refuse, remember, forget, cleanup,
}
use vgo.Input.Listener.Steps.{
  Turn, Run, with_handlers, connect, end_listening, begin_scan, line, hand_over, end_handler,
  parser_takes, parser_sees_done, stopped, here, next,
}
use vgo.Input.Listener.Queue.{
  WithinQueue, handle_line-WithinQueue, parse_packet-WithinQueue, take_packet-WithinQueue,
  see_done-WithinQueue, stop-WithinQueue,
}

module _ {Metric : Type 0} (parse : Bytes → Option (List Metric)) where
  -- Each token is in `accept` or held by a handler, and the queue is within its capacity.
  pub record IsCounted (pending connections : ℕ) (t : TcpListener Metric) : Type 0 where
    pub pending_kept : t.allowed_pending_messages ≡ pending
    pub connections_kept : t.max_tcp_connections ≡ connections
    pub tokens : t.accept + length t.handlers ≡ connections
    pub queue_fits : length t.in_queue ≤ pending

  fill_accept-eq : (n tokens : ℕ) → fill_accept parse n tokens ≡ n + tokens
  unfolding fill_accept
  fill_accept-eq zero tokens = omega arith
  fill_accept-eq (suc n) tokens = omega (arith, fill_accept-eq n (suc tokens))

  start-IsCounted :
      (pending connections : ℕ) → IsCounted pending connections (start parse pending connections)
  unfolding start
  start-IsCounted pending connections = record {
    pending_kept = refl;
    connections_kept = refl;
    tokens = omega (arith, fill_accept-eq connections 0);
    queue_fits = omega arith;
  }

  handle_or_refuse-IsCounted :
      (tokens pending connections : ℕ) (id : Bytes) (conn : ℕ) (t : TcpListener Metric)
      → t.accept ≡ tokens
      → IsCounted pending connections t
      → IsCounted pending connections (handle_or_refuse parse tokens id conn t)
  unfolding handle_or_refuse remember
  handle_or_refuse-IsCounted zero pending connections id conn t e h = h
  handle_or_refuse-IsCounted (suc tokens) pending connections id conn t e h = record {
    pending_kept = h.pending_kept;
    connections_kept = h.connections_kept;
    tokens = omega (arith, h.tokens, e);
    queue_fits = h.queue_fits;
  }

  WithinQueue-IsCounted :
      {t u : TcpListener Metric} {pending connections : ℕ}
      → WithinQueue parse t u
      → IsCounted pending connections t
      → IsCounted pending connections u
  WithinQueue-IsCounted w h =
      let pending = ap (λ c. c.0) w.same in
      record {
        pending_kept = pending ∙ h.pending_kept;
        connections_kept = ap (λ c. c.1) w.same ∙ h.connections_kept;
        tokens = ap (λ c. c.2 + length c.3) w.same ∙ h.tokens;
        queue_fits = omega (arith, w.fits, pending, h.pending_kept);
      }

  IsCounted-within :
      {pending connections : ℕ} {t : TcpListener Metric}
      → IsCounted pending connections t
      → length t.in_queue ≤ t.allowed_pending_messages
  IsCounted-within h = omega (arith, h.queue_fits, h.pending_kept)

  length-middle :
      (before after : List Handler) (h : Handler)
      → length (before ++ h ∷ after) ≡ suc (length before + length after)
  length-middle before after h = omega (arith, length-append before (h ∷ after))

  -- One handler in the place of another.
  with_handlers-IsCounted :
      {pending connections : ℕ} (t : TcpListener Metric) (before after : List Handler)
      (old new : Handler)
      → t.handlers ≡ before ++ old ∷ after
      → IsCounted pending connections t
      → IsCounted pending connections (with_handlers parse t before new after)
  with_handlers-IsCounted t before after old new at h = record {
    pending_kept = h.pending_kept;
    connections_kept = h.connections_kept;
    tokens = omega (
      arith,
      h.tokens,
      ap length at,
      length-middle before after old,
      length-middle before after new,
    );
    queue_fits = h.queue_fits;
  }

  cleanup-IsCounted :
      {pending connections : ℕ} (t : TcpListener Metric) {u : TcpListener Metric}
      (before after : List Handler) (h : Handler)
      → t.handlers ≡ before ++ h ∷ after
      → cleanup parse h.id (before ++ after) t ≡ some u
      → IsCounted pending connections t
      → IsCounted pending connections u
  unfolding cleanup forget
  cleanup-IsCounted {pending = pending} {connections = connections} t before after h at ended
        counted =
      subst (IsCounted pending connections) (if_some_inj (ltb t.accept t.max_tcp_connections) ended)
        (record {
          pending_kept = counted.pending_kept;
          connections_kept = counted.connections_kept;
          tokens = omega (
            arith,
            counted.tokens,
            ap length at,
            length-middle before after h,
            length-append before after,
          );
          queue_fits = counted.queue_fits;
        })

  Turn-IsCounted :
      {pending connections : ℕ} {t u : TcpListener Metric} {sent : List Bytes} {lost : ℕ}
      → Turn parse t sent lost u
      → IsCounted pending connections t
      → IsCounted pending connections u
  unfolding tcp_listen
  Turn-IsCounted (connect id conn accepting) h = handle_or_refuse-IsCounted _ _ _ id conn _ refl h
  Turn-IsCounted end_listening h = record {
    pending_kept = h.pending_kept;
    connections_kept = h.connections_kept;
    tokens = h.tokens;
    queue_fits = h.queue_fits;
  }
  Turn-IsCounted (begin_scan before after id conn at undone) h =
      with_handlers-IsCounted _ before after _ _ at h
  Turn-IsCounted (line before after id conn text seen at scanned) h =
      let w = handle_line-WithinQueue parse text seen _ scanned (IsCounted-within h) in
      with_handlers-IsCounted _ before after _ _ (ap (λ c. c.3) w.same ∙ at)
        (WithinQueue-IsCounted w h)
  Turn-IsCounted (hand_over before after id conn text at unbuffered empty running some_text) h =
      let w = parse_packet-WithinQueue parse text _ (IsCounted-within h) in
      with_handlers-IsCounted _ before after _ _ (ap (λ c. c.3) w.same ∙ at)
        (WithinQueue-IsCounted w h)
  Turn-IsCounted (end_handler before after handler at over ended) h =
      cleanup-IsCounted _ before after handler at ended h
  Turn-IsCounted (parser_takes running) h =
      WithinQueue-IsCounted (take_packet-WithinQueue parse _ _ refl (IsCounted-within h)) h
  Turn-IsCounted (parser_sees_done running over) h =
      WithinQueue-IsCounted (see_done-WithinQueue parse _ _ (IsCounted-within h)) h
  Turn-IsCounted (stopped over) h =
      WithinQueue-IsCounted (stop-WithinQueue parse _ over (IsCounted-within h)) h

  -- In every state that a listener reaches, the tokens of `accept` and the running handlers are
  -- together as many as the configured connections, and the queue is within its capacity.
  pub Run-IsCounted :
      (pending connections : ℕ) {lost : ℕ} {sent : List Bytes} {t : TcpListener Metric}
      → Run parse (start parse pending connections) sent lost t
      → IsCounted pending connections t
  Run-IsCounted pending connections here = start-IsCounted pending connections
  Run-IsCounted pending connections (next r step) =
      Turn-IsCounted step (Run-IsCounted pending connections r)
