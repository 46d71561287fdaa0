-- ===== src/Input/Listener/Steps.antt =====
-- mecury/plugins/input/tcp_listener/tcp_listener.go: the goroutines of a listener interleaved. A step
-- is one round of one of the loops, and any of them may come next.
use vgo.Prelude.{
  ℕ, ◌<◌, length, ◌+◌, ◌≡◌, ◌⊎◌, Bytes, true, false, List, [], ◌∷◌, ◌++◌, Option, some,
}
use vgo.Prelude.Outcome.{returned}
use vgo.Input.Listener.{
  Handler, TcpListener, Fate, queued, dropped, tcp_listen, fate, handle_line, cleanup, see_done,
  take_packet, parse_packet, stop,
}
use vgo.Prelude.Int.{ℤ}

-- What a scanned line adds to the packets of the queue, and to those that were dropped.
abbrev pub queued_of : Fate → Bytes → List Bytes
queued_of queued line = line ∷ []
queued_of _ line = []

abbrev pub dropped_of : Fate → ℕ
dropped_of dropped = 1
dropped_of _ = 0

module _ {Metric : Type 0} (parse : Bytes → Option (List Metric)) where
  -- A handler in the list, with another in its place.
  abbrev pub with_handlers :
      TcpListener Metric → List Handler → Handler → List Handler → TcpListener Metric
  with_handlers t before h after = record t { handlers = before ++ h ∷ after }

  -- A step, with the packet that it queues or hands over and the number of lines that it drops.
  -- The `seen` of a line is any value: the handlers race for `t.drops`.
  pub data Turn (t : TcpListener Metric) : List Bytes → ℕ → TcpListener Metric → Type 0 where
    connect :
        (id : Bytes) (conn : ℕ) → t.listening ≡ true → Turn t [] 0 (tcp_listen parse id conn t)
    end_listening : Turn t [] 0 (record t { listening = false })
    begin_scan :
        (before after : List Handler) (id : Bytes) (conn : ℕ)
        → t.handlers ≡ before ++ record { id = id; conn = conn; scanning = false } ∷ after
        → t.done ≡ false
        → Turn t [] 0
            (with_handlers t before (record { id = id; conn = conn; scanning = true }) after)
    line :
        (before after : List Handler) (id : Bytes) (conn : ℕ) (text : Bytes) (seen : ℤ)
        {u : TcpListener Metric}
        → t.handlers ≡ before ++ record { id = id; conn = conn; scanning = true } ∷ after
        → handle_line parse text seen t ≡ returned u
        → Turn t
            (queued_of (fate parse t text) text)
            (dropped_of (fate parse t text))
            (with_handlers u before (record { id = id; conn = conn; scanning = false }) after)
    -- Without a buffer a parser that waits for a packet takes the line at once.
    hand_over :
        (before after : List Handler) (id : Bytes) (conn : ℕ) (text : Bytes)
        → t.handlers ≡ before ++ record { id = id; conn = conn; scanning = true } ∷ after
        → t.allowed_pending_messages ≡ 0
        → t.in_queue ≡ []
        → t.parsing ≡ true
        → 0 < length text
        → Turn t (text ∷ []) 0 (
            with_handlers
              (parse_packet parse text t)
              before
              (record { id = id; conn = conn; scanning = false })
              after)
    end_handler :
        (before after : List Handler) (h : Handler) {u : TcpListener Metric}
        → t.handlers ≡ before ++ h ∷ after
        → (h.scanning ≡ true) ⊎ (t.done ≡ true)
        → cleanup parse h.id (before ++ after) t ≡ some u
        → Turn t [] 0 u
    parser_takes : t.parsing ≡ true → Turn t [] 0 (take_packet parse t.in_queue t)
    parser_sees_done : t.parsing ≡ true → t.done ≡ true → Turn t [] 0 (see_done parse t.in_queue t)
    stopped :
        {u : TcpListener Metric} {closed : List ℕ}
        → stop parse t ≡ returned (u, closed)
        → Turn t [] 0 u

  -- The states after any number of steps, with all the packets that were queued or handed over, in order, and the
  -- number of lines that were dropped.
  pub data Run (s : TcpListener Metric) : List Bytes → ℕ → TcpListener Metric → Type 0 where
    here : Run s [] 0 s
    next :
        {t u : TcpListener Metric} {sent sent' : List Bytes} {lost lost' : ℕ}
        → Run s sent lost t
        → Turn t sent' lost' u
        → Run s (sent ++ sent') (lost + lost') u
