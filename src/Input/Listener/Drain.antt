-- ===== src/Input/Listener/Drain.antt =====
-- mecury/plugins/input/tcp_listener/tcp_listener.go: what the parser does once `done` is closed.
use vgo.Prelude.{
  ℕ, suc, ◌<◌, ◌≡◌, refl, sym, subst, ◌∙◌, Bytes, Bool, true, false, List, [], ◌∷◌, ◌++◌,
  append-nil, append_assoc, Option, arith, length, if◌then◌else◌,
}
use vgo.Input.Listener.{TcpListener, see_done, take_packet, parse_packet}
use vgo.Input.Listener.Taken.{metrics_in, parse_packet-Took}

-- How often the select of the parser chooses a packet.
abbrev pub packets_chosen : List Bool → ℕ
packets_chosen [] = 0
packets_chosen (true ∷ choices) = suc (packets_chosen choices)
packets_chosen (false ∷ choices) = packets_chosen choices

module _ {Metric : Type 0} (parse : Bytes → Option (List Metric)) where
  -- A round of `tcpParser` when `done` is closed: the select has a choice only if there is a packet.
  unfoldable pub parser_round : Bool → List Bytes → TcpListener Metric → TcpListener Metric
  parser_round choice [] t = see_done parse [] t
  parser_round true (packet ∷ packets) t = take_packet parse (packet ∷ packets) t
  parser_round false (packet ∷ packets) t = see_done parse (packet ∷ packets) t

  unfoldable pub parser_rounds : List Bool → TcpListener Metric → TcpListener Metric
  unfolding parser_round
  parser_rounds [] t = t
  parser_rounds (choice ∷ choices) t =
      if t.parsing then parser_rounds choices (parser_round choice t.in_queue t) else t

  -- The parser has returned, with nothing left in the queue.
  pub record IsDrained (before after : TcpListener Metric) : Type 0 where
    pub ended : after.parsing ≡ false
    pub emptied : after.in_queue ≡ []
    pub passed_on : after.gathered ≡ before.gathered ++ metrics_in parse before.in_queue

  ended_stays :
      (choices : List Bool) (t : TcpListener Metric)
      → t.parsing ≡ false
      → parser_rounds choices t ≡ t
  unfolding parser_rounds
  ended_stays [] t e = refl
  ended_stays (choice ∷ choices) t e = rw e refl

  round-eq :
      (choice : Bool) (choices : List Bool) (queue : List Bytes) (t : TcpListener Metric)
      → t.in_queue ≡ queue
      → t.parsing ≡ true
      → parser_rounds (choice ∷ choices) t ≡ parser_rounds choices (parser_round choice queue t)
  unfolding parser_rounds
  round-eq choice choices queue t e running = rw (running, e) refl

  -- Once `done` is closed and nothing more is queued, the parser returns, provided that its select
  -- chooses a packet more often than there are packets in the queue, in whatever order it chooses.
  -- It leaves the queue empty, and has passed on what all its packets parse to, in order.
  pub parser_rounds-IsDrained :
      (choices : List Bool) (queue : List Bytes) (t : TcpListener Metric)
      → t.in_queue ≡ queue
      → t.parsing ≡ true
      → length queue < packets_chosen choices
      → IsDrained t (parser_rounds choices t)
  unfolding parser_rounds parser_round see_done take_packet
  parser_rounds-IsDrained [] queue t e running enough = absurd (omega (arith, enough))
  parser_rounds-IsDrained (choice ∷ choices) [] t e running enough =
      let ended = record t { parsing = false } in
      let same = round-eq choice choices [] t e running ∙ ended_stays choices ended refl in
      subst (λ u. IsDrained t u) (sym same)
        (record { ended = refl; emptied = e; passed_on = rw (e, append-nil) refl })
  parser_rounds-IsDrained (true ∷ choices) (packet ∷ packets) t e running enough =
      let rest = record t { in_queue = packets } in
      let took = parse_packet-Took parse packet rest in
      let drained =
        parser_rounds-IsDrained choices packets (parse_packet parse packet rest) took.keeps_queue
          (took.keeps_parsing ∙ running) (omega (arith, enough)) in
      subst (λ u. IsDrained t u) (sym (round-eq true choices (packet ∷ packets) t e running))
        (record {
          ended = drained.ended;
          emptied = drained.emptied;
          passed_on = rw (drained.passed_on, took.gathers, took.keeps_queue, e, append_assoc) refl;
        })
  parser_rounds-IsDrained (false ∷ choices) (packet ∷ packets) t e running enough =
      let drained = parser_rounds-IsDrained choices (packet ∷ packets) t e running enough in
      subst (λ u. IsDrained t u) (sym (round-eq false choices (packet ∷ packets) t e running))
        drained
