-- ===== src/Input/Listener/Taken.antt =====
-- mecury/plugins/input/tcp_listener/tcp_listener.go: what `tcpParser` makes of a packet.
use vgo.Prelude.{
  ℕ, zero, suc, ◌+◌, ◌≡◌, refl, ap, sym, ◌∙◌, Bytes, Bool, List, [], ◌∷◌, ◌++◌, append-nil, Option,
  none, some, arith,
}
use vgo.Prelude.Int.{ℤ, pos}
use vgo.Prelude.Words.{incr}
use vgo.Input.Listener.{TcpListener, parsed_into, parse_packet}

-- `n` increments of an `int` from zero.
abbrev pub counted : ℕ → ℤ
counted zero = pos 0
counted (suc n) = incr (counted n)

module _ {Metric : Type 0} (parse : Bytes → Option (List Metric)) where
  -- What a packet parses to, and whether it does not parse. Nothing is done with an empty one.
  abbrev pub parsed_of : Option (List Metric) → List Metric
  parsed_of (some metrics) = metrics
  parsed_of none = []

  abbrev pub malformed_of : Option (List Metric) → ℕ
  malformed_of (some metrics) = 0
  malformed_of none = 1

  abbrev pub packet_metrics : Bytes → List Metric
  packet_metrics [] = []
  packet_metrics (c ∷ packet) = parsed_of (parse (c ∷ packet))

  abbrev pub packet_malformed : Bytes → ℕ
  packet_malformed [] = 0
  packet_malformed (c ∷ packet) = malformed_of (parse (c ∷ packet))

  abbrev pub metrics_in : List Bytes → List Metric
  metrics_in [] = []
  metrics_in (packet ∷ packets) = packet_metrics packet ++ metrics_in packets

  abbrev pub malformed_in : List Bytes → ℕ
  malformed_in [] = 0
  malformed_in (packet ∷ packets) = packet_malformed packet + malformed_in packets

  -- A packet that has left the queue.
  parsed_into-gathered :
      (r : Option (List Metric)) (t : TcpListener Metric)
      → (parsed_into parse r t).gathered ≡ t.gathered ++ parsed_of r
  unfolding parsed_into
  parsed_into-gathered none t = sym (append-nil t.gathered)
  parsed_into-gathered (some metrics) t = refl

  parsed_into-malformed :
      (r : Option (List Metric)) (t : TcpListener Metric) (n : ℕ)
      → t.malformed ≡ counted n
      → (parsed_into parse r t).malformed ≡ counted (n + malformed_of r)
  unfolding parsed_into
  parsed_into-malformed none t n e = ap incr e ∙ ap counted {x = suc n} {y = n + 1} (omega arith)
  parsed_into-malformed (some metrics) t n e = e ∙ ap counted (omega arith)

  abbrev untouched : TcpListener Metric → List Bytes × ℤ × Bool
  untouched t = (t.in_queue, t.drops, t.parsing)

  parsed_into-kept :
      (r : Option (List Metric)) (t : TcpListener Metric)
      → untouched (parsed_into parse r t) ≡ untouched t
  unfolding parsed_into
  parsed_into-kept none t = refl
  parsed_into-kept (some metrics) t = refl

  pub record Took (packet : Bytes) (t u : TcpListener Metric) : Type 0 where
    pub gathers : u.gathered ≡ t.gathered ++ packet_metrics packet
    pub refuses :
        (n : ℕ) → t.malformed ≡ counted n → u.malformed ≡ counted (n + packet_malformed packet)
    pub keeps_queue : u.in_queue ≡ t.in_queue
    pub keeps_drops : u.drops ≡ t.drops
    pub keeps_parsing : u.parsing ≡ t.parsing

  pub parse_packet-Took :
      (packet : Bytes) (t : TcpListener Metric) → Took packet t (parse_packet parse packet t)
  unfolding parse_packet
  parse_packet-Took [] t = record {
    gathers = sym (append-nil t.gathered);
    refuses = λ n e. e ∙ ap counted (omega arith);
    keeps_queue = refl;
    keeps_drops = refl;
    keeps_parsing = refl;
  }
  parse_packet-Took (c ∷ packet) t =
      let kept = parsed_into-kept (parse (c ∷ packet)) t in
      record {
        gathers = parsed_into-gathered (parse (c ∷ packet)) t;
        refuses = parsed_into-malformed (parse (c ∷ packet)) t;
        keeps_queue = ap (λ k. k.0) kept;
        keeps_drops = ap (λ k. k.1) kept;
        keeps_parsing = ap (λ k. k.2) kept;
      }
