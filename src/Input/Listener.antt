-- ===== src/Input/Listener.antt =====
-- mecury/plugins/input/tcp_listener/tcp_listener.go: the state that its goroutines share, and what
-- each of them does in one round of its loop. The parser of the packets is a parameter, which
-- returns `none` for an error; a connection is a number. The logged warnings are left out, but for
-- the test that guards the one on drops, which can panic. `t.drops++` of
-- a handler writes one more than a value that it has read, which may be out of date by then. A
-- negative size in the configuration is not modelled.
pub mod Steps
pub mod Queue
pub mod Taken
pub mod Counted
pub mod Delivery
pub mod Drain
use vgo.Prelude.{
  ℕ, zero, suc, ◌+◌, ◌%◌, Bytes, Bool, true, false, not, ◌&&◌, ◌||◌, ◌==◌, List, [], ◌∷◌, ◌++◌,
  Option, none, some, ltb, if◌then◌else◌, length,
}
use vgo.Prelude.Dict.{Dict, insert, delete}
use vgo.Prelude.Int.{ℤ, pos, negsuc}
use vgo.Prelude.Words.{incr}
use vgo.Prelude.Outcome.{Outcome, returned, panicked, then_call}

-- A goroutine of `handler`: before the select of its loop, or in `scanner.Scan()`.
pub record Handler : Type 0 where
  pub id : Bytes
  pub conn : ℕ
  pub scanning : Bool

-- The fields of TcpListener, the goroutines, and what has been passed to `acc.AddFields`.
pub record TcpListener (Metric : Type 0) : Type 0 where
  pub allowed_pending_messages : ℕ
  pub max_tcp_connections : ℕ
  pub in_queue : List Bytes
  pub done : Bool
  pub accept : ℕ
  pub drops : ℤ
  pub malformed : ℤ
  pub conns : Dict ℕ
  pub listening : Bool
  pub parsing : Bool
  pub handlers : List Handler
  pub gathered : List Metric

-- What becomes of a scanned line.
pub data Fate : Type 0 where
  blank : Fate
  queued : Fate
  dropped : Fate

-- `t.drops % t.AllowedPendingMessages == 0`, for a divisor that is not zero.
unfoldable pub divides : ℕ → ℤ → Bool
divides d (pos n) = n % d == 0
divides d (negsuc n) = suc n % d == 0

-- `t.drops == 1 || t.drops%t.AllowedPendingMessages == 0`.
unfoldable pub drop_warns : ℕ → ℤ → Outcome Bool
unfolding divides
drop_warns allowed (pos (suc zero)) = returned true
drop_warns zero d = panicked
drop_warns (suc n) d = returned (divides (suc n) d)

module _ {Metric : Type 0} (parse : Bytes → Option (List Metric)) where
  -- The loop of Start that fills `accept`.
  unfoldable pub fill_accept : ℕ → ℕ → ℕ
  fill_accept zero tokens = tokens
  fill_accept (suc n) tokens = fill_accept n (suc tokens)

  -- `Start`, for an address that can be listened on.
  unfoldable pub start : ℕ → ℕ → TcpListener Metric
  unfolding fill_accept
  start pending connections = record {
    allowed_pending_messages = pending;
    max_tcp_connections = connections;
    in_queue = [];
    done = false;
    accept = fill_accept connections 0;
    drops = pos 0;
    malformed = pos 0;
    conns = [];
    listening = true;
    parsing = true;
    handlers = [];
    gathered = [];
  }

  unfoldable pub remember : Bytes → ℕ → TcpListener Metric → TcpListener Metric
  remember id conn t = record t { conns = insert id conn t.conns }

  unfoldable pub forget : Bytes → TcpListener Metric → TcpListener Metric
  forget id t = record t { conns = delete id t.conns }

  -- `tcpListen` on an accepted connection and a random id: a handler, or the refuser, which
  -- changes nothing.
  unfoldable pub handle_or_refuse : ℕ → Bytes → ℕ → TcpListener Metric → TcpListener Metric
  unfolding remember
  handle_or_refuse zero id conn t = t
  handle_or_refuse (suc tokens) id conn t = remember id conn (record t {
    accept = tokens;
    handlers = record { id = id; conn = conn; scanning = false } ∷ t.handlers;
  })

  unfoldable pub tcp_listen : Bytes → ℕ → TcpListener Metric → TcpListener Metric
  unfolding handle_or_refuse
  tcp_listen id conn t = handle_or_refuse t.accept id conn t

  -- The select of `handler` on a line that `scanner.Scan()` has found.
  unfoldable pub fate : TcpListener Metric → Bytes → Fate
  fate t [] = blank
  fate t (c ∷ line) = if ltb (length t.in_queue) t.allowed_pending_messages then queued else dropped

  -- Its effects; `seen` is what the handler has read of `t.drops`, which no lock guards.
  unfoldable pub deliver :
      Fate → Bytes → (seen : ℤ) → TcpListener Metric → Outcome (TcpListener Metric)
  unfolding drop_warns
  deliver blank line seen t = returned t
  deliver queued line seen t = returned (record t { in_queue = t.in_queue ++ line ∷ [] })
  deliver dropped line seen t =
      let drops = incr seen in
      then_call (drop_warns t.allowed_pending_messages drops)
        (λ warns. returned (record t { drops = drops }))

  unfoldable pub handle_line :
      Bytes → (seen : ℤ) → TcpListener Metric → Outcome (TcpListener Metric)
  unfolding fate deliver
  handle_line line seen t = deliver (fate t line) line seen t

  -- The deferred cleanup of `handler`, where the list of the others is given. `none` if the
  -- handler would wait for ever to give its token back.
  unfoldable pub cleanup : Bytes → List Handler → TcpListener Metric → Option (TcpListener Metric)
  unfolding forget
  cleanup id others t =
      if ltb t.accept t.max_tcp_connections
      then some (forget id (record t { accept = suc t.accept; handlers = others }))
      else none

  -- `tcpParser` on a packet.
  unfoldable pub parsed_into : Option (List Metric) → TcpListener Metric → TcpListener Metric
  parsed_into (some metrics) t = record t { gathered = t.gathered ++ metrics }
  parsed_into none t = record t { malformed = incr t.malformed }

  unfoldable pub parse_packet : Bytes → TcpListener Metric → TcpListener Metric
  unfolding parsed_into
  parse_packet [] t = t
  parse_packet (c ∷ packet) t = parsed_into (parse (c ∷ packet)) t

  -- The cases of the select of `tcpParser`: `done` is closed, or there is a packet.
  unfoldable pub see_done : List Bytes → TcpListener Metric → TcpListener Metric
  see_done [] t = record t { parsing = false }
  see_done (packet ∷ packets) t = t

  unfoldable pub take_packet : List Bytes → TcpListener Metric → TcpListener Metric
  unfolding parse_packet
  take_packet [] t = t
  take_packet (packet ∷ packets) t = parse_packet packet (record t { in_queue = packets })

  -- `Stop` up to `wg.Wait()`: the connections that it closes. Closing `done` twice panics.
  unfoldable pub connections : Dict ℕ → List ℕ
  connections [] = []
  connections ((id, conn) ∷ conns) = conn ∷ connections conns

  unfoldable pub stop : TcpListener Metric → Outcome (TcpListener Metric × List ℕ)
  unfolding connections
  stop t = if t.done then panicked else returned (record t { done = true }, connections t.conns)
