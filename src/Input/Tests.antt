-- ===== src/Input/Tests.antt =====
-- The input plugins on concrete inputs, and the theorems about them at those inputs.
use vgo.Prelude.{
  ℕ, ◌≡◌, refl, Bytes, codes, equal, Bool, true, false, List, [], ◌∷◌, Option, none, some,
  if◌then◌else◌, ◌==◌, arith, inl,
}
use vgo.Prelude.Int.{ℤ, pos, ◌+ℤ◌}
use vgo.Prelude.Words.{incr}
use vgo.Prelude.Outcome.{panicked}
use vgo.Prelude.Dict.{insert, lookup}
use vgo.Input.Listener.{
  Handler, TcpListener, start, tcp_listen, handle_line, fate, take_packet, drop_warns,
}
use vgo.Input.Listener.Steps.{Run, connect, begin_scan, line, parser_takes, here, next}
use vgo.Input.Listener.Counted.{IsCounted, Run-IsCounted}
use vgo.Input.Listener.Delivery.{IsDelivered, Run-IsDelivered}
use vgo.Input.Listener.Drain.{IsDrained, parser_rounds, parser_rounds-IsDrained}
use vgo.Points.Number.{is_digit}
use vgo.Input.Haproxy.{Measurement, import_row, import_csv_result, gather_columns}
use vgo.Input.Haproxy.Named.{IsNamed, import_row-IsNamed}
use vgo.Input.Processes.{
  output, skip_header, fields_of_bytes, get_empty_fields, gather_from_ps, freebsd, linux, ps_state,
}
use vgo.Input.Processes.Proc.{content, gather_file}
use vgo.Input.Processes.Census.{IsCensus, gather_from_ps-IsCensus, gather_from_ps_panics}

-- A parser: one metric for each packet, but a packet that starts with `!` does not parse.
abbrev toy_parse : Bytes → Option (List ℕ)
toy_parse [] = none
toy_parse (c ∷ packet) = if c == 33 then none else some (c ∷ [])

abbrev one_handler : Bool → Handler
one_handler scanning = record { id = codes "id"; conn = 7; scanning = scanning }

-- One connection with room for one packet: the line `a` is queued, the next one dropped.
abbrev listening_to : Bool → List Bytes → ℤ → List ℕ → TcpListener ℕ
listening_to scanning queue drops gathered = record {
  allowed_pending_messages = 1;
  max_tcp_connections = 1;
  in_queue = queue;
  done = false;
  accept = 0;
  drops = drops;
  malformed = pos 0;
  conns = (codes "id", 7) ∷ [];
  listening = true;
  parsing = true;
  handlers = one_handler scanning ∷ [];
  gathered = gathered;
}

abbrev a_line : Bytes
a_line = codes "a"

-- The second line waits in the handler while the parser takes the first.
busy : Run toy_parse (start toy_parse 1 1) (a_line ∷ []) 1 (listening_to false [] (pos 1) (97 ∷ []))
unfolding start tcp_listen insert fate handle_line take_packet incr ◌+ℤ◌
busy =
    next
      (next
        (next
          (next
            (next (next here (connect (codes "id") 7 refl))
              (begin_scan [] [] (codes "id") 7 refl refl))
            (line [] [] (codes "id") 7 a_line (pos 0) refl refl))
          (begin_scan [] [] (codes "id") 7 refl refl))
        (line [] [] (codes "id") 7 a_line (pos 0) refl refl))
      (parser_takes refl)

Run-IsCounted_example : IsCounted toy_parse 1 1 (listening_to false [] (pos 1) (97 ∷ []))
Run-IsCounted_example = Run-IsCounted toy_parse 1 1 busy

Run-IsDelivered_example :
    IsDelivered toy_parse (a_line ∷ []) (listening_to false [] (pos 1) (97 ∷ []))
Run-IsDelivered_example = Run-IsDelivered toy_parse 1 1 busy

-- Two packets left, one of them malformed.
abbrev full : TcpListener ℕ
full = listening_to false (a_line ∷ codes "!b" ∷ []) (pos 0) []

parser_rounds-IsDrained_example :
    IsDrained toy_parse full
      (parser_rounds toy_parse (true ∷ false ∷ true ∷ true ∷ false ∷ []) full)
parser_rounds-IsDrained_example =
    parser_rounds-IsDrained toy_parse (true ∷ false ∷ true ∷ true ∷ false ∷ [])
      (a_line ∷ codes "!b" ∷ []) full refl refl (omega arith)

-- With no room for pending messages, the second line that is dropped panics.
second_drop : drop_warns 0 (pos 2) ≡ panicked
unfolding drop_warns
second_drop = refl

-- The statistics of a proxy: the session rate is in column 33, the slim column has no field.
import_row-IsNamed_example :
    (m : Measurement) × (import_row
        (codes "h")
        (codes "web" ∷ codes "FRONTEND" ∷ codes "7" ∷ codes "x" ∷ [])
      ≡ some m)
    × IsNamed
        (codes "h")
        (codes "web")
        (codes "FRONTEND")
        (codes "web" ∷ codes "FRONTEND" ∷ codes "7" ∷ codes "x" ∷ [])
        m
import_row-IsNamed_example =
    import_row-IsNamed (codes "h") (codes "web") (codes "FRONTEND") (codes "7" ∷ codes "x" ∷ [])

qcur_read :
    gather_columns 0 (codes "web" ∷ codes "FRONTEND" ∷ codes "7" ∷ codes "x" ∷ []) []
    ≡ (codes "qcur", 7) ∷ []
unfolding gather_columns insert is_digit
qcur_read = refl

-- A short row panics, behind the measurements of the rows before it.
short_row :
    import_csv_result {Error = ℕ}
      (codes "h")
      ((codes "web" ∷ codes "s" ∷ []) ∷ (codes "web" ∷ []) ∷ [])
      none
    ≡ record {
      added =
          record {
            tags =
                (codes "server", codes "h")
                ∷ (codes "proxy", codes "web")
                ∷ (codes "sv", codes "s")
                ∷ [];
            fields = [];
          }
          ∷ [];
      result = none;
    }
unfolding import_csv_result
short_row = refl

gather_from_ps-IsCensus_example :
    IsCensus {Error = ℕ}
      (codes "Ss" ∷ codes "I+" ∷ [])
      (get_empty_fields freebsd)
      (gather_from_ps (output (codes "STAT Ss I+")) (get_empty_fields freebsd))
unfolding skip_header fields_of_bytes get_empty_fields lookup equal ps_state
gather_from_ps-IsCensus_example =
    gather_from_ps-IsCensus (codes "STAT Ss I+") (codes "Ss" ∷ codes "I+" ∷ [])
      (get_empty_fields freebsd) (inl refl) refl refl

-- Linux has no field for idle processes.
gather_from_ps_panics_example :
    gather_from_ps {Error = ℕ} (output (codes "I")) (get_empty_fields linux) ≡ panicked
unfolding skip_header fields_of_bytes get_empty_fields lookup equal ps_state
gather_from_ps_panics_example = gather_from_ps_panics (codes "I") (get_empty_fields linux) refl refl

-- A file that ends in its parenthesis, and one of three words, both panic.
short_files :
    (gather_file {Error = ℕ} (codes "f") (content (codes "1 (x)")) [] ≡ panicked)
    × (gather_file {Error = ℕ} (codes "f") (content (codes "1 (x) S 1 2")) (get_empty_fields linux)
        ≡ panicked)
unfolding gather_file get_empty_fields lookup equal insert
short_files = (refl, refl)
