-- ===== src/Tests/Servers.antt =====
-- A server that takes a client and forwards its stream.
use yggss.Base.{
  ◌≢◌, ◌≡◌, ◌<◌, refl, true, false, none, List, [], ◌∷◌, Text, codes, text_eq, take, arith, ◌++◌,
  length, ◌≤◌,
}
use yggss.Stream.Peek.{probe_ping, handle_probe_stream, Source, read}
use yggss.Stream.Pipe.{Pipe, into_a, into_b, start_copy, pipe_turn, pipe, Direction, Turn}
use yggss.Identity.{verify_client, accepted}
use yggss.Identity.Pinning.{Trusted}
use yggss.Server.Handler.{
  Handler, peeking, finished, piping, accept_stream, finish, peek, dial, Move, Counters, move,
  after_turn, read_stream, read_answer, buffered, pipe_buf_size,
}
use yggss.Server.System.{
  mesh_tunnel, Server, new_server, verify, add_conn, add_handler, set_handler, move_handler,
  counters, set_counters, conn_of, Step, accepts, opens, peeks, dials, copies, Steps, here, next,
}
use yggss.Server.Forwarding.{IsPrefix}
use yggss.Server.Safety.{served-Trusted}
use yggss.Server.Probes.{probe-unserved, lost_conn-ends, Closed}
use yggss.Server.Queues.{Moves}
use yggss.Server.EndToEnd.{upload-prefix, download-prefix}
use yggss.Server.Delivery.{user-delivered}
use yggss.Server.Refinement.{queues, server_refines}
use yggss.Tests.Starts.{admitting, run, all_ok, started, repeat}
use yggss.Tests.Identities.{parse}

abbrev certs : List Text
certs = repeat 32 170 ∷ []

abbrev sent : Text
sent = codes "hello, server"

abbrev idle : Server
idle = new_server run.allowed

abbrev joined : Server
joined = add_conn mesh_tunnel certs idle

abbrev opened : Server
opened = add_handler (accept_stream 0 sent) joined

abbrev after_peek : Server
after_peek = set_handler 0 (peek 6 (opened.handlers 0)) opened

abbrev after_dial : Server
after_dial = set_handler 0 (dial true (after_peek.handlers 0)) after_peek

abbrev four_bytes : Move
four_bytes = record {
  direction = into_b;
  size = 4;
  answer = [];
  read_err = false;
  write_ok = true;
  wrote = 0;
}

abbrev forwarding : Server
forwarding = move_handler 0 four_bytes after_dial

admitted : verify parse mesh_tunnel run.allowed certs ≡ accepted
unfolding verify verify_client text_eq
admitted = refl

to_after_dial : Steps parse idle after_dial
unfolding new_server add_conn add_handler set_handler
to_after_dial =
    next
      (next
        (next (next here (accepts mesh_tunnel certs admitted)) (opens 0 sent (omega arith) refl))
        (peeks 0 6 (omega arith)))
      (dials 0 true (omega arith))

copying : Step parse after_dial forwarding
unfolding new_server add_conn add_handler set_handler
copying = copies 0 four_bytes (omega arith)

to_forwarding : Steps parse idle forwarding
to_forwarding = next to_after_dial copying

first_bytes : (forwarding.handlers 0).forwarded ≡ codes "he"
unfolding new_server add_conn add_handler set_handler accept_stream peek dial move_handler move
    counters set_counters pipe_turn read_stream buffered pipe_buf_size read_answer after_turn read
    handle_probe_stream text_eq finish
first_bytes = refl

here_0 : 0 < forwarding.next_handler
unfolding new_server add_conn add_handler set_handler move_handler set_counters
here_0 = omega arith

served-Trusted_example :
    Trusted parse admitting.client_key_hex (conn_of 0 forwarding).certs
    × IsPrefix (forwarding.handlers 0).forwarded (forwarding.handlers 0).sent
served-Trusted_example =
    served-Trusted parse all_ok admitting (codes "tls://p:1" ∷ []) run forwarding 0 started
      to_forwarding here_0

server_refines_example : Moves (queues after_dial) (queues forwarding)
server_refines_example =
    server_refines parse run.allowed after_dial forwarding to_after_dial copying

abbrev probed : Server
probed = add_handler (accept_stream 0 (probe_ping ++ codes "12345678")) joined

abbrev answered : Server
answered = set_handler 0 (peek 2 (probed.handlers 0)) probed

to_probed : Steps parse idle probed
unfolding new_server add_conn
to_probed =
    next (next here (accepts mesh_tunnel certs admitted))
      (opens 0 (probe_ping ++ codes "12345678") (omega arith) refl)

waits : (probed.handlers 0).phase ≡ peeking
unfolding new_server add_conn add_handler accept_stream
waits = refl

signed : take 2 (take 2 (probed.handlers 0).sent) ≡ probe_ping
unfolding new_server add_conn add_handler accept_stream
signed = refl

one_handler : 0 < probed.next_handler
unfolding new_server add_conn add_handler
one_handler = omega arith

probe-unserved_example :
    ((answered.handlers 0).phase ≡ finished)
    × ((answered.handlers 0).forwarded ≡ [])
    × ((answered.handlers 0).upstream_open ≡ false)
probe-unserved_example =
    probe-unserved parse run.allowed probed answered 0 2 to_probed one_handler waits signed here

-- What the peek has consumed is not read yet.
abbrev rest : Source
rest = record { prefix = codes "he"; rest = codes "llo, server" }

abbrev copies_both : Pipe
copies_both = record { to_a = start_copy none; to_b = start_copy none }

abbrev busy : Handler
busy = record {
  conn = 0;
  sent = sent;
  forwarded = [];
  phase = piping rest copies_both;
  stream_open = true;
  upstream_open = true;
}

abbrev back_turn : Move
back_turn = record four_bytes { direction = into_a; answer = codes "hi" }

abbrev no_counters : Counters
no_counters = record { rx = none; tx = none }

fits_buffer : length rest.prefix ≤ pipe_buf_size
unfolding pipe_buf_size
fits_buffer = omega arith

lost_conn-ends_example :
    Closed
      (move false back_turn no_counters
        (move false four_bytes no_counters (move false four_bytes no_counters busy).0).0).0
lost_conn-ends_example =
    lost_conn-ends four_bytes four_bytes back_turn no_counters no_counters no_counters rest
      copies_both busy refl fits_buffer refl refl refl

peeking_first : (opened.handlers 0).phase ≡ peeking
unfolding new_server add_conn add_handler accept_stream
peeking_first = refl

alive : (conn_of 0 opened).live ≡ true
unfolding new_server add_conn add_handler accept_stream
alive = refl

no_probe : take 2 (take 6 (opened.handlers 0).sent) ≢ probe_ping
unfolding new_server add_conn add_handler accept_stream
no_probe e = cc

one_opened : 0 < opened.next_handler
unfolding new_server add_conn add_handler
one_opened = omega arith

user-delivered_example :
    (t : Server) × Steps parse (set_handler 0 (peek 6 (opened.handlers 0)) opened) t
    × ((t.handlers 0).forwarded ≡ (opened.handlers 0).sent)
user-delivered_example = user-delivered parse opened 0 6 one_opened peeking_first alive no_probe

-- What the client's `pipe` reads from ss-local.
abbrev uploads : List (Direction × Turn)
uploads =
    (into_a, record { chunk = codes "hello, "; read_err = false; write_ok = true; wrote = 0 })
    ∷ (into_a, record { chunk = codes "server"; read_err = false; write_ok = true; wrote = 0 })
    ∷ (into_a, record { chunk = codes "lost"; read_err = false; write_ok = false; wrote = 0 })
    ∷ []

carried : (forwarding.handlers 0).sent ≡ (pipe none none uploads).to_a.delivered
unfolding new_server add_conn add_handler set_handler accept_stream peek dial move_handler move
    counters set_counters pipe_turn read_stream buffered pipe_buf_size read_answer after_turn read
    handle_probe_stream text_eq finish pipe
carried = refl

upload-prefix_example :
    (lost : Text) × ((forwarding.handlers 0).forwarded ++ lost ≡ codes "hello, serverlost")
upload-prefix_example =
    upload-prefix parse run.allowed forwarding 0 none none uploads to_forwarding carried

-- The client reads what the server has written, and ss-local goes away before the last bytes.
abbrev downloads : List (Direction × Turn)
downloads =
    (into_b, record { chunk = codes "hello, "; read_err = false; write_ok = true; wrote = 0 })
    ∷ (into_b, record { chunk = codes "ser"; read_err = false; write_ok = false; wrote = 0 })
    ∷ []

travels : IsPrefix (codes "hello, ser") (pipe none none uploads).to_a.delivered
unfolding IsPrefix pipe pipe_turn
travels = (codes "ver", refl)

download-prefix_example :
    IsPrefix (pipe none none downloads).to_b.delivered (codes "hello, serverlost")
download-prefix_example = download-prefix none none none none downloads uploads travels
