-- ===== src/Server/System.antt =====
-- The server as a whole: `Run` and `handleConn` of internal/yggss/tunnel.go, `startDirectServer` and
-- `serveDirectConn` of internal/yggss/direct.go. Goroutines are interleaved step by step.
use yggss.Base.{ℕ, suc, ◌<◌, ◌≡◌, Bool, true, false, Option, none, some, List, [], Text, put}
use yggss.Stream.Pipe.{TunnelCounters}
use yggss.Identity.{PublicKey, Verdict, accepted, verify_client, verify_direct_client}
use yggss.Server.Handler.{Handler, accept_stream, peek, dial, Move, move, Counters, finish}

pub data Channel : Type 0 where
  mesh_tunnel direct_tunnel : Channel

pub record Conn : Type 0 where
  pub channel : Channel
  pub certs : List Text
  pub live : Bool

-- `server`, with the connections and handlers of both listeners, numbered as they come.
pub record Server : Type 0 where
  pub allowed : Option (List Text)
  pub rx : TunnelCounters
  pub tx : TunnelCounters
  pub next_conn : ℕ
  pub next_handler : ℕ
  pub conns : ℕ → Conn
  pub handlers : ℕ → Handler

abbrev no_conn : Conn
no_conn = record { channel = mesh_tunnel; certs = []; live = false }

-- The place of a handler that has not come yet.
unfoldable pub nobody : Handler
unfolding accept_stream finish
nobody = finish (accept_stream 0 [])

-- `NewServer` (internal/yggss/api.go), before anybody has connected.
unfoldable pub new_server : Option (List Text) → Server
new_server allowed = record {
  allowed = allowed;
  rx = record { rx = 0; tx = 0 };
  tx = record { rx = 0; tx = 0 };
  next_conn = 0;
  next_handler = 0;
  conns = λ i. no_conn;
  handlers = λ i. nobody;
}

-- The check of the certificate during the handshake, on either listener.
unfoldable pub verify :
    (Text → Option PublicKey) → Channel → Option (List Text) → List Text → Verdict
verify parse mesh_tunnel allowed certs = verify_client parse allowed certs
verify parse direct_tunnel allowed certs = verify_direct_client parse allowed certs

unfoldable pub add_conn : Channel → List Text → Server → Server
add_conn ch certs s = record s {
  next_conn = suc s.next_conn;
  conns = put s.next_conn (record { channel = ch; certs = certs; live = true }) s.conns;
}

unfoldable pub lose_conn : ℕ → Server → Server
lose_conn c s = record s { conns = put c (record (s.conns c) { live = false }) s.conns }

unfoldable pub add_handler : Handler → Server → Server
add_handler h s = record s {
  next_handler = suc s.next_handler;
  handlers = put s.next_handler h s.handlers;
}

unfoldable pub set_handler : ℕ → Handler → Server → Server
set_handler i h s = record s { handlers = put i h s.handlers }

-- The counters that `pipe` is given: `&s.rx, &s.tx`, or `nil, nil` in `serveDirectConn`.
unfoldable pub counters : Channel → Server → Counters
counters mesh_tunnel s = record { rx = some s.rx; tx = some s.tx }
counters direct_tunnel s = record { rx = none; tx = none }

abbrev or_else : TunnelCounters → Option TunnelCounters → TunnelCounters
or_else old none = old
or_else old (some new) = new

unfoldable pub set_counters : Counters → Server → Server
set_counters n s = record s { rx = or_else s.rx n.rx; tx = or_else s.tx n.tx }

abbrev pub conn_of : ℕ → Server → Conn
conn_of i s = s.conns (s.handlers i).conn

unfoldable pub move_handler : ℕ → Move → Server → Server
unfolding counters set_counters set_handler
move_handler i m s =
    let (h, n) = move (conn_of i s).live m (counters (conn_of i s).channel s) (s.handlers i) in
    set_counters n (set_handler i h s)

-- What may happen next. `Accept` gives only connections whose handshake has succeeded, and
-- `AcceptStream` only streams of a connection that is alive.
pub data Step (parse : Text → Option PublicKey) (s : Server) : Server → Type 0 where
  accepts :
      (ch : Channel) (certs : List Text)
      → verify parse ch s.allowed certs ≡ accepted
      → Step parse s (add_conn ch certs s)
  opens :
      (c : ℕ) (sent : Text)
      → c < s.next_conn
      → (s.conns c).live ≡ true
      → Step parse s (add_handler (accept_stream c sent) s)
  peeks : (i k : ℕ) → i < s.next_handler → Step parse s (set_handler i (peek k (s.handlers i)) s)
  dials :
      (i : ℕ) (ok : Bool)
      → i < s.next_handler
      → Step parse s (set_handler i (dial ok (s.handlers i)) s)
  copies : (i : ℕ) (m : Move) → i < s.next_handler → Step parse s (move_handler i m s)
  loses : (c : ℕ) → Step parse s (lose_conn c s)

pub data Steps (parse : Text → Option PublicKey) (s : Server) : Server → Type 0 where
  here : Steps parse s s
  next : {t u : Server} → Steps parse s t → Step parse t u → Steps parse s u
