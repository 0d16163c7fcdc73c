-- ===== src/Tunnel/State.antt =====
-- The state of the client side: the structs `client` (internal/yggss/tunnel.go), `directClient`
-- (internal/yggss/direct.go) and the variables of the prober's goroutine, with the connections
-- that they share. Times and durations are nanoseconds; time 0 is Go's zero `time.Time`.
pub use yggss.Base.{put}
use yggss.Base.{ℕ, ◌+◌, Bool, true, false, Option, ℤ}

-- `directPathState`.
pub data PathState : Type 0 where
  mesh_only h2h3 mesh_probing mesh_fallback : PathState

-- Connections are numbered by dial. The n-th direct dial makes the QUIC connection n and the
-- transport n that owns it; a mesh dial makes a connection only.
pub record Net : Type 0 where
  pub next : ℕ
  -- The connections whose `Context()` is not done.
  pub live : ℕ → Bool
  -- The direct transports that are not closed.
  pub transports : ℕ → Bool
  -- How many UDP sockets are open: `ListenUDP` opens one for a transport, and nothing closes it, since
  -- `Transport.Close` leaves open a connection that it was given.
  pub sockets : ℕ
  -- The `watchConn` and `watchMeshConn` goroutines that wait for a connection to close.
  pub direct_watch : ℕ → Bool
  pub mesh_watch : ℕ → Bool

-- `directClient`, less its addresses and keys. `owner` is nil or the client of the same tunnel.
pub record Direct : Type 0 where
  pub has_node : Bool
  pub retry_period : ℤ
  pub qconn : Option ℕ
  pub tr : Option ℕ
  pub fail_until : ℕ
  pub has_owner : Bool
  pub probe_rtt : ℕ
  pub verified_until : ℕ
  pub probe_stop : Bool
  pub probe_active : Bool

-- `client`, less its addresses, keys and traffic counters.
pub record Client : Type 0 where
  pub has_node : Bool
  pub has_tr : Bool
  pub has_direct : Bool
  pub timeout : ℤ
  pub probe_state : PathState
  pub last_active : ℕ
  pub qconn : Option ℕ

-- The local variables of the prober's goroutine: which of the three channels are not nil.
pub record Prober : Type 0 where
  pub running : Bool
  pub timer_c : Bool
  pub unverified_c : Bool
  pub verified_c : Bool
  pub fail_streak : ℕ

pub record Tunnel : Type 0 where
  pub client : Client
  pub direct : Direct
  pub prober : Prober
  pub net : Net

-- `CloseWithError` on a connection, and also its end by the peer or by a timeout.
abbrev pub close_conn : ℕ → Net → Net
close_conn c n = record n { live = put c false n.live }

-- `Transport.Close`, which leaves the UDP socket open.
abbrev pub close_tr : ℕ → Net → Net
close_tr c n = record n { transports = put c false n.transports }

-- The UDP socket and the transport of the dial that is next.
abbrev pub open_socket : Net → Net
open_socket n = record n { transports = put n.next true n.transports; sockets = n.sockets + 1 }

-- The connection of the dial that is next.
abbrev pub add_conn : Net → Net
add_conn n = record n { next = n.next + 1; live = put n.next true n.live }

-- What a call that opens a stream returns: the connection that the stream runs on, or an error.
pub data Error : Type 0 where
  cooldown no_node open_failed dial_failed no_transport no_peering : Error

pub data Opened : Type 0 where
  stream : ℕ → Opened
  fail : Error → Opened

abbrev pub second : ℕ
second = 1000000000
