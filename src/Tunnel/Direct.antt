-- ===== src/Tunnel/Direct.antt =====
-- The methods of `directClient` (internal/yggss/direct.go). Each is a function on the state of the
-- tunnel; a method that the code splits over its two mutexes is one step here.
use yggss.Base.{
  ℕ, ◌+◌, ◌*◌, ◌/◌, Bool, true, false, not, Option, none, some, ℤ, positive_or, ltb, ◌==◌,
  if◌then◌else◌,
}
use yggss.Tunnel.State.{
  PathState, mesh_fallback, Net, Direct, Tunnel, put, close_conn, close_tr, add_conn, open_socket,
  cooldown, no_node, open_failed, dial_failed, Opened, stream, fail, second,
}

abbrev pub direct_fallback_cooldown : ℕ
direct_fallback_cooldown = 30 * second

abbrev pub direct_fail_cooldown : ℕ
direct_fail_cooldown = 2 * second

abbrev pub direct_dial_timeout : ℕ
direct_dial_timeout = 5 * second

-- `time.Now().Before(d.verifiedUntil)`.
unfoldable pub is_verified : ℕ → Tunnel → Bool
is_verified now t = ltb now t.direct.verified_until

unfoldable pub mark_verified : ℕ → ℕ → Tunnel → Tunnel
mark_verified now ttl t = record t { direct = record (t.direct) { verified_until = now + ttl } }

unfoldable pub mark_failed : Tunnel → Tunnel
mark_failed t = record t { direct = record (t.direct) { verified_until = 0 } }

unfoldable pub verify_ttl : Direct → ℕ
verify_ttl d = 2 * positive_or d.retry_period direct_fallback_cooldown

unfoldable pub set_probe_state : PathState → Tunnel → Tunnel
set_probe_state s t = record t { client = record (t.client) { probe_state = s } }

-- `if d.owner != nil { d.owner.setProbeState(s) }`.
unfoldable pub set_owner_state : PathState → Tunnel → Tunnel
unfolding set_probe_state
set_owner_state s t = if t.direct.has_owner then set_probe_state s t else t

unfoldable pub conn_is_live : Net → Option ℕ → Bool
conn_is_live n none = false
conn_is_live n (some c) = n.live c

-- `connAlive` and `connAliveLocked`.
unfoldable pub conn_alive : Tunnel → Bool
unfolding conn_is_live
conn_alive t = conn_is_live t.net t.direct.qconn

abbrev pub close_conn? : Option ℕ → Net → Net
close_conn? none n = n
close_conn? (some c) n = close_conn c n

abbrev pub close_tr? : Option ℕ → Net → Net
close_tr? none n = n
close_tr? (some c) n = close_tr c n

unfoldable pub drop_conn_locked : Tunnel → Tunnel
drop_conn_locked t = record t {
  net = close_tr? t.direct.tr (close_conn? t.direct.qconn t.net);
  direct = record (t.direct) { qconn = none; tr = none };
}

-- `d.failUntil = time.Now().Add(directFailCooldown)`.
unfoldable pub cool_down : ℕ → Tunnel → Tunnel
cool_down now t = record t {
  direct = record (t.direct) { fail_until = now + direct_fail_cooldown };
}

unfoldable pub drop_and_fail : ℕ → Tunnel → Tunnel
unfolding drop_conn_locked cool_down mark_failed set_owner_state
drop_and_fail now t =
    set_owner_state mesh_fallback (mark_failed (cool_down now (drop_conn_locked t)))

abbrev pub is_current : Option ℕ → ℕ → Bool
is_current none c = false
is_current (some b) c = b == c

-- `watchConn` from the moment that the connection `c` is done.
unfoldable pub watch_conn : ℕ → ℕ → Tunnel → Tunnel
unfolding drop_and_fail
watch_conn now c t = if is_current t.direct.qconn c then drop_and_fail now t else t

-- `probeHealthy`. The moving average is 0.7 old + 0.3 new in exact arithmetic, cut to a whole
-- nanosecond.
unfoldable pub probe_healthy : ℕ → Tunnel → Tunnel × Bool
probe_healthy rtt t =
    let old = t.direct.probe_rtt in
    let threshold = if ltb (3 * old) second then second else 3 * old in
    if old == 0
    then (record t { direct = record (t.direct) { probe_rtt = rtt } }, true)
    else if ltb threshold rtt
    then (t, false)
    else (record t { direct = record (t.direct) { probe_rtt = (7 * old + 3 * rtt) / 10 } }, true)

-- The timeout that `directDialTransport` dials with.
unfoldable pub cap_dial_timeout : ℤ → ℕ
cap_dial_timeout timeout =
    let wanted = positive_or timeout direct_dial_timeout in
    if ltb direct_dial_timeout wanted then direct_dial_timeout else wanted

-- How `directDialTransport` ends: at the address (`parseHostPort`, `resolveUDP`), at the local
-- socket, at `tr.Dial`, or with a connection.
pub data Dial : Type 0 where
  bad_address no_socket refused connected : Dial

-- `directDialTransport`, less its TLS settings: the connection and the transport that owns it.
unfoldable pub direct_dial_transport : Dial → Net → Net × Option ℕ
direct_dial_transport bad_address n = (n, none)
direct_dial_transport no_socket n = (n, none)
direct_dial_transport refused n = (close_tr n.next (open_socket n), none)
direct_dial_transport connected n = (add_conn (open_socket n), some n.next)

-- What the clock and the network answer during one call of `openStream`.
pub record Answers : Type 0 where
  -- The clock at the call.
  pub now : ℕ
  -- `OpenStreamSync` succeeds on the cached connection.
  pub open_ok : Bool
  -- The cached connection is closed from outside while a stream open fails on it.
  pub dies : Bool
  pub dial : Dial
  -- The clock where a cooldown is set.
  pub later : ℕ
  -- `OpenStreamSync` succeeds on the connection just dialled.
  pub first_ok : Bool

-- `openStream` from the answer of the dial on, with `go d.watchConn(qconn)`.
unfoldable pub use_dialled : Answers → Option ℕ → Tunnel → Tunnel × Opened
unfolding cool_down mark_failed set_owner_state
use_dialled a none t =
    (set_owner_state mesh_fallback (mark_failed (cool_down a.later t)), fail dial_failed)
use_dialled a (some c) t = (
  record t {
    net = record (t.net) { direct_watch = put c true t.net.direct_watch };
    direct = record (t.direct) { qconn = some c; tr = some c };
  },
  if a.first_ok then stream c else fail open_failed,
)

unfoldable pub redial : Answers → Tunnel → Tunnel × Opened
unfolding direct_dial_transport use_dialled
redial a t =
    let (n, dialled) = direct_dial_transport a.dial t.net in
    use_dialled a dialled (record t { net = n })

-- `openStream` past the cooldown, by the cached connection.
unfoldable pub open_on : Answers → Option ℕ → Tunnel → Tunnel × Opened
unfolding redial drop_conn_locked
open_on a none t = redial a (drop_conn_locked t)
open_on a (some c) t =
    let t' = if a.dies then record t { net = close_conn c t.net } else t in
    if not (t.net.live c)
    then redial a (drop_conn_locked t)
    else if a.open_ok
    then (t, stream c)
    else if t'.net.live c
    then (t', fail open_failed)
    else redial a (drop_conn_locked t')

unfoldable pub open_direct : Answers → Tunnel → Tunnel × Opened
unfolding open_on cool_down
open_direct a t =
    if ltb a.now t.direct.fail_until
    then (t, fail cooldown)
    else if not t.direct.has_node
    then (cool_down a.later t, fail no_node)
    else open_on a t.direct.qconn t

-- `stopProber`.
unfoldable pub stop_prober : Tunnel → Tunnel
stop_prober t =
    if t.direct.probe_stop
    then record t {
      direct = record (t.direct) { probe_stop = false; probe_active = false };
      prober = record (t.prober) { running = false };
    }
    else t

-- `Close`.
unfoldable pub close_direct : Tunnel → Tunnel
unfolding stop_prober drop_conn_locked
close_direct t = stop_prober (drop_conn_locked t)
