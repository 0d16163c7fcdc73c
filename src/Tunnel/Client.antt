-- ===== src/Tunnel/Client.antt =====
-- The methods of `client` (internal/yggss/tunnel.go) that choose the channel of a stream, and the
-- constructors of internal/yggss/api.go.
use yggss.Base.{
  ℕ, ◌*◌, Bool, true, false, not, ◌&&◌, ◌||◌, Option, none, some, ℤ, pos, positive_or, ltb,
  if◌then◌else◌,
}
use yggss.Tunnel.State.{
  PathState, mesh_only, h2h3, mesh_fallback, Net, Tunnel, put, close_conn, add_conn, dial_failed,
  no_transport, no_peering, open_failed, Opened, stream, fail, second,
}
use yggss.Tunnel.Direct.{
  is_verified, mark_failed, set_probe_state, conn_alive, conn_is_live, close_conn?, is_current,
  Answers, open_direct, direct_fallback_cooldown,
}

unfoldable pub touch_activity : ℕ → Tunnel → Tunnel
touch_activity now t = record t { client = record (t.client) { last_active = now } }

unfoldable pub path_state : ℕ → Tunnel → PathState
unfolding is_verified
path_state now t =
    if not t.client.has_direct
    then mesh_only
    else if is_verified now t
    then h2h3
    else t.client.probe_state

-- What the node and the network answer to the mesh part of one call of `openStream`.
pub record MeshAnswers : Type 0 where
  -- `meshActive` where the cached connection is checked.
  pub active : Bool
  -- `openStreamOn` succeeds on the cached connection.
  pub open_ok : Bool
  -- `meshActive` before the dial.
  pub active_at_dial : Bool
  pub dial_ok : Bool
  -- `openStreamOn` succeeds on the connection just dialled.
  pub first_ok : Bool

-- `_ = c.qconn.CloseWithError(0, "reset"); c.qconn = nil`.
unfoldable pub reset_mesh : Tunnel → Tunnel
reset_mesh t = record t {
  net = close_conn? t.client.qconn t.net;
  client = record (t.client) { qconn = none };
}

-- The dial at the end of `openStream`, with `go c.watchMeshConn(qconn)`.
unfoldable pub dial_mesh : MeshAnswers → Tunnel → Tunnel × Opened
dial_mesh m t =
    let c = t.net.next in
    let n = add_conn t.net in
    if not t.client.has_tr || not t.client.has_node
    then (t, fail no_transport)
    else if not m.active_at_dial
    then (t, fail no_peering)
    else if not m.dial_ok
    then (t, fail dial_failed)
    else if m.first_ok
    then (
      record t {
        net = record n { mesh_watch = put c true n.mesh_watch };
        client = record (t.client) { qconn = some c };
      },
      stream c,
    )
    else (record t { net = close_conn c n }, fail open_failed)

unfoldable pub open_mesh_on : MeshAnswers → Option ℕ → Tunnel → Tunnel × Opened
unfolding dial_mesh reset_mesh
open_mesh_on m none t = dial_mesh m t
open_mesh_on m (some c) t = if m.open_ok then (t, stream c) else dial_mesh m (reset_mesh t)

abbrev is_set : Option ℕ → Bool
is_set none = false
is_set (some c) = true

-- No peering is up: the cached mesh connection is dropped.
unfoldable pub check_peering : MeshAnswers → Tunnel → Tunnel
unfolding reset_mesh
check_peering m t =
    if is_set t.client.qconn && t.client.has_node && not m.active then reset_mesh t else t

-- The cached mesh connection is done: it is dropped.
unfoldable pub check_done : Tunnel → Tunnel
unfolding reset_mesh conn_is_live
check_done t =
    if is_set t.client.qconn && not (conn_is_live t.net t.client.qconn) then reset_mesh t else t

-- `openStream` under `c.mu`.
unfoldable pub open_mesh : MeshAnswers → Tunnel → Tunnel × Opened
unfolding open_mesh_on check_peering check_done
open_mesh m t = let t' = check_done (check_peering m t) in open_mesh_on m t'.client.qconn t'

-- `openStream` after the attempt on the direct path.
unfoldable pub after_direct : MeshAnswers → Opened → Tunnel → Tunnel × Opened
unfolding mark_failed set_probe_state conn_alive
after_direct m (stream c) t = (t, stream c)
after_direct m (fail e) t =
    open_mesh m (if conn_alive t then t else set_probe_state mesh_fallback (mark_failed t))

unfoldable pub open_stream : ℕ → Answers → MeshAnswers → Tunnel → Tunnel × Opened
open_stream now a m t =
    let (t', r) = open_direct a t in
    if t.client.has_direct && is_verified now t then after_direct m r t' else open_mesh m t

-- `handle`, up to the `pipe` that the stream is given to.
unfoldable pub handle : ℕ → Answers → MeshAnswers → Tunnel → Tunnel × Opened
unfolding touch_activity
handle now a m t = open_stream now a m (touch_activity now t)

-- `watchMeshConn` from the moment that the connection `c` is done.
unfoldable pub watch_mesh_conn : ℕ → Tunnel → Tunnel
watch_mesh_conn c t =
    if is_current t.client.qconn c
    then record t { client = record (t.client) { qconn = none } }
    else t

-- The timeout that the mesh is dialled with.
unfoldable pub cap_mesh_timeout : ℤ → ℤ
cap_mesh_timeout (pos n) = if ltb (10 * second) n then pos (10 * second) else pos n
cap_mesh_timeout other = other

-- `startProber`, less the goroutine's body.
unfoldable pub start_prober : Tunnel → Tunnel
start_prober t = if t.direct.probe_active then t else record t {
  direct = record (t.direct) {
    retry_period = pos (positive_or t.direct.retry_period direct_fallback_cooldown);
    has_owner = true;
    probe_stop = true;
    probe_active = true;
  };
  prober = record {
    running = true;
    timer_c = true;
    unverified_c = true;
    verified_c = false;
    fail_streak = 0;
  };
}

abbrev no_conns : Net
no_conns = record {
  next = 0;
  live = λ c. false;
  transports = λ c. false;
  sockets = 0;
  direct_watch = λ c. false;
  mesh_watch = λ c. false;
}

-- `NewDirectClient` and `NewClient` for a node that runs.
unfoldable pub new_client : Bool → ℤ → ℤ → Tunnel
unfolding start_prober
new_client has_direct timeout retry_period =
    let t : Tunnel = record {
      client = record {
        has_node = true;
        has_tr = false;
        has_direct = has_direct;
        timeout = timeout;
        probe_state = mesh_only;
        last_active = 0;
        qconn = none;
      };
      direct = record {
        has_node = true;
        retry_period = retry_period;
        qconn = none;
        tr = none;
        fail_until = 0;
        has_owner = false;
        probe_rtt = 0;
        verified_until = 0;
        probe_stop = false;
        probe_active = false;
      };
      prober = record {
        running = false;
        timer_c = false;
        unverified_c = false;
        verified_c = false;
        fail_streak = 0;
      };
      net = no_conns;
    } in
    if has_direct then start_prober t else t

-- `Run` at the time `now`, up to the accept loop, which it does not come to if `net.Listen` fails.
unfoldable pub run_client : ℕ → Bool → Tunnel → Tunnel
unfolding touch_activity
run_client now listen_ok t =
    let t' = record t { client = record (t.client) { has_tr = true } } in
    if listen_ok then touch_activity now t' else t'
