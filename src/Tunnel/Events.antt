-- ===== src/Tunnel/Events.antt =====
-- The life of a client as a sequence of events: connections from ss-local, turns of the prober,
-- watchers that wake, the network that closes connections, and `Close`. An operation and the
-- critical sections inside it are one event.
use yggss.Base.{ℕ, Bool, false, not, ◌&&◌, List, [], ◌∷◌, if◌then◌else◌}
use yggss.Tunnel.State.{Tunnel, put, close_conn}
use yggss.Tunnel.Direct.{Answers, watch_conn, close_direct}
use yggss.Tunnel.Client.{MeshAnswers, run_client, handle, watch_mesh_conn}
use yggss.Tunnel.Prober.{Wake, ProbeAnswers, prober_turn}

pub data Event : Type 0 where
  -- `Run` is called, and listens or fails to.
  called : ℕ → Bool → Event
  -- `acceptLoop` hands over a connection of ss-local.
  accepted : ℕ → Answers → MeshAnswers → Event
  turn : Wake → ProbeAnswers → Event
  -- The goroutine that waits for the connection to close goes on.
  direct_woken : ℕ → ℕ → Event
  mesh_woken : ℕ → Event
  -- The peer or a timeout of QUIC closes a connection.
  closed : ℕ → Event
  close : Event

-- The goroutine that waited for the connection `c` has ended.
unfoldable pub unwatch_direct : ℕ → Tunnel → Tunnel
unwatch_direct c t = record t {
  net = record (t.net) { direct_watch = put c false t.net.direct_watch };
}

unfoldable pub unwatch_mesh : ℕ → Tunnel → Tunnel
unwatch_mesh c t = record t { net = record (t.net) { mesh_watch = put c false t.net.mesh_watch } }

unfoldable pub direct_wake : ℕ → ℕ → Tunnel → Tunnel
unfolding watch_conn unwatch_direct
direct_wake now c t =
    if t.net.direct_watch c && not (t.net.live c) then unwatch_direct c (watch_conn now c t) else t

unfoldable pub mesh_wake : ℕ → Tunnel → Tunnel
unfolding watch_mesh_conn unwatch_mesh
mesh_wake c t =
    if t.net.mesh_watch c && not (t.net.live c) then unwatch_mesh c (watch_mesh_conn c t) else t

unfoldable pub step : Tunnel → Event → Tunnel
step t (called now listen_ok) = run_client now listen_ok t
step t (accepted now a m) = (handle now a m t).0
step t (turn w a) = prober_turn w a t
step t (direct_woken now c) = direct_wake now c t
step t (mesh_woken c) = mesh_wake c t
step t (closed c) = record t { net = close_conn c t.net }
step t close = close_direct t

unfoldable pub run : Tunnel → List Event → Tunnel
run t [] = t
run t (e ∷ es) = run (step t e) es
