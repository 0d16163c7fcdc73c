-- ===== src/Tunnel/MeshMode.antt =====
-- A client in mesh mode, with no `directClient` (internal/yggss/tunnel.go), and UDP.
use yggss.Base.{ℕ, ◌≡◌, refl, false, none, List, [], ◌∷◌, ℤ, arith}
use yggss.Tunnel.State.{Tunnel}
use yggss.Tunnel.Direct.{Answers, close_direct}
use yggss.Tunnel.Client.{
  MeshAnswers, touch_activity, open_mesh, open_stream, handle, new_client, run_client,
}
use yggss.Tunnel.Prober.{prober_turn}
use yggss.Tunnel.Selection.{open_mesh-direct}
use yggss.Tunnel.Events.{
  Event, called, accepted, turn, direct_woken, mesh_woken, closed, close, step, run, direct_wake,
  mesh_wake,
}

-- No direct path, no prober, no UDP socket and nobody who waits for a direct connection.
record MeshOnly (t : Tunnel) : Type 0 where
  no_direct : t.client.has_direct ≡ false
  no_prober : t.prober.running ≡ false
  no_conn : t.direct.qconn ≡ none
  no_tr : t.direct.tr ≡ none
  no_socket : t.net.sockets ≡ 0
  no_watch : (c : ℕ) → t.net.direct_watch c ≡ false

-- What the mesh part of `openStream` keeps.
open_mesh-keeps :
    (m : MeshAnswers) (t : Tunnel)
    → ((open_mesh m t).0.client.has_direct ≡ t.client.has_direct)
      × ((open_mesh m t).0.prober ≡ t.prober)
      × ((open_mesh m t).0.net.direct_watch ≡ t.net.direct_watch)
unfolding open_mesh
open_mesh-keeps m t = ground arith

handle-MeshOnly :
    (now : ℕ) (a : Answers) (m : MeshAnswers) (t : Tunnel)
    → MeshOnly t
    → MeshOnly (handle now a m t).0
unfolding handle open_stream
handle-MeshOnly now a m t h = record {
  no_direct = ground (arith, open_mesh-keeps m (touch_activity now t));
  no_prober = ground (arith, open_mesh-keeps m (touch_activity now t));
  no_conn = ground (arith, open_mesh-direct m (touch_activity now t));
  no_tr = ground (arith, open_mesh-direct m (touch_activity now t));
  no_socket = ground (arith, h.no_socket, open_mesh-direct m (touch_activity now t));
  no_watch = λ c. ground (arith, h.no_watch c, open_mesh-keeps m (touch_activity now t));
}

step-MeshOnly : (e : Event) (t : Tunnel) → MeshOnly t → MeshOnly (step t e)
unfolding step prober_turn direct_wake mesh_wake close_direct run_client
step-MeshOnly (called now listen_ok) t h = record {
  no_direct = ground arith;
  no_prober = ground arith;
  no_conn = ground arith;
  no_tr = ground arith;
  no_socket = ground (arith, h.no_socket);
  no_watch = λ c. ground (arith, h.no_watch c);
}
step-MeshOnly (accepted now a m) t h = handle-MeshOnly now a m t h
step-MeshOnly (turn w a) t h = record {
  no_direct = ground arith;
  no_prober = ground arith;
  no_conn = ground arith;
  no_tr = ground arith;
  no_socket = ground (arith, h.no_socket);
  no_watch = λ c. ground (arith, h.no_watch c);
}
step-MeshOnly (direct_woken now c) t h = record {
  no_direct = ground arith;
  no_prober = ground arith;
  no_conn = ground arith;
  no_tr = ground arith;
  no_socket = ground (arith, h.no_socket);
  no_watch = λ c. ground (arith, h.no_watch c);
}
step-MeshOnly (mesh_woken c) t h = record {
  no_direct = ground arith;
  no_prober = ground arith;
  no_conn = ground arith;
  no_tr = ground arith;
  no_socket = ground (arith, h.no_socket);
  no_watch = λ c. ground (arith, h.no_watch c);
}
step-MeshOnly (closed c) t h = record {
  no_direct = ground arith;
  no_prober = ground arith;
  no_conn = ground arith;
  no_tr = ground arith;
  no_socket = ground (arith, h.no_socket);
  no_watch = λ c. ground (arith, h.no_watch c);
}
step-MeshOnly close t h = record {
  no_direct = ground arith;
  no_prober = ground arith;
  no_conn = ground arith;
  no_tr = ground arith;
  no_socket = ground (arith, h.no_socket);
  no_watch = λ c. ground (arith, h.no_watch c);
}

new_client-MeshOnly : (timeout retry : ℤ) → MeshOnly (new_client false timeout retry)
unfolding new_client
new_client-MeshOnly timeout retry = record {
  no_direct = refl;
  no_prober = refl;
  no_conn = refl;
  no_tr = refl;
  no_socket = refl;
  no_watch = λ c. refl;
}

run-MeshOnly : (es : List Event) (t : Tunnel) → MeshOnly t → MeshOnly (run t es)
unfolding run
run-MeshOnly [] t h = h
run-MeshOnly (e ∷ es) t h = run-MeshOnly es (step t e) (step-MeshOnly e t h)

-- A client built without a direct path, whatever happens to it afterwards (`Run`, accepted
-- connections with any answers of the network and the mesh, wakes, ends of connections, `Close`),
-- never opens a UDP socket, never has a direct connection and never runs the prober.
pub mesh_mode-no_udp :
    (timeout retry : ℤ) (es : List Event)
    → ((run (new_client false timeout retry) es).net.sockets ≡ 0)
      × ((run (new_client false timeout retry) es).direct.qconn ≡ none)
      × ((run (new_client false timeout retry) es).prober.running ≡ false)
mesh_mode-no_udp timeout retry es =
    let h = run-MeshOnly es (new_client false timeout retry) (new_client-MeshOnly timeout retry) in
    (h.no_socket, h.no_conn, h.no_prober)
