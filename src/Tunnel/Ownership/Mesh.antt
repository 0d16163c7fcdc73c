-- ===== src/Tunnel/Ownership/Mesh.antt =====
-- Opening a stream of the client (internal/yggss/tunnel.go) leaks nothing.
use yggss.Base.{ℕ, ◌≡◌, refl, Option, none, some, arith, if_keeps}
use yggss.Tunnel.State.{Opened, stream, fail, Tunnel}
use yggss.Tunnel.Direct.{Answers, mark_failed, set_probe_state, conn_alive}
use yggss.Tunnel.Client.{
  MeshAnswers, reset_mesh, dial_mesh, check_peering, check_done, open_mesh_on, open_mesh,
  after_direct, open_stream, touch_activity, handle,
}
use yggss.Tunnel.Ownership.{Owned, OwnedAfter, Owned-of_same, open_direct-Owned}

reset_mesh-Owned : (t : Tunnel) → Owned t → Owned (reset_mesh t)
unfolding reset_mesh
reset_mesh-Owned t h = record { same_tr = h.same_tr; at = λ c. ground (arith, h.at c) }

reset_mesh-qconn : (t : Tunnel) → (reset_mesh t).client.qconn ≡ none
unfolding reset_mesh
reset_mesh-qconn t = refl

dial_mesh-Owned :
    (m : MeshAnswers) (t : Tunnel) → t.client.qconn ≡ none → Owned t → Owned (dial_mesh m t).0
unfolding dial_mesh
dial_mesh-Owned m t e h = record {
  same_tr = ground (arith, h.same_tr);
  at = λ c. ground (arith, h.at c);
}

open_mesh_on-Owned :
    (m : MeshAnswers) (o : Option ℕ) (t : Tunnel)
    → t.client.qconn ≡ o
    → Owned t
    → Owned (open_mesh_on m o t).0
unfolding open_mesh_on
open_mesh_on-Owned m none t e h = dial_mesh-Owned m t e h
open_mesh_on-Owned m (some c) t e h =
    if_keeps OwnedAfter _ _ _ h (dial_mesh-Owned m _ (reset_mesh-qconn t) (reset_mesh-Owned t h))

pub open_mesh-Owned : (m : MeshAnswers) (t : Tunnel) → Owned t → Owned (open_mesh m t).0
unfolding open_mesh check_peering check_done
open_mesh-Owned m t h =
    let h' = if_keeps Owned _ _ t (reset_mesh-Owned t h) h in
    open_mesh_on-Owned m _ _ refl (if_keeps Owned _ _ _ (reset_mesh-Owned _ h') h')

after_direct-Owned :
    (m : MeshAnswers) (r : Opened) (t : Tunnel) → Owned t → Owned (after_direct m r t).0
unfolding after_direct mark_failed set_probe_state
after_direct-Owned m (stream c) t h = h
after_direct-Owned m (fail e) t h =
    open_mesh-Owned m _
      (if_keeps Owned (conn_alive t) t _ h (Owned-of_same t _ refl refl refl refl h))

pub open_stream-Owned :
    (now : ℕ) (a : Answers) (m : MeshAnswers) (t : Tunnel)
    → Owned t
    → Owned (open_stream now a m t).0
unfolding open_stream
open_stream-Owned now a m t h =
    if_keeps OwnedAfter _ _ _ (after_direct-Owned m _ _ (open_direct-Owned a t h))
      (open_mesh-Owned m t h)

pub handle-Owned :
    (now : ℕ) (a : Answers) (m : MeshAnswers) (t : Tunnel) → Owned t → Owned (handle now a m t).0
unfolding handle touch_activity
handle-Owned now a m t h = open_stream-Owned now a m _ (Owned-of_same t _ refl refl refl refl h)
