-- ===== src/Tests/Tunnels.antt =====
-- The client side (internal/yggss/tunnel.go and internal/yggss/direct.go): streams and cutovers.
use yggss.Base.{◌≡◌, refl, ◌⊎◌, true, false, none, some, List, [], ◌∷◌, pos}
use yggss.Tunnel.State.{Tunnel, stream, fail, no_peering, dial_failed, mesh_fallback, close_conn}
use yggss.Tunnel.Direct.{Answers, is_verified, open_direct, conn_alive}
use yggss.Tunnel.Client.{new_client, open_mesh, open_stream, after_direct, path_state}
use yggss.Tunnel.Prober.{timer}
use yggss.Tunnel.Events.{
  Event, called, accepted, turn, direct_woken, mesh_woken, closed, close, run,
}
use yggss.Tunnel.Ownership.{Owned}
use yggss.Tunnel.Ownership.Run.{run-Owned}
use yggss.Tunnel.Selection.{open_stream-live, open_stream-no_peering}
use yggss.Tunnel.Cutover.{open_direct-spares, open_stream-downgrade}
use yggss.Tests.Data.{answers, blocked, mesh_up, mesh_down, good_probe, fresh, upgraded}

abbrev history : List Event
history =
    called 100 true
    ∷ turn timer (good_probe 2000)
    ∷ accepted 3000 (answers 3000) mesh_up
    ∷ accepted 4000 (blocked 4000) mesh_up
    ∷ closed 0
    ∷ accepted 5000 (blocked 5000) mesh_up
    ∷ direct_woken 6000 0
    ∷ closed 1
    ∷ mesh_woken 1
    ∷ close
    ∷ []

run-Owned_example : Owned (run (new_client true (pos 30) (pos 10)) history)
run-Owned_example = run-Owned true (pos 30) (pos 10) history

-- The first stream runs on the mesh, a stream after the probe on the direct connection.
first_on_mesh : (open_stream 200 (answers 200) mesh_up fresh).1 ≡ stream 0
unfolding fresh open_stream open_mesh is_verified
first_on_mesh = refl

then_on_direct : (open_stream 3000 (answers 3000) mesh_up upgraded).1 ≡ stream 0
unfolding upgraded open_stream after_direct
then_on_direct = refl

open_stream-live_example :
    let t' = (open_stream 3000 (answers 3000) mesh_up upgraded).0 in
    (t'.net.live 0 ≡ true)
    × ((t'.client.qconn ≡ some 0)
        ⊎ ((t'.direct.qconn ≡ some 0)
            × (upgraded.client.has_direct ≡ true)
            × (is_verified 3000 upgraded ≡ true)))
unfolding upgraded open_stream after_direct
open_stream-live_example = open_stream-live 3000 (answers 3000) mesh_up upgraded 0 refl

-- The cached direct connection has died and its redial is refused: the mesh serves the stream.
abbrev cut : Tunnel
unfolding upgraded
cut = record upgraded { net = close_conn 0 upgraded.net }

open_stream-no_peering_example :
    let (t', r) = open_stream 200 (answers 200) mesh_down fresh in
    (r ≡ fail no_peering) × (t'.net.next ≡ fresh.net.next) × (t'.client.qconn ≡ none)
unfolding fresh is_verified
open_stream-no_peering_example =
    open_stream-no_peering 200 (answers 200) mesh_down fresh refl refl refl refl refl

open_direct-spares_example : (open_direct (blocked 3000) upgraded).0.net.live 0 ≡ true
unfolding upgraded
open_direct-spares_example = open_direct-spares (blocked 3000) upgraded 0 refl refl

-- A stream open fails on the direct connection, which lives on.
abbrev full : Answers
full = record (answers 3000) { open_ok = false }

open_stream-downgrade_example :
    let t' = (open_stream 3000 (blocked 3000) mesh_up cut).0 in
    (is_verified 3001 t' ≡ false) × (path_state 3001 t' ≡ mesh_fallback)
unfolding upgraded conn_alive
open_stream-downgrade_example =
    open_stream-downgrade 3000 (blocked 3000) mesh_up cut dial_failed 3001 refl refl refl refl

abbrev died : List Event
died = called 100 true ∷ turn timer (good_probe 2000) ∷ closed 0 ∷ []
