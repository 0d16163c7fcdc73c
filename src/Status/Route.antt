-- ===== src/Status/Route.antt =====
-- What the status log says about the route (internal/yggss/stats.go).
use yggss.Base.{ℕ, ◌≡◌, refl, ◌&&◌, some, [], ◌∷◌, text_eq, arith, ◌||◌}
use yggss.Tunnel.State.{Tunnel, PathState, mesh_only, h2h3, mesh_probing, mesh_fallback}
use yggss.Tunnel.Direct.{is_verified}
use yggss.Tunnel.Client.{path_state}
use yggss.Tunnel.Prober.{is_h2h3}
use yggss.Status.Report.{tunnel_path, path_line, path_text, active_direct}

active_direct-h2h3 : (s : PathState) → active_direct (path_text s) ≡ is_h2h3 s
unfolding active_direct path_text text_eq
active_direct-h2h3 mesh_only = refl
active_direct-h2h3 h2h3 = refl
active_direct-h2h3 mesh_probing = refl
active_direct-h2h3 mesh_fallback = refl

path_state-h2h3 :
    (now : ℕ) (t : Tunnel)
    → is_h2h3 (path_state now t)
      ≡ (t.client.has_direct && (is_verified now t || is_h2h3 t.client.probe_state))
unfolding path_state
path_state-h2h3 now t = ground arith

-- The log says that direct QUIC is active exactly when the client has a direct path and this path
-- is verified at that time, or the stored channel state still says so from an earlier probe.
pub path_line-active :
    (now : ℕ) (t : Tunnel)
    → path_line (some (path_state now t))
      ≡ tunnel_path
          (path_text (path_state now t))
          (t.client.has_direct && (is_verified now t || is_h2h3 t.client.probe_state))
        ∷ []
unfolding path_line
path_line-active now t = rw (active_direct-h2h3 (path_state now t), path_state-h2h3 now t)
