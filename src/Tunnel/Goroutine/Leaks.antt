-- ===== src/Tunnel/Goroutine/Leaks.antt =====
-- The connections and transports of the client (internal/yggss/tunnel.go, internal/yggss/direct.go) while
-- its goroutines interleave.
use yggss.Base.{ℕ, refl, Bool, arith, ℤ}
use yggss.Tunnel.Direct.{mark_verified, mark_failed, set_probe_state}
use yggss.Tunnel.Client.{new_client, run_client, touch_activity}
use yggss.Tunnel.Prober.{fast_cadence, slow_cadence, set_streak}
use yggss.Tunnel.Goroutine.{spawn_watch}
use yggss.Tunnel.Goroutine.System.{System, Setting, Steps, at_rest, interleaved}
use yggss.Tunnel.Events.{unwatch_direct, unwatch_mesh}
use yggss.Tunnel.Goroutine.Rules.{Sections, sections-Kept}
use yggss.Tunnel.Goroutine.Traced.{
  Traced, drop_conn_locked-Traced, close_conn-Traced, cool_down-Traced, lock_direct-Traced,
  open_mesh-Traced, set_owner_state-Traced, probe_healthy-Traced, watch_mesh_conn-Traced,
  receive-Traced, same_at, close_direct-Traced,
}

-- Any answers of the mesh and of the probes.
abbrev pub unrestricted : Setting
unrestricted = record { Mesh = λ m. Unit; Probe = λ a. Unit }

sections : Sections unrestricted Traced (λ r. Unit)
unfolding unwatch_direct unwatch_mesh touch_activity mark_failed mark_verified set_probe_state
    spawn_watch set_streak fast_cadence slow_cadence
sections = record {
  nothing = tt;
  raced = λ c. tt;
  meshed = λ m good t h. (open_mesh-Traced m t h, tt);
  verified = λ a any e t h. same_at t _ refl refl refl refl refl refl h;
  touched = λ now t h. same_at t _ refl refl refl refl refl refl h;
  failed = λ t h. same_at t _ refl refl refl refl refl refl h;
  shown = λ s t h. same_at t _ refl refl refl refl refl refl h;
  told = set_owner_state-Traced;
  locked = lock_direct-Traced;
  watched = λ c t h. same_at t _ refl refl refl refl refl refl h;
  dropped = λ now t h. cool_down-Traced now _ (drop_conn_locked-Traced t h);
  healthy = probe_healthy-Traced;
  streak = λ k t h. same_at t _ refl refl refl refl refl refl h;
  fast = λ t h. same_at t _ refl refl refl refl refl refl h;
  slow = λ t h. same_at t _ refl refl refl refl refl refl h;
  received = receive-Traced;
  mesh_ended = watch_mesh_conn-Traced;
  closed = close_direct-Traced;
  unwatched_direct = λ c t h. same_at t _ refl refl refl refl refl refl h;
  unwatched_mesh = λ c t h. same_at t _ refl refl refl refl refl refl h;
  lost = close_conn-Traced;
}

started-Traced :
    (has_direct : Bool) (timeout retry : ℤ) (now : ℕ) (listen_ok : Bool)
    → Traced (run_client now listen_ok (new_client has_direct timeout retry))
unfolding run_client new_client
started-Traced has_direct timeout retry now listen_ok = record {
  same_tr = ground arith;
  at = λ c. ground arith;
}

-- Between any two critical sections of the goroutines of a client, in whatever order they interleave,
-- whatever the network answers and whenever it closes connections: every QUIC transport that is
-- not closed belongs to the cached direct connection, every live connection is cached as the direct or as the mesh
-- connection, and the direct connection and its transport are cached together.
pub interleaved-Traced :
    (has_direct : Bool) (timeout retry : ℤ) (now : ℕ) (listen_ok : Bool) (s : System)
    → Steps unrestricted
        (at_rest (run_client now listen_ok (new_client has_direct timeout retry)))
        s
    → Traced s.tunnel
interleaved-Traced has_direct timeout retry now listen_ok s reached =
    (interleaved unrestricted (sections-Kept unrestricted sections)
      (started-Traced has_direct timeout retry now listen_ok) reached).now
