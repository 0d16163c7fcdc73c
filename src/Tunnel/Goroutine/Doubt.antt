-- ===== src/Tunnel/Goroutine/Doubt.antt =====
-- The trust in the direct path (internal/yggss/direct.go) while the goroutines of the client interleave.
use yggss.Base.{◌≢◌, ℕ, ◌≡◌, refl, Bool, false, arith, ℤ}
use yggss.Tunnel.State.{PathState, Tunnel}
use yggss.Tunnel.Direct.{
  Answers, mark_failed, set_probe_state, set_owner_state, cool_down, drop_conn_locked,
  probe_healthy, close_direct, is_verified,
}
use yggss.Tunnel.Client.{
  MeshAnswers, open_mesh, watch_mesh_conn, new_client, run_client, touch_activity,
}
use yggss.Tunnel.Prober.{Wake, timer, echoed, receive, fast_cadence, slow_cadence, set_streak}
use yggss.Tunnel.Goroutine.{lock_direct, spawn_watch}
use yggss.Tunnel.Goroutine.System.{System, Setting, Steps, at_rest, interleaved}
use yggss.Tunnel.Events.{unwatch_direct, unwatch_mesh}
use yggss.Tunnel.Goroutine.Rules.{Sections, sections-Kept}

-- No probe gets its payload back.
abbrev pub unechoed : Setting
unechoed = record { Mesh = λ m. Unit; Probe = λ a. a.echo ≢ echoed }

abbrev Untrusted : Tunnel → Type 0
Untrusted t = t.direct.verified_until ≡ 0

lock_direct-Untrusted : (a : Answers) (t : Tunnel) → Untrusted t → Untrusted (lock_direct a t).0
unfolding lock_direct
lock_direct-Untrusted a t h = ground (arith, h)

open_mesh-Untrusted : (m : MeshAnswers) (t : Tunnel) → Untrusted t → Untrusted (open_mesh m t).0
unfolding open_mesh
open_mesh-Untrusted m t h = ground (arith, h)

set_owner_state-Untrusted :
    (s : PathState) (t : Tunnel) → Untrusted t → Untrusted (set_owner_state s t)
unfolding set_owner_state
set_owner_state-Untrusted s t h = ground (arith, h)

probe_healthy-Untrusted : (rtt : ℕ) (t : Tunnel) → Untrusted t → Untrusted (probe_healthy rtt t).0
unfolding probe_healthy
probe_healthy-Untrusted rtt t h = ground (arith, h)

watch_mesh_conn-Untrusted : (c : ℕ) (t : Tunnel) → Untrusted t → Untrusted (watch_mesh_conn c t)
unfolding watch_mesh_conn
watch_mesh_conn-Untrusted c t h = ground (arith, h)

close_direct-Untrusted : (t : Tunnel) → Untrusted t → Untrusted (close_direct t)
unfolding close_direct
close_direct-Untrusted t h = ground (arith, h)

receive-Untrusted : (k : Wake) (t : Tunnel) → Untrusted t → Untrusted (receive k t)
unfolding receive
receive-Untrusted timer t h = h
receive-Untrusted _ t h = h

sections : Sections unechoed Untrusted (λ r. Unit)
unfolding unwatch_direct unwatch_mesh touch_activity mark_failed set_probe_state spawn_watch
    set_streak fast_cadence slow_cadence cool_down drop_conn_locked
sections = record {
  nothing = tt;
  raced = λ c. tt;
  meshed = λ m good t h. (open_mesh-Untrusted m t h, tt);
  verified = λ a not_echoed e t h. absurd (not_echoed e);
  touched = λ now t h. h;
  failed = λ t h. refl;
  shown = λ s t h. h;
  told = set_owner_state-Untrusted;
  locked = lock_direct-Untrusted;
  watched = λ c t h. h;
  dropped = λ now t h. h;
  healthy = probe_healthy-Untrusted;
  streak = λ k t h. h;
  fast = λ t h. h;
  slow = λ t h. h;
  received = receive-Untrusted;
  mesh_ended = λ c t dead h. watch_mesh_conn-Untrusted c t h;
  closed = close_direct-Untrusted;
  unwatched_direct = λ c t h. h;
  unwatched_mesh = λ c t h. h;
  lost = λ c t h. h;
}

started-Untrusted :
    (has_direct : Bool) (timeout retry : ℤ) (now : ℕ) (listen_ok : Bool)
    → Untrusted (run_client now listen_ok (new_client has_direct timeout retry))
unfolding run_client new_client
started-Untrusted has_direct timeout retry now listen_ok = ground arith

Untrusted-not_verified : (later : ℕ) (t : Tunnel) → Untrusted t → is_verified later t ≡ false
unfolding is_verified
Untrusted-not_verified later t h = ground (arith, h)

-- The direct path is verified by echoes only: in a client whose probes never get their payload back it
-- is verified at no time, however its goroutines interleave, whatever streams its calls and its probes
-- open on direct connections, and whatever the mesh answers.
pub unechoed-not_verified :
    (has_direct : Bool) (timeout retry : ℤ) (now later : ℕ) (listen_ok : Bool) (s : System)
    → Steps unechoed (at_rest (run_client now listen_ok (new_client has_direct timeout retry))) s
    → is_verified later s.tunnel ≡ false
unechoed-not_verified has_direct timeout retry now later listen_ok s reached =
    Untrusted-not_verified later s.tunnel
      (interleaved unechoed (sections-Kept unechoed sections)
        (started-Untrusted has_direct timeout retry now listen_ok) reached).now
