-- ===== src/Tunnel/Goroutine/Served.antt =====
-- Calls of `handle` (internal/yggss/tunnel.go) while all goroutines of the client interleave.
use yggss.Base.{
  ap, ◌∙◌, put, put_self, ℕ, ◌≡◌, refl, Bool, true, false, Option, none, some, arith, ℤ, subst,
}
use yggss.Tunnel.State.{PathState, Tunnel, Opened, stream}
use yggss.Tunnel.Direct.{
  Answers, mark_failed, mark_verified, set_probe_state, set_owner_state, cool_down,
  drop_conn_locked, probe_healthy, close_direct,
}
use yggss.Tunnel.Client.{
  handle, MeshAnswers, touch_activity, open_mesh, watch_mesh_conn, new_client, run_client,
}
use yggss.Tunnel.Prober.{Wake, timer, fast_cadence, slow_cadence, set_streak, receive}
use yggss.Tunnel.Selection.{opened_conn, open_mesh-served}
use yggss.Tunnel.Goroutine.{handle_goroutine, Goroutine, ended, lock_direct, spawn_watch}
use yggss.Tunnel.Goroutine.System.{
  System, Setting, Steps, at_rest, starts, accepts, joined, here, next, Along, interleaved,
}
use yggss.Tunnel.Events.{unwatch_direct, unwatch_mesh}
use yggss.Tunnel.Goroutine.Alone.{handle_alone}
use yggss.Tunnel.Goroutine.Atomic.{finishes_after}
use yggss.Tunnel.Goroutine.Rules.{Sections, sections-Kept}

-- The mesh answers a call well: a peering is up, the dial connects and its connection takes a stream.
pub record Works (m : MeshAnswers) : Type 0 where
  pub active : m.active_at_dial ≡ true
  pub dials : m.dial_ok ≡ true
  pub opens : m.first_ok ≡ true

abbrev pub mesh_works : Setting
mesh_works = record { Mesh = Works; Probe = λ a. Unit }

-- `Run` has been called, and there is a node.
record Ready (t : Tunnel) : Type 0 where
  has_tr : t.client.has_tr ≡ true
  has_node : t.client.has_node ≡ true

-- The result of a goroutine, if it has one, is a stream.
IsStream : Option Opened → Type 0
IsStream none = Unit
IsStream (some r) = r ≡ stream (opened_conn r)

lock_direct-Ready : (a : Answers) (t : Tunnel) → Ready t → Ready (lock_direct a t).0
unfolding lock_direct
lock_direct-Ready a t h = record {
  has_tr = ground (arith, h.has_tr);
  has_node = ground (arith, h.has_node);
}

open_mesh-Ready : (m : MeshAnswers) (t : Tunnel) → Ready t → Ready (open_mesh m t).0
unfolding open_mesh
open_mesh-Ready m t h = record {
  has_tr = ground (arith, h.has_tr);
  has_node = ground (arith, h.has_node);
}

probe_healthy-Ready : (rtt : ℕ) (t : Tunnel) → Ready t → Ready (probe_healthy rtt t).0
unfolding probe_healthy
probe_healthy-Ready rtt t h = record {
  has_tr = ground (arith, h.has_tr);
  has_node = ground (arith, h.has_node);
}

set_owner_state-Ready : (s : PathState) (t : Tunnel) → Ready t → Ready (set_owner_state s t)
unfolding set_owner_state
set_owner_state-Ready s t h = record {
  has_tr = ground (arith, h.has_tr);
  has_node = ground (arith, h.has_node);
}

watch_mesh_conn-Ready :
    (c : ℕ) (t : Tunnel) → t.net.live c ≡ false → Ready t → Ready (watch_mesh_conn c t)
unfolding watch_mesh_conn
watch_mesh_conn-Ready c t dead h = record {
  has_tr = ground (arith, h.has_tr);
  has_node = ground (arith, h.has_node);
}

close_direct-Ready : (t : Tunnel) → Ready t → Ready (close_direct t)
unfolding close_direct
close_direct-Ready t h = record {
  has_tr = ground (arith, h.has_tr);
  has_node = ground (arith, h.has_node);
}

receive-Ready : (k : Wake) (t : Tunnel) → Ready t → Ready (receive k t)
unfolding receive
receive-Ready timer t h = record { has_tr = h.has_tr; has_node = h.has_node }
receive-Ready _ t h = h

sections : Sections mesh_works Ready IsStream
unfolding unwatch_direct unwatch_mesh IsStream touch_activity mark_failed mark_verified
    set_probe_state spawn_watch cool_down drop_conn_locked set_streak fast_cadence slow_cadence
sections = record {
  nothing = tt;
  raced = λ c. refl;
  meshed = λ m good t h. (
    open_mesh-Ready m t h,
    open_mesh-served m t h.has_tr h.has_node good.active good.dials good.opens,
  );
  verified = λ a any e t h. record { has_tr = h.has_tr; has_node = h.has_node };
  touched = λ now t h. record { has_tr = h.has_tr; has_node = h.has_node };
  failed = λ t h. record { has_tr = h.has_tr; has_node = h.has_node };
  shown = λ s t h. record { has_tr = h.has_tr; has_node = h.has_node };
  told = set_owner_state-Ready;
  locked = lock_direct-Ready;
  watched = λ c t h. record { has_tr = h.has_tr; has_node = h.has_node };
  dropped = λ now t h. record { has_tr = h.has_tr; has_node = h.has_node };
  healthy = probe_healthy-Ready;
  streak = λ k t h. record { has_tr = h.has_tr; has_node = h.has_node };
  fast = λ t h. record { has_tr = h.has_tr; has_node = h.has_node };
  slow = λ t h. record { has_tr = h.has_tr; has_node = h.has_node };
  received = receive-Ready;
  mesh_ended = watch_mesh_conn-Ready;
  closed = close_direct-Ready;
  unwatched_direct = λ c t h. record { has_tr = h.has_tr; has_node = h.has_node };
  unwatched_mesh = λ c t h. record { has_tr = h.has_tr; has_node = h.has_node };
  lost = λ c t h. record { has_tr = h.has_tr; has_node = h.has_node };
}

started-Ready :
    (has_direct : Bool) (timeout retry : ℤ) (now : ℕ)
    → Ready (run_client now true (new_client has_direct timeout retry))
unfolding run_client new_client
started-Ready true timeout retry now = record { has_tr = refl; has_node = refl }
started-Ready false timeout retry now = record { has_tr = refl; has_node = refl }

result-IsStream :
    (g : Goroutine) (r : Opened)
    → g ≡ ended (some r)
    → Along Ready IsStream g
    → r ≡ stream (opened_conn r)
unfolding Along IsStream
result-IsStream g r e h = subst (Along Ready IsStream) e h

-- In a client that is run, with a mesh that answers every call of `handle` well, a call of `handle`
-- that has ended has ended with a stream: however the critical sections of all calls, of the turns of
-- the prober, of the watchers and of `Close` interleave, whatever the dials and stream opens on the
-- direct path answer, and whenever connections are lost.
pub handles-served :
    (has_direct : Bool) (timeout retry : ℤ) (now : ℕ) (s : System) (i : ℕ) (r : Opened)
    → Steps mesh_works (at_rest (run_client now true (new_client has_direct timeout retry))) s
    → s.pool i ≡ ended (some r)
    → (c : ℕ) × (r ≡ stream c)
handles-served has_direct timeout retry now s i r reached e =
    let held =
      interleaved mesh_works (sections-Kept mesh_works sections)
        (started-Ready has_direct timeout retry now) reached in
    (opened_conn r, result-IsStream (s.pool i) r e (held.later i))

-- In such a client a new call can always be served: in every state that the interleaving goroutines
-- reach, a call that starts in a free place and is left alone ends with a stream.
pub new_call-served :
    (has_direct : Bool) (timeout retry : ℤ) (now : ℕ) (s : System) (i : ℕ) (old : Option Opened)
    (later : ℕ) (a : Answers) (m : MeshAnswers)
    → Steps mesh_works (at_rest (run_client now true (new_client has_direct timeout retry))) s
    → s.pool i ≡ ended old
    → Works m
    → (u : System) × (c : ℕ) × Steps mesh_works s u × (u.pool i ≡ ended (some (stream c)))
new_call-served has_direct timeout retry now s i old later a m reached free works =
    let start =
      next here
        (starts i (handle_goroutine later a m) s.tunnel old free (accepts later a m works)) in
    let (u, steps, same, over) =
      finishes_after mesh_works i (handle_goroutine later a m) s
        (record { tunnel = s.tunnel; pool = put i (handle_goroutine later a m) s.pool })
        (put_self i (handle_goroutine later a m) s.pool) start in
    let r = (handle later a m s.tunnel).1 in
    let ended_so =
      over ∙ ap (λ (x : Tunnel × Option Opened). ended x.1) (handle_alone later a m s.tunnel) in
    let (c, e) =
      handles-served has_direct timeout retry now u i r (joined mesh_works reached steps)
        ended_so in
    (u, c, steps, ended_so ∙ ap (λ x. ended (some x)) e)
