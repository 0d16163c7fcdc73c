-- ===== src/Tunnel/Trust.antt =====
-- When the direct path is trusted: the prober of internal/yggss/direct.go.
use yggss.Base.{
  ◌↔◌, if_keeps, ℕ, ◌+◌, ◌-◌, ◌*◌, ◌<◌, ◌≤◌, ◌≡◌, refl, ◌⊎◌, inl, Bool, true, false, none, arith,
  if◌then◌else◌,
}
use yggss.Tunnel.State.{
  close_conn, Direct, mesh_fallback, cooldown, Opened, stream, fail, Tunnel, second,
}
use yggss.Tunnel.Direct.{
  close_direct, Answers, is_verified, open_direct, conn_alive, mark_failed, set_probe_state,
  verify_ttl, probe_healthy,
}
use yggss.Tunnel.Client.{
  touch_activity, MeshAnswers, open_mesh, after_direct, open_stream, handle, run_client,
}
use yggss.Tunnel.Prober.{
  is_enabled, Wake, timer, Echo, echoed, ProbeAnswers, probe_idle_limit, probe_failed,
  probe_answered, probe_echo, probe_round_trip, probe_opened, sync_state, probe, receive,
  prober_turn,
}
use yggss.Tunnel.Selection.{open_mesh-direct}
use yggss.Tunnel.Events.{
  called, direct_wake, mesh_wake, Event, accepted, turn, direct_woken, mesh_woken, closed, close,
  step,
}

-- After a long idle a turn dials nothing, changes no connection, and leaves no trust.
prober_turn-idle :
    (w : Wake) (a : ProbeAnswers) (t : Tunnel)
    → t.prober.running ≡ true
    → is_enabled w t.prober ≡ true
    → a.mesh_active ≡ true
    → probe_idle_limit < a.now - t.client.last_active
    → let t' = prober_turn w a t in (t'.net ≡ t.net) × (is_verified a.now t' ≡ false)
unfolding prober_turn probe is_verified
prober_turn-idle timer a t h u mesh idle = ground arith
prober_turn-idle _ a t h u mesh idle = ground arith

-- A probe is healthy exactly if it is the first one, or is no slower than one second, or is no
-- slower than three times the average.
probe_healthy_iff :
    (rtt : ℕ) (t : Tunnel)
    → ((probe_healthy rtt t).1 ≡ true)
      ↔ ((t.direct.probe_rtt ≡ 0) ⊎ (rtt ≤ second) ⊎ (rtt ≤ 3 * t.direct.probe_rtt))
unfolding probe_healthy
probe_healthy_iff rtt t = (λ h. ground arith, λ h. ground arith)

-- A probe that is not healthy leaves the average alone.
probe_healthy_degraded :
    (rtt : ℕ) (t : Tunnel) → (probe_healthy rtt t).1 ≡ false → (probe_healthy rtt t).0 ≡ t
unfolding probe_healthy
probe_healthy_degraded rtt t h = ground arith

-- A first failed probe on a living connection keeps the connection and the trust in it. The next
-- failure on a living connection drops it and ends the trust at all times.
probe_failed_streak :
    (now next later : ℕ) (t : Tunnel)
    → t.prober.fail_streak ≡ 0
    → conn_alive t ≡ true
    → let t₁ = probe_failed now t in
      let t₂ = probe_failed next t₁ in
      (t₁.direct ≡ t.direct)
      × (t₁.net ≡ t.net)
      × (t₂.direct.qconn ≡ none)
      × (is_verified later t₂ ≡ false)
unfolding probe_failed is_verified
probe_failed_streak now next later t s alive = ground arith

pub open_direct-trust_le :
    (a : Answers) (t : Tunnel)
    → ((open_direct a t).0.direct.verified_until ≤ t.direct.verified_until)
      × ((open_direct a t).0.direct.retry_period ≡ t.direct.retry_period)
unfolding open_direct
open_direct-trust_le a t = ground arith

-- The trust after a turn that found the direct client as `d`: no more than before, or earned by an
-- echo.
abbrev Earned : ProbeAnswers → Direct → Tunnel → Type 0
Earned a d t =
    (t.direct.verified_until ≤ d.verified_until)
    ⊎ ((a.echo ≡ echoed) × (t.direct.verified_until ≡ a.done + verify_ttl d))

probe_failed-Earned : (a : ProbeAnswers) (t : Tunnel) → Earned a t.direct (probe_failed a.done t)
unfolding probe_failed
probe_failed-Earned a t = ground arith

probe_answered-Earned :
    (was : Bool) (a : ProbeAnswers) (t : Tunnel)
    → a.echo ≡ echoed
    → Earned a t.direct (probe_answered was a t)
unfolding probe_answered
probe_answered-Earned was a t e = ground arith

probe_echo-Earned :
    (was : Bool) (a : ProbeAnswers) (e : Echo) (t : Tunnel)
    → a.echo ≡ e
    → Earned a t.direct (probe_echo was a e t)
unfolding probe_echo
probe_echo-Earned was a echoed t e = probe_answered-Earned was a t e
probe_echo-Earned was a _ t e = probe_failed-Earned a t

probe_opened-Earned :
    (was : Bool) (a : ProbeAnswers) (r : Opened) (t : Tunnel)
    → Earned a t.direct (probe_opened was a r t)
unfolding probe_opened probe_round_trip
probe_opened-Earned was a (stream c) t =
    if_keeps (λ u. Earned a t.direct (probe_echo was a a.echo u)) a.dies _ t
      (probe_echo-Earned was a a.echo (record t { net = close_conn c t.net }) refl)
      (probe_echo-Earned was a a.echo t refl)
probe_opened-Earned was a (fail cooldown) t = inl (omega arith)
probe_opened-Earned was a (fail _) t = probe_failed-Earned a t

probe_awake-Earned :
    (was : Bool) (a : ProbeAnswers) (t : Tunnel)
    → let (t', r) = open_direct a.opening (sync_state a.now t) in
      Earned a t.direct (probe_opened was a r t')
unfolding sync_state verify_ttl
probe_awake-Earned was a t =
    let s = sync_state a.now t in
    let (t', r) = open_direct a.opening s in
    ground (arith, open_direct-trust_le a.opening s, probe_opened-Earned was a r t')

-- Trust in the direct path grows only by a turn of the prober with a mesh peering up, while the
-- tunnel is not idle, and only if the round trip brought the signature back. It then lasts for
-- twice the retry period from the end of the round trip.
prober_turn-earns :
    (w : Wake) (a : ProbeAnswers) (t : Tunnel)
    → t.direct.verified_until < (prober_turn w a t).direct.verified_until
    → (a.mesh_active ≡ true)
      × (a.echo ≡ echoed)
      × (a.now - t.client.last_active ≤ probe_idle_limit)
      × ((prober_turn w a t).direct.verified_until ≡ a.done + verify_ttl t.direct)
unfolding prober_turn probe
prober_turn-earns timer a t h =
    ground (arith, probe_awake-Earned (is_verified a.now t) a (receive timer t))
prober_turn-earns _ a t h = ground (arith, probe_awake-Earned (is_verified a.now t) a t)

open_mesh-trust_le :
    (m : MeshAnswers) (t : Tunnel)
    → (open_mesh m t).0.direct.verified_until ≤ t.direct.verified_until
open_mesh-trust_le m t = ground (arith, open_mesh-direct m t)

after_direct-trust_le :
    (m : MeshAnswers) (r : Opened) (t : Tunnel)
    → (after_direct m r t).0.direct.verified_until ≤ t.direct.verified_until
unfolding after_direct
after_direct-trust_le m (stream c) t = omega arith
after_direct-trust_le m (fail e) t =
    let s = if conn_alive t then t else set_probe_state mesh_fallback (mark_failed t) in
    ground (arith, open_mesh-trust_le m s)

handle-trust_le :
    (now : ℕ) (a : Answers) (m : MeshAnswers) (t : Tunnel)
    → (handle now a m t).0.direct.verified_until ≤ t.direct.verified_until
unfolding handle open_stream
handle-trust_le now a m t =
    let s = touch_activity now t in
    let (t', r) = open_direct a s in
    ground (arith, open_direct-trust_le a s, after_direct-trust_le m r t', open_mesh-trust_le m s)

run_client-trust :
    (now : ℕ) (listen_ok : Bool) (t : Tunnel)
    → (run_client now listen_ok t).direct.verified_until ≡ t.direct.verified_until
unfolding run_client
run_client-trust now listen_ok t = ground arith

-- No event but a turn of the prober that gets an echo, with a mesh peering up, lets the trust in
-- the direct path grow.
pub step-earns :
    (t : Tunnel) (e : Event)
    → t.direct.verified_until < (step t e).direct.verified_until
    → (w : Wake) × (a : ProbeAnswers) × (e ≡ turn w a) × (a.mesh_active ≡ true) × (a.echo ≡ echoed)
unfolding step direct_wake mesh_wake close_direct
step-earns t (turn w a) h =
    let (mesh, echo, active, until) = prober_turn-earns w a t h in (w, a, refl, mesh, echo)
step-earns t (called now listen_ok) h = absurd (omega (arith, run_client-trust now listen_ok t))
step-earns t (accepted now a m) h = absurd (omega (arith, handle-trust_le now a m t))
step-earns t (direct_woken now c) h = absurd (ground arith)
step-earns t (mesh_woken c) h = absurd (ground arith)
step-earns t (closed c) h = absurd (omega arith)
step-earns t close h = absurd (ground arith)
