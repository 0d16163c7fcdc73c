-- ===== src/Tunnel/Goroutine/AloneTurn.antt =====
-- A turn of the prober (`startProber` of internal/yggss/direct.go) that no other goroutine interrupts.
use yggss.Base.{
  ℕ, ◌+◌, ◌-◌, leb, ltb, ◌≡◌, refl, ap, sym, ◌∙◌, Bool, true, false, Option, none, arith,
  if◌then◌else◌,
}
use yggss.Tunnel.State.{Tunnel, Opened, stream, fail, cooldown, mesh_probing}
use yggss.Tunnel.Direct.{
  open_direct, drop_and_fail, conn_alive, is_verified, probe_healthy, set_probe_state,
}
use yggss.Tunnel.Client.{path_state}
use yggss.Tunnel.Prober.{
  Wake, Echo, echoed, ProbeAnswers, receive, probe, probe_failed, probe_answered, probe_echo,
  probe_opened, probe_round_trip, probe_idle, sync_state, set_streak, fast_cadence,
  probe_fail_streak_limit, probe_idle_limit, is_h2h3,
}
use yggss.Tunnel.Goroutine.{Goroutine, act, ask, done, direct_stream, drop_then}
use yggss.Tunnel.Goroutine.Turn.{
  turn_goroutine, failed_steps, answered_steps, echo_steps, opened_steps, sync_steps, idle_steps,
  awake_steps,
}
use yggss.Tunnel.Goroutine.Alone.{run_alone, branch_alone, direct_stream_alone}

failed_alone : (now : ℕ) (t : Tunnel) → run_alone (failed_steps now) t ≡ (probe_failed now t, none)
unfolding run_alone failed_steps probe_failed drop_and_fail set_streak
failed_alone now t =
    let u = set_streak (t.prober.fail_streak + 1) t in
    let limit =
      branch_alone (leb probe_fail_streak_limit u.prober.fail_streak) (drop_then now done) done u in
    branch_alone (conn_alive t) _ _ t ∙ ground (arith, limit)

answered_alone :
    (was : Bool) (a : ProbeAnswers) (t : Tunnel)
    → run_alone (answered_steps was a) t ≡ (probe_answered was a t, none)
unfolding run_alone answered_steps probe_answered drop_and_fail
answered_alone true a t =
    branch_alone (probe_healthy (a.done - a.now) (set_streak 0 t)).1 _ _ _ ∙ ground arith
answered_alone false a t =
    branch_alone (probe_healthy (a.done - a.now) (set_streak 0 t)).1 _ _ _ ∙ ground arith

echo_alone :
    (was : Bool) (a : ProbeAnswers) (e : Echo) (t : Tunnel)
    → run_alone (echo_steps was a e) t ≡ (probe_echo was a e t, none)
unfolding echo_steps probe_echo
echo_alone was a echoed t = answered_alone was a t
echo_alone was a _ t = failed_alone a.done t

opened_alone :
    (was : Bool) (a : ProbeAnswers) (r : Opened) (t : Tunnel)
    → run_alone (opened_steps was a r) t ≡ (probe_opened was a r t, none)
unfolding run_alone opened_steps probe_opened probe_round_trip
opened_alone was a (stream c) t = echo_alone was a a.echo _
opened_alone was a (fail cooldown) t = refl
opened_alone was a (fail _) t = failed_alone a.done t

sync_alone :
    (now : ℕ) (g : Goroutine) (t : Tunnel)
    → is_verified now t ≡ false
    → run_alone (sync_steps now g) t ≡ run_alone g (sync_state now t)
unfolding run_alone sync_steps sync_state path_state
sync_alone now g t e =
    let sync = act (set_probe_state mesh_probing) g in
    let asked = ask (λ (u : Tunnel). is_h2h3 u.client.probe_state) sync g in
    let shown = branch_alone (is_h2h3 t.client.probe_state) sync g t in
    let verified = branch_alone (is_verified now t) sync asked t in
    branch_alone t.client.has_direct _ _ t ∙ ground (arith, e, shown, verified)

-- A goroutine that ends without a result.
abbrev pub silent : Tunnel → Tunnel × Option Opened
silent t = (t, none)

-- What the prober does with its stream.
abbrev probed : ProbeAnswers → Bool → Tunnel → Tunnel × Option Opened
probed a was t = let (u, r) = open_direct a.opening t in silent (probe_opened was a r u)

probe_stream_alone :
    (was : Bool) (a : ProbeAnswers) (t : Tunnel)
    → run_alone (direct_stream a.opening (opened_steps was a)) t ≡ probed a was t
probe_stream_alone was a t =
    direct_stream_alone a.opening (opened_steps was a) t
    ∙ opened_alone was a (open_direct a.opening t).1 (open_direct a.opening t).0

sync_state-verified : (now : ℕ) (t : Tunnel) → is_verified now t ≡ true → sync_state now t ≡ t
unfolding sync_state is_verified
sync_state-verified now t e = ground (arith, e)

awake_if :
    (b : Bool) (a : ProbeAnswers) (t : Tunnel)
    → is_verified a.now t ≡ b
    → (if b
        then run_alone (direct_stream a.opening (opened_steps true a)) t
        else run_alone (sync_steps a.now (direct_stream a.opening (opened_steps false a))) t)
      ≡ probed a (is_verified a.now t) (sync_state a.now t)
awake_if true a t e =
    probe_stream_alone true a t
    ∙ ap (probed a true) (sym (sync_state-verified a.now t e))
    ∙ ap (λ b. probed a b (sync_state a.now t)) (sym e)
awake_if false a t e =
    sync_alone a.now (direct_stream a.opening (opened_steps false a)) t e
    ∙ probe_stream_alone false a (sync_state a.now t)
    ∙ ap (λ b. probed a b (sync_state a.now t)) (sym e)

awake_alone :
    (a : ProbeAnswers) (t : Tunnel)
    → run_alone (awake_steps a) t ≡ probed a (is_verified a.now t) (sync_state a.now t)
unfolding run_alone awake_steps
awake_alone a t = branch_alone (is_verified a.now t) _ _ t ∙ awake_if (is_verified a.now t) a t refl

idle_alone : (now : ℕ) (t : Tunnel) → run_alone (idle_steps now) t ≡ silent (probe_idle now t)
unfolding run_alone idle_steps probe_idle fast_cadence
idle_alone now t = branch_alone (is_verified now t) _ _ t ∙ ground arith

turn_if :
    (active idle : Bool) (a : ProbeAnswers) (t : Tunnel)
    → a.mesh_active ≡ active
    → ltb probe_idle_limit (a.now - t.client.last_active) ≡ idle
    → (if active
        then (if idle then run_alone (idle_steps a.now) t else run_alone (awake_steps a) t)
        else silent t)
      ≡ silent (probe a t)
unfolding probe
turn_if true true a t e f = idle_alone a.now t ∙ rw (e, f) refl
turn_if true false a t e f = awake_alone a t ∙ rw (e, f) refl
turn_if false idle a t e f = rw e refl

active_alone :
    (b : Bool) (g : Goroutine) (t : Tunnel)
    → run_alone (if b then g else done) t ≡ (if b then run_alone g t else silent t)
unfolding run_alone
active_alone true g t = refl
active_alone false g t = refl

pub turn_alone :
    (w : Wake) (a : ProbeAnswers) (t : Tunnel)
    → run_alone (turn_goroutine w a) t ≡ silent (probe a (receive w t))
unfolding run_alone turn_goroutine
turn_alone w a t =
    let u = receive w t in
    let idle = ltb probe_idle_limit (a.now - u.client.last_active) in
    active_alone a.mesh_active
      (ask (λ t'. ltb probe_idle_limit (a.now - t'.client.last_active)) (idle_steps a.now)
        (awake_steps a))
      u
    ∙ ap (λ x. if a.mesh_active then x else silent u)
        (branch_alone idle (idle_steps a.now) (awake_steps a) u)
    ∙ turn_if a.mesh_active idle a u refl refl
