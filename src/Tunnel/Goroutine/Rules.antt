-- ===== src/Tunnel/Goroutine/Rules.antt =====
-- What every critical section keeps, every goroutine keeps.
use yggss.Base.{ℕ, ◌+◌, ◌-◌, ◌≡◌, refl, Bool, true, false, Option, none, some, if_keeps}
use yggss.Tunnel.State.{
  PathState, Tunnel, Opened, stream, fail, cooldown, close_conn, mesh_fallback, mesh_probing, h2h3,
}
use yggss.Tunnel.Direct.{
  Answers, is_verified, mark_failed, mark_verified, verify_ttl, set_probe_state, set_owner_state,
  cool_down, drop_conn_locked, probe_healthy, close_direct, is_current,
}
use yggss.Tunnel.Client.{MeshAnswers, touch_activity, open_mesh, watch_mesh_conn}
use yggss.Tunnel.Events.{unwatch_direct, unwatch_mesh}
use yggss.Tunnel.Prober.{
  Wake, Echo, echoed, ProbeAnswers, fast_cadence, slow_cadence, set_streak, receive,
}
use yggss.Tunnel.Goroutine.{
  ended, flag, attempt, branch, Goroutine, Attempt, over, no_conn, new_conn, act, ask, test, done,
  lock_direct, spawn_watch, direct_stream, unlocked, mesh_stream, fall_back, handle_goroutine,
  drop_then, watch_goroutine, close_goroutine,
}
use yggss.Tunnel.Goroutine.Turn.{
  failed_steps, answered_steps, echo_steps, opened_steps, idle_steps, sync_steps, awake_steps,
  turn_goroutine,
}
use yggss.Tunnel.Goroutine.System.{
  Setting, Starts, accepts, probes, direct_ends, closes, Along, Kept,
}

-- The sections of the client, and what `P` and `Q` have to say of them.
pub record Sections (w : Setting) (P : Tunnel → Type 0) (Q : Option Opened → Type 0) : Type 0 where
  pub nothing : Q none
  pub raced : (c : ℕ) → Q (some (stream c))
  pub meshed :
      (m : MeshAnswers)
      → w.Mesh m
      → (t : Tunnel) → P t
      → P (open_mesh m t).0 × Q (some (open_mesh m t).1)
  pub verified :
      (a : ProbeAnswers)
      → w.Probe a
      → a.echo ≡ echoed
      → (t : Tunnel) → P t
      → P (mark_verified a.done (verify_ttl t.direct) t)
  pub touched : (now : ℕ) (t : Tunnel) → P t → P (touch_activity now t)
  pub failed : (t : Tunnel) → P t → P (mark_failed t)
  pub shown : (s : PathState) (t : Tunnel) → P t → P (set_probe_state s t)
  pub told : (s : PathState) (t : Tunnel) → P t → P (set_owner_state s t)
  pub locked : (a : Answers) (t : Tunnel) → P t → P (lock_direct a t).0
  pub watched : (c : ℕ) (t : Tunnel) → P t → P (spawn_watch c t)
  pub dropped : (now : ℕ) (t : Tunnel) → P t → P (cool_down now (drop_conn_locked t))
  pub healthy : (rtt : ℕ) (t : Tunnel) → P t → P (probe_healthy rtt t).0
  pub streak : (k : ℕ) (t : Tunnel) → P t → P (set_streak k t)
  pub fast : (t : Tunnel) → P t → P (fast_cadence t)
  pub slow : (t : Tunnel) → P t → P (slow_cadence t)
  pub received : (k : Wake) (t : Tunnel) → P t → P (receive k t)
  pub mesh_ended : (c : ℕ) (t : Tunnel) → t.net.live c ≡ false → P t → P (watch_mesh_conn c t)
  pub closed : (t : Tunnel) → P t → P (close_direct t)
  pub unwatched_direct : (c : ℕ) (t : Tunnel) → P t → P (unwatch_direct c t)
  pub unwatched_mesh : (c : ℕ) (t : Tunnel) → P t → P (unwatch_mesh c t)
  pub lost : (c : ℕ) (t : Tunnel) → P t → P (record t { net = close_conn c t.net })

module _ (w : Setting) {P : Tunnel → Type 0} {Q : Option Opened → Type 0}
    (ok : Sections w P Q) where
  ended-Along : (r : Option Opened) → Q r → Along P Q (ended r)
  unfolding Along
  ended-Along r q = q

  done-Along : Along P Q done
  done-Along = ended-Along none ok.nothing

  act-Along :
      (f : Tunnel → Tunnel) (g : Goroutine)
      → ((t : Tunnel) → P t → P (f t))
      → Along P Q g
      → Along P Q (act f g)
  unfolding Along
  act-Along f g keep rest t h = (keep t h, rest)

  branch-Along :
      (b : Bool) (g h : Goroutine) → Along P Q g → Along P Q h → Along P Q (branch g h (flag b))
  branch-Along true g h yes_g no_h = yes_g
  branch-Along false g h yes_g no_h = no_h

  test-Along :
      (f : Tunnel → Tunnel × Bool) (g h : Goroutine)
      → ((t : Tunnel) → P t → P (f t).0)
      → Along P Q g
      → Along P Q h
      → Along P Q (test f g h)
  unfolding Along
  test-Along f g h keep on off t p = (keep t p, branch-Along (f t).1 g h on off)

  ask-Along :
      (f : Tunnel → Bool) (g h : Goroutine) → Along P Q g → Along P Q h → Along P Q (ask f g h)
  ask-Along f g h on off = test-Along (λ t. (t, f t)) g h (λ t p. p) on off

  drop_then-Along : (now : ℕ) (g : Goroutine) → Along P Q g → Along P Q (drop_then now g)
  drop_then-Along now g rest =
      act-Along _ _ (ok.dropped now)
        (act-Along _ _ ok.failed (act-Along _ _ (ok.told mesh_fallback) rest))

  unlocked-Along :
      (a : Answers) (k : Opened → Goroutine)
      → ((r : Opened) → Along P Q (k r))
      → (x : Attempt) → Along P Q (unlocked a k (attempt x))
  unlocked-Along a k rest (over r) = rest r
  unlocked-Along a k rest no_conn =
      act-Along _ _ ok.failed (act-Along _ _ (ok.told mesh_fallback) (rest _))
  unlocked-Along a k rest (new_conn c) = act-Along _ _ (ok.watched c) (rest _)

  direct_stream-Along :
      (a : Answers) (k : Opened → Goroutine)
      → ((r : Opened) → Along P Q (k r))
      → Along P Q (direct_stream a k)
  unfolding Along
  direct_stream-Along a k rest t h = (ok.locked a t h, unlocked-Along a k rest (lock_direct a t).1)

  mesh_stream-Along : (m : MeshAnswers) → w.Mesh m → Along P Q (mesh_stream m)
  unfolding Along
  mesh_stream-Along m good t h = ok.meshed m good t h

  fall_back-Along : (m : MeshAnswers) → w.Mesh m → (r : Opened) → Along P Q (fall_back m r)
  fall_back-Along m good (stream c) = ended-Along _ (ok.raced c)
  fall_back-Along m good (fail e) =
      ask-Along _ _ _ (mesh_stream-Along m good) (
        act-Along _ _ ok.failed (act-Along _ _ (ok.shown mesh_fallback) (mesh_stream-Along m good)))

  handle-Along :
      (now : ℕ) (a : Answers) (m : MeshAnswers) → w.Mesh m → Along P Q (handle_goroutine now a m)
  unfolding handle_goroutine
  handle-Along now a m good = act-Along _ _ (ok.touched now) (
      ask-Along _ _ _ (direct_stream-Along a _ (fall_back-Along m good)) (mesh_stream-Along m good))

  watch-Along : (now c : ℕ) → Along P Q (watch_goroutine now c)
  unfolding watch_goroutine
  watch-Along now c =
      test-Along _ _ _
        (λ t h.
          if_keeps (λ (x : Tunnel × Bool). P x.0) (is_current t.direct.qconn c) _ _
            (ok.dropped now t h) h)
        (act-Along _ _ ok.failed (act-Along _ _ (ok.told mesh_fallback) done-Along)) done-Along

  failed_steps-Along : (now : ℕ) → Along P Q (failed_steps now)
  unfolding failed_steps
  failed_steps-Along now =
      ask-Along _ _ _
        (act-Along _ _ (λ t. ok.streak (t.prober.fail_streak + 1) t)
          (ask-Along _ _ _ (drop_then-Along now done done-Along) done-Along))
        (drop_then-Along now _ (act-Along _ _ (ok.streak 0) (act-Along _ _ ok.fast done-Along)))

  answered_steps-Along :
      (was : Bool) (a : ProbeAnswers)
      → w.Probe a
      → a.echo ≡ echoed
      → Along P Q (answered_steps was a)
  unfolding answered_steps
  answered_steps-Along was a good e = act-Along _ _ (ok.streak 0) (
      test-Along _ _ _ (ok.healthy (a.done - a.now))
        (act-Along _ _ (ok.verified a good e)
          (act-Along _ _ (ok.shown h2h3) (act-Along _ _ ok.slow done-Along)))
        (if_keeps (Along P Q) was _ _ (drop_then-Along a.done done done-Along) done-Along))

  echo_steps-Along :
      (was : Bool) (a : ProbeAnswers) (e : Echo)
      → w.Probe a
      → a.echo ≡ e
      → Along P Q (echo_steps was a e)
  unfolding echo_steps
  echo_steps-Along was a echoed good e = answered_steps-Along was a good e
  echo_steps-Along was a _ good e = failed_steps-Along a.done

  opened_steps-Along :
      (was : Bool) (a : ProbeAnswers) → w.Probe a → (r : Opened) → Along P Q (opened_steps was a r)
  unfolding opened_steps
  opened_steps-Along was a good (stream c) =
      act-Along _ _ (λ t h. if_keeps P a.dies _ t (ok.lost c t h) h)
        (echo_steps-Along was a a.echo good refl)
  opened_steps-Along was a good (fail cooldown) = done-Along
  opened_steps-Along was a good (fail _) = failed_steps-Along a.done

  sync_steps-Along : (now : ℕ) (g : Goroutine) → Along P Q g → Along P Q (sync_steps now g)
  unfolding sync_steps
  sync_steps-Along now g rest =
      let sync = act-Along (set_probe_state mesh_probing) g (ok.shown mesh_probing) rest in
      ask-Along _ _ _ (ask-Along _ _ _ sync (ask-Along _ _ _ sync rest)) rest

  turn-Along : (k : Wake) (a : ProbeAnswers) → w.Probe a → Along P Q (turn_goroutine k a)
  unfolding turn_goroutine idle_steps awake_steps
  turn-Along k a good =
      let idle =
        ask-Along (is_verified a.now) _ done
          (act-Along _ _ ok.failed
            (act-Along _ _ (ok.shown mesh_probing) (act-Along _ _ ok.fast done-Along)))
          done-Along in
      let awake =
        ask-Along (is_verified a.now) _ _
          (direct_stream-Along a.opening _ (opened_steps-Along true a good))
          (sync_steps-Along a.now _
            (direct_stream-Along a.opening _ (opened_steps-Along false a good))) in
      act-Along _ _ (ok.received k)
        (if_keeps (Along P Q) a.mesh_active _ _ (ask-Along _ _ _ idle awake) done-Along)

  started-Along : (t u : Tunnel) (g : Goroutine) → Starts w t g u → P t → P u × Along P Q g
  unfolding close_goroutine
  started-Along t _ _ (accepts now a m good) h = (h, handle-Along now a m good)
  started-Along t _ _ (probes k a good) h = (h, turn-Along k a good)
  started-Along t _ _ (direct_ends now c watched dead) h =
      (ok.unwatched_direct c t h, watch-Along now c)
  started-Along t _ _ closes h = (h, act-Along _ _ ok.closed done-Along)

  pub sections-Kept : Kept w P Q
  sections-Kept = record {
    idle = ok.nothing;
    lost = ok.lost;
    mesh_ended = λ c t dead h. ok.unwatched_mesh c _ (ok.mesh_ended c t dead h);
    started = started-Along;
  }
