-- ===== src/Tunnel/Goroutine/Alone.antt =====
-- A goroutine of the client (internal/yggss/tunnel.go, internal/yggss/direct.go) that no other one
-- interrupts does what the function on the state of the tunnel does that models it as one step.
use yggss.Base.{
  ℕ, ◌≡◌, refl, ap, ◌∙◌, Bool, true, false, Option, none, some, arith, if◌then◌else◌, ◌&&◌,
}
use yggss.Tunnel.State.{Tunnel, Opened, stream, fail, dial_failed, open_failed, mesh_fallback}
use yggss.Tunnel.Direct.{
  Answers, open_direct, mark_failed, set_owner_state, watch_conn, drop_and_fail, conn_alive,
  is_verified, is_current, cool_down, drop_conn_locked,
}
use yggss.Tunnel.Client.{MeshAnswers, handle, after_direct, open_stream, touch_activity}
use yggss.Tunnel.Goroutine.{
  Attempt, over, no_conn, new_conn, flag, attempt, Goroutine, ended, section, branch, act, test,
  done, lock_direct, spawn_watch, unlocked, direct_stream, fall_back, handle_goroutine,
  watch_goroutine,
}

-- The goroutine with all its sections in a row.
unfoldable pub run_alone : Goroutine → Tunnel → Tunnel × Option Opened
run_alone (ended r) t = (t, r)
run_alone (section f k) t = run_alone (k (f t).1) (f t).0

pub branch_alone :
    (b : Bool) (g h : Goroutine) (t : Tunnel)
    → run_alone (branch g h (flag b)) t ≡ (if b then run_alone g t else run_alone h t)
branch_alone true g h t = refl
branch_alone false g h t = refl

pub test_alone :
    (f : Tunnel → Tunnel × Bool) (g h : Goroutine) (t : Tunnel)
    → run_alone (test f g h) t ≡ (let (u, b) = f t in if b then run_alone g u else run_alone h u)
unfolding run_alone
test_alone f g h t = branch_alone (f t).1 g h (f t).0

-- `openStream` past its critical section.
unlock : Answers → Tunnel × Attempt → Tunnel × Opened
unlock a (t, over r) = (t, r)
unlock a (t, no_conn) = (set_owner_state mesh_fallback (mark_failed t), fail dial_failed)
unlock a (t, new_conn c) = (spawn_watch c t, if a.first_ok then stream c else fail open_failed)

unlocked_alone :
    (a : Answers) (k : Opened → Goroutine) (x : Attempt) (t : Tunnel)
    → run_alone (unlocked a k (attempt x)) t ≡ (let (t', r) = unlock a (t, x) in run_alone (k r) t')
unfolding run_alone unlock
unlocked_alone a k (over r) t = refl
unlocked_alone a k no_conn t = refl
unlocked_alone a k (new_conn c) t = refl

unlock-lock_direct : (a : Answers) (t : Tunnel) → unlock a (lock_direct a t) ≡ open_direct a t
unfolding unlock lock_direct open_direct spawn_watch
unlock-lock_direct a t = ground arith

pub direct_stream_alone :
    (a : Answers) (k : Opened → Goroutine) (t : Tunnel)
    → run_alone (direct_stream a k) t ≡ (let (t', r) = open_direct a t in run_alone (k r) t')
unfolding run_alone
direct_stream_alone a k t =
    unlocked_alone a k (lock_direct a t).1 (lock_direct a t).0
    ∙ ap (λ (x : Tunnel × Opened). run_alone (k x.1) x.0) (unlock-lock_direct a t)

-- A result of the state and of the call, as a goroutine returns it.
abbrev pub returned : Tunnel × Opened → Tunnel × Option Opened
returned (t, r) = (t, some r)

fall_back_alone :
    (m : MeshAnswers) (r : Opened) (t : Tunnel)
    → run_alone (fall_back m r) t ≡ returned (after_direct m r t)
unfolding run_alone after_direct
fall_back_alone m (stream c) t = refl
fall_back_alone m (fail e) t = branch_alone (conn_alive t) _ _ t ∙ ground arith

pub handle_alone :
    (now : ℕ) (a : Answers) (m : MeshAnswers) (t : Tunnel)
    → run_alone (handle_goroutine now a m) t ≡ returned (handle now a m t)
unfolding run_alone handle_goroutine handle open_stream touch_activity
handle_alone now a m t =
    let u = touch_activity now t in
    let rest =
      direct_stream_alone a (fall_back m) u
      ∙ fall_back_alone m (open_direct a u).1 (open_direct a u).0 in
    branch_alone (u.client.has_direct && is_verified now u) _ _ u ∙ ground (arith, rest)

pub watch_alone :
    (now c : ℕ) (t : Tunnel) → run_alone (watch_goroutine now c) t ≡ (watch_conn now c t, none)
unfolding run_alone watch_goroutine watch_conn drop_and_fail
watch_alone now c t =
    test_alone
      (λ t.
        if is_current t.direct.qconn c
        then (cool_down now (drop_conn_locked t), true)
        else (t, false))
      (act mark_failed (act (set_owner_state mesh_fallback) done)) done t
    ∙ ground arith
