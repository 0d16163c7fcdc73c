-- ===== src/Tests/Goroutines.antt =====
-- Runs of the client's goroutines (internal/yggss/tunnel.go, internal/yggss/direct.go): a call of `handle`
-- starts before the prober verifies the direct path, and its test comes after.
use yggss.Base.{ℕ, ◌≡◌, refl, true, false, none, some, pos, put, List, [], ◌∷◌, ◌≢◌, arith}
use yggss.Tunnel.State.{Tunnel, stream}
use yggss.Tunnel.Direct.{
  Answers, connected, probe_healthy, set_probe_state, mark_verified, verify_ttl, is_verified,
}
use yggss.Tunnel.Client.{MeshAnswers, new_client, run_client}
use yggss.Tunnel.Prober.{
  timer, Echo, echoed, mismatch, ProbeAnswers, receive, set_streak, slow_cadence,
}
use yggss.Tunnel.Goroutine.{ended, done, lock_direct, spawn_watch, handle_goroutine}
use yggss.Tunnel.Goroutine.Turn.{turn_goroutine}
use yggss.Tunnel.Goroutine.System.{
  System, Setting, accepts, probes, starts, Steps, here, next, at_rest, schedule, schedule-Steps,
}
use yggss.Tunnel.Goroutine.Served.{Works, mesh_works, handles-served, new_call-served}
use yggss.Tunnel.Goroutine.Traced.{Traced}
use yggss.Tunnel.Goroutine.Leaks.{unrestricted, interleaved-Traced}
use yggss.Tunnel.Goroutine.Doubt.{unechoed, unechoed-not_verified}

abbrev pub begun : Tunnel
begun = run_client 5 true (new_client true (pos 0) (pos 0))

abbrev pub answers : Answers
answers = record {
  now = 6;
  open_ok = true;
  dies = false;
  dial = connected;
  later = 7;
  first_ok = true;
}

abbrev pub mesh_answers : MeshAnswers
mesh_answers = record {
  active = true;
  open_ok = true;
  active_at_dial = true;
  dial_ok = true;
  first_ok = true;
}

abbrev pub probe_answers : Echo → ProbeAnswers
probe_answers e = record {
  mesh_active = true;
  now = 6;
  opening = answers;
  echo = e;
  dies = false;
  done = 8;
}

-- The call, at 0, and a turn of the prober, at 1, have been started.
abbrev pub started : Echo → System
started e = record {
  tunnel = begun;
  pool =
      put 1 (turn_goroutine timer (probe_answers e))
        (put 0 (handle_goroutine 10 answers mesh_answers) (λ i. done));
}

pub started-Steps :
    (w : Setting) (e : Echo)
    → w.Mesh mesh_answers
    → w.Probe (probe_answers e)
    → Steps w (at_rest begun) (started e)
started-Steps w e good known =
    next
      (next here (
        starts 0 (handle_goroutine 10 answers mesh_answers) begun none refl
          (accepts 10 answers mesh_answers good)))
      (starts 1 (turn_goroutine timer (probe_answers e)) begun none refl
        (probes timer (probe_answers e) known))

-- The call is counted as activity, the prober goes through its whole turn, the call makes its test.
abbrev interleaving : List ℕ
interleaving = 0 ∷ 1 ∷ 1 ∷ 1 ∷ 1 ∷ 1 ∷ 1 ∷ 1 ∷ 1 ∷ 1 ∷ 1 ∷ 1 ∷ 1 ∷ 1 ∷ 1 ∷ 0 ∷ 0 ∷ []

abbrev after : Echo → System
after e = schedule interleaving (started e)

-- The call ends with a stream of the direct connection, which was not verified when it began.
ends_on_direct : (after echoed).pool 0 ≡ ended (some (stream 0))
unfolding schedule turn_goroutine handle_goroutine run_client new_client receive is_verified
    lock_direct probe_healthy set_streak spawn_watch slow_cadence set_probe_state mark_verified
    verify_ttl
ends_on_direct = refl

verified_meanwhile : (after echoed).tunnel.direct.verified_until ≡ 60000000008
unfolding schedule turn_goroutine handle_goroutine run_client new_client receive is_verified
    lock_direct probe_healthy set_streak spawn_watch slow_cadence set_probe_state mark_verified
    verify_ttl
verified_meanwhile = refl

handles-served_example : (c : ℕ) × (stream 0 ≡ stream c)
handles-served_example =
    handles-served true (pos 0) (pos 0) 5 (after echoed) 0 (stream 0)
      (schedule-Steps mesh_works interleaving _ _
        (started-Steps mesh_works echoed (record { active = refl; dials = refl; opens = refl }) tt))
      ends_on_direct

-- The place of the call that has ended takes the next one.
new_call-served_example :
    (u : System) × (c : ℕ) × Steps mesh_works (after echoed) u
    × (u.pool 0 ≡ ended (some (stream c)))
new_call-served_example =
    let works : Works mesh_answers = record { active = refl; dials = refl; opens = refl } in
    new_call-served true (pos 0) (pos 0) 5 (after echoed) 0 (some (stream 0)) 30 answers
      mesh_answers
      (schedule-Steps mesh_works interleaving _ _ (started-Steps mesh_works echoed works tt))
      ends_on_direct works

interleaved-Traced_example : Traced (after echoed).tunnel
interleaved-Traced_example =
    interleaved-Traced true (pos 0) (pos 0) 5 true (after echoed)
      (schedule-Steps unrestricted interleaving _ _ (started-Steps unrestricted echoed tt tt))

is_no_echo : mismatch ≢ echoed
is_no_echo = λ e. ground (arith, e)

unechoed-not_verified_example : is_verified 20 (after mismatch).tunnel ≡ false
unechoed-not_verified_example =
    unechoed-not_verified true (pos 0) (pos 0) 5 20 true (after mismatch)
      (schedule-Steps unechoed interleaving _ _ (started-Steps unechoed mismatch tt is_no_echo))
