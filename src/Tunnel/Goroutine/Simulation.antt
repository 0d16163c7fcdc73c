-- ===== src/Tunnel/Goroutine/Simulation.antt =====
-- The client as a list of events (Tunnel/Events) is one of the ways in which its goroutines
-- (internal/yggss/tunnel.go, internal/yggss/direct.go) can interleave.
use yggss.Base.{
  ℕ, ◌≡◌, refl, ap, sym, subst, ◌∙◌, Bool, true, false, not, ◌&&◌, Bool-cases, inl, inr, Option,
  none, List, [], ◌∷◌, put_self, arith, if_yes, if_no,
}
use yggss.Tunnel.State.{Tunnel, Opened}
use yggss.Tunnel.Direct.{watch_conn, close_direct}
use yggss.Tunnel.Client.{watch_mesh_conn}
use yggss.Tunnel.Prober.{Wake, ProbeAnswers, prober_turn, probe, receive, is_enabled}
use yggss.Tunnel.Events.{
  Event, called, accepted, turn, direct_woken, mesh_woken, closed, close, unwatch_direct,
  unwatch_mesh, direct_wake, mesh_wake, step, run,
}
use yggss.Tunnel.Goroutine.{Goroutine, ended, handle_goroutine, watch_goroutine, close_goroutine}
use yggss.Tunnel.Goroutine.Turn.{turn_goroutine}
use yggss.Tunnel.Goroutine.System.{
  System, Starts, accepts, probes, direct_ends, closes, starts, mesh_ends, loses, Steps, here, next,
  at_rest,
}
use yggss.Tunnel.Goroutine.Leaks.{unrestricted}
use yggss.Tunnel.Goroutine.Alone.{run_alone, handle_alone, watch_alone}
use yggss.Tunnel.Goroutine.AloneTurn.{turn_alone}
use yggss.Tunnel.Goroutine.Atomic.{finishes_after}

-- The tunnel can become `t`, with the place 0 free again.
Reaches : System → Tunnel → Type 0
Reaches q t =
    (s : System) × (r : Option Opened) × Steps unrestricted q s
    × (s.tunnel ≡ t)
    × (s.pool 0 ≡ ended r)

alone-Reaches :
    (q s : System) (r : Option Opened) (g : Goroutine) (t : Tunnel)
    → Steps unrestricted q s
    → s.pool 0 ≡ ended r
    → Starts unrestricted s.tunnel g t
    → Reaches q (run_alone g t).0
unfolding Reaches
alone-Reaches q s r g t before free st =
    let (u, done, same, over) =
      finishes_after unrestricted 0 g q (record { tunnel = t; pool = _ }) (put_self 0 g s.pool)
        (next before (starts 0 g t r free st)) in
    (u, (run_alone g t).1, done, same, over)

same-Reaches : (q : System) (t u : Tunnel) → t ≡ u → Reaches q t → Reaches q u
same-Reaches q t u e h = subst (Reaches q) e h

unwatch_first :
    (now c : ℕ) (t : Tunnel)
    → watch_conn now c (unwatch_direct c t) ≡ unwatch_direct c (watch_conn now c t)
unfolding watch_conn unwatch_direct
unwatch_first now c t = ground arith

both_true : (b c : Bool) → (b && not c) ≡ true → (b ≡ true) × (c ≡ false)
both_true b c e = (ground arith, ground arith)

turn-Reaches :
    (q s : System) (r : Option Opened)
    → Steps unrestricted q s
    → s.pool 0 ≡ ended r
    → (w : Wake) (a : ProbeAnswers) → Reaches q (prober_turn w a s.tunnel)
unfolding prober_turn Reaches
turn-Reaches q s r before free w a =
    let t = s.tunnel in
    elim (Bool-cases (t.prober.running && is_enabled w t.prober)) [
      | inl on ↦
          same-Reaches q (probe a (receive w t)) _ (sym (if_yes _ (probe a (receive w t)) t on)) (
            same-Reaches q _ _ (ap (λ (x : Tunnel × Option Opened). x.0) (turn_alone w a t))
              (alone-Reaches q s r (turn_goroutine w a) t before free (probes w a tt)))
      | inr off ↦
          same-Reaches q t _ (sym (if_no _ (probe a (receive w t)) t off))
            (s, r, before, refl, free)
    ]

direct-Reaches :
    (q s : System) (r : Option Opened)
    → Steps unrestricted q s
    → s.pool 0 ≡ ended r
    → (now c : ℕ) → Reaches q (direct_wake now c s.tunnel)
unfolding direct_wake Reaches
direct-Reaches q s r before free now c =
    let t = s.tunnel in
    let woken = unwatch_direct c (watch_conn now c t) in
    elim (Bool-cases (t.net.direct_watch c && not (t.net.live c))) [
      | inl on ↦
          let (watched, dead) = both_true (t.net.direct_watch c) (t.net.live c) on in
          same-Reaches q woken _ (sym (if_yes _ woken t on)) (
            same-Reaches q _ _
              (ap (λ (x : Tunnel × Option Opened). x.0) (watch_alone now c (unwatch_direct c t))
                ∙ unwatch_first now c t)
              (alone-Reaches q s r (watch_goroutine now c) (unwatch_direct c t) before free
                (direct_ends now c watched dead)))
      | inr off ↦ same-Reaches q t _ (sym (if_no _ woken t off)) (s, r, before, refl, free)
    ]

mesh-Reaches :
    (q s : System) (r : Option Opened)
    → Steps unrestricted q s
    → s.pool 0 ≡ ended r
    → (c : ℕ) → Reaches q (mesh_wake c s.tunnel)
unfolding mesh_wake Reaches
mesh-Reaches q s r before free c =
    let t = s.tunnel in
    let woken = unwatch_mesh c (watch_mesh_conn c t) in
    elim (Bool-cases (t.net.mesh_watch c && not (t.net.live c))) [
      | inl on ↦
          let (watched, dead) = both_true (t.net.mesh_watch c) (t.net.live c) on in
          same-Reaches q woken _ (sym (if_yes _ woken t on))
            (record s { tunnel = woken }, r, next before (mesh_ends c watched dead), refl, free)
      | inr off ↦ same-Reaches q t _ (sym (if_no _ woken t off)) (s, r, before, refl, free)
    ]

close_alone : (t : Tunnel) → (run_alone close_goroutine t).0 ≡ close_direct t
unfolding run_alone close_goroutine
close_alone t = refl

-- `Run` is called once, before all that is looked at here.
abbrev pub is_after_run : List Event → Bool
is_after_run [] = true
is_after_run (called now listen_ok ∷ es) = false
is_after_run (_ ∷ es) = is_after_run es

event-Reaches :
    (q s : System) (r : Option Opened) (e : Event)
    → Steps unrestricted q s
    → s.pool 0 ≡ ended r
    → is_after_run (e ∷ []) ≡ true
    → Reaches q (step s.tunnel e)
unfolding step Reaches
event-Reaches q s r (called now listen_ok) before free ok = absurd cc
event-Reaches q s r (accepted now a m) before free ok =
    same-Reaches q _ _ (ap (λ (x : Tunnel × Option Opened). x.0) (handle_alone now a m s.tunnel))
      (alone-Reaches q s r (handle_goroutine now a m) s.tunnel before free (accepts now a m tt))
event-Reaches q s r (turn w a) before free ok = turn-Reaches q s r before free w a
event-Reaches q s r (direct_woken now c) before free ok = direct-Reaches q s r before free now c
event-Reaches q s r (mesh_woken c) before free ok = mesh-Reaches q s r before free c
event-Reaches q s r (closed c) before free ok =
    (record s { tunnel = _ }, r, next before (loses c), refl, free)
event-Reaches q s r close before free ok =
    same-Reaches q _ _ (close_alone s.tunnel)
      (alone-Reaches q s r close_goroutine s.tunnel before free closes)

after_run-split :
    (e : Event) (es : List Event)
    → is_after_run (e ∷ es) ≡ true
    → (is_after_run (e ∷ []) ≡ true) × (is_after_run es ≡ true)
after_run-split (called now listen_ok) es ok = absurd cc
after_run-split (accepted now a m) es ok = (refl, ok)
after_run-split (turn w a) es ok = (refl, ok)
after_run-split (direct_woken now c) es ok = (refl, ok)
after_run-split (mesh_woken c) es ok = (refl, ok)
after_run-split (closed c) es ok = (refl, ok)
after_run-split close es ok = (refl, ok)

run-Reaches :
    (q : System) (es : List Event) (t : Tunnel)
    → is_after_run es ≡ true
    → Reaches q t
    → Reaches q (run t es)
unfolding run Reaches
run-Reaches q [] t ok h = h
run-Reaches q (e ∷ es) t ok (s, r, before, same, free) =
    let (first, rest) = after_run-split e es ok in
    run-Reaches q es (step t e) rest
      (same-Reaches q _ _ (ap (λ x. step x e) same) (event-Reaches q s r e before free first))

-- The model of the client by events is a part of the model by goroutines: every list of events after
-- `Run` (accepted connections, turns of the prober, watchers that wake, lost connections, `Close`)
-- is a run of the goroutines that interleave, which ends in the same tunnel.
run-interleaves :
    (t : Tunnel) (es : List Event)
    → is_after_run es ≡ true
    → (s : System) × Steps unrestricted (at_rest t) s × (s.tunnel ≡ run t es)
unfolding Reaches
run-interleaves t es ok =
    let (s, r, steps, same, free) =
      run-Reaches (at_rest t) es t ok (at_rest t, none, here, refl, refl) in
    (s, steps, same)
