-- ===== src/Tunnel/Goroutine/Atomic.antt =====
-- The goroutines of the client (internal/yggss/tunnel.go, internal/yggss/direct.go) against the
-- functions that model each of them as one step of the tunnel.
use yggss.Base.{ℕ, ◌≡◌, refl, none, some, put_self}
use yggss.Tunnel.State.{Tunnel}
use yggss.Tunnel.Direct.{Answers, watch_conn}
use yggss.Tunnel.Client.{MeshAnswers, handle}
use yggss.Tunnel.Prober.{Wake, ProbeAnswers, receive, probe}
use yggss.Tunnel.Goroutine.{Goroutine, ended, section, handle_goroutine, watch_goroutine}
use yggss.Tunnel.Goroutine.Turn.{turn_goroutine}
use yggss.Tunnel.Goroutine.System.{System, Setting, enters, Steps, here, next}
use yggss.Tunnel.Goroutine.Alone.{run_alone, handle_alone, watch_alone}
use yggss.Tunnel.Goroutine.AloneTurn.{turn_alone}

-- A goroutine whose critical sections follow each other with nothing of another goroutine between
-- them does what the one-step function does: a call of `handle` leaves the state of `handle` and ends
-- with its result, a turn of the prober leaves the state of `probe` after the receive, and a watcher
-- leaves the state of `watch_conn`; the last two end without a result.
run_alone-atomic :
    (now : ℕ) (a : Answers) (m : MeshAnswers) (w : Wake) (p : ProbeAnswers) (c : ℕ) (t : Tunnel)
    → (run_alone (handle_goroutine now a m) t ≡ ((handle now a m t).0, some (handle now a m t).1))
      × (run_alone (turn_goroutine w p) t ≡ (probe p (receive w t), none))
      × (run_alone (watch_goroutine now c) t ≡ (watch_conn now c t, none))
run_alone-atomic now a m w p c t = (handle_alone now a m t, turn_alone w p t, watch_alone now c t)

-- The run of `g` alone, as steps of the system after those from `q` to `s`.
pub finishes_after :
    (w : Setting) (i : ℕ) (g : Goroutine) (q s : System)
    → s.pool i ≡ g
    → Steps w q s
    → (u : System) × Steps w q u
      × (u.tunnel ≡ (run_alone g s.tunnel).0)
      × (u.pool i ≡ ended (run_alone g s.tunnel).1)
unfolding run_alone
finishes_after w i (ended r) q s at before = (s, before, refl, at)
finishes_after w i (section f k) q s at before =
    finishes_after w i (k (f s.tunnel).1) q (record { tunnel = (f s.tunnel).0; pool = _ })
      (put_self i (k (f s.tunnel).1) s.pool) (next before (enters i f k at))

-- No goroutine of the client is ever stuck: in every state of the system, wherever the others stand, a
-- goroutine that is left alone comes to its end, with the state and the result of `run_alone`.
goroutine-finishes :
    (w : Setting) (s : System) (i : ℕ)
    → (u : System) × Steps w s u
      × (u.tunnel ≡ (run_alone (s.pool i) s.tunnel).0)
      × (u.pool i ≡ ended (run_alone (s.pool i) s.tunnel).1)
goroutine-finishes w s i = finishes_after w i (s.pool i) s s refl here
