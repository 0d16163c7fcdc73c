-- ===== src/Tunnel/Goroutine/System.antt =====
-- The client with all its goroutines, which interleave section by section.
use yggss.Base.{List, [], ◌∷◌, ℕ, ◌≡◌, true, false, Option, none, put, put_keeps, refl, subst}
use yggss.Tunnel.State.{Tunnel, Opened, close_conn}
use yggss.Tunnel.Direct.{Answers}
use yggss.Tunnel.Client.{MeshAnswers, watch_mesh_conn}
use yggss.Tunnel.Events.{unwatch_direct, unwatch_mesh}
use yggss.Tunnel.Prober.{Wake, ProbeAnswers}
use yggss.Tunnel.Goroutine.{
  Reply, Goroutine, ended, section, done, handle_goroutine, watch_goroutine, close_goroutine,
}
use yggss.Tunnel.Goroutine.Turn.{turn_goroutine}

-- The goroutines by number; a number that is not in use has `done`.
pub record System : Type 0 where
  pub tunnel : Tunnel
  pub pool : ℕ → Goroutine

-- What is known of the answers of the mesh and of the probes, in a run that is looked at.
pub record Setting : Type 1 where
  pub Mesh : MeshAnswers → Type 0
  pub Probe : ProbeAnswers → Type 0

-- What may be started, and the tunnel from there on: an accepted connection, a turn of the prober, the
-- watcher of a direct connection that is done, which no longer waits, `Close`.
pub data Starts (w : Setting) (t : Tunnel) : Goroutine → Tunnel → Type 0 where
  accepts :
      (now : ℕ) (a : Answers) (m : MeshAnswers) → w.Mesh m → Starts w t (handle_goroutine now a m) t
  probes : (k : Wake) (a : ProbeAnswers) → w.Probe a → Starts w t (turn_goroutine k a) t
  direct_ends :
      (now c : ℕ)
      → t.net.direct_watch c ≡ true
      → t.net.live c ≡ false
      → Starts w t (watch_goroutine now c) (unwatch_direct c t)
  closes : Starts w t close_goroutine t

-- One step: a goroutine starts in a place whose last one has ended, one goes through its next section, the watcher of a
-- mesh connection that is done goes through its only section, or the network closes a connection.
pub data Step (w : Setting) (s : System) : System → Type 0 where
  starts :
      (i : ℕ) (g : Goroutine) (t : Tunnel) (r : Option Opened)
      → s.pool i ≡ ended r
      → Starts w s.tunnel g t
      → Step w s (record { tunnel = t; pool = put i g s.pool })
  enters :
      (i : ℕ) (f : Tunnel → Tunnel × Reply) (k : Reply → Goroutine)
      → s.pool i ≡ section f k
      → Step w s (record { tunnel = (f s.tunnel).0; pool = put i (k (f s.tunnel).1) s.pool })
  mesh_ends :
      (c : ℕ)
      → s.tunnel.net.mesh_watch c ≡ true
      → s.tunnel.net.live c ≡ false
      → Step w s (record s { tunnel = unwatch_mesh c (watch_mesh_conn c s.tunnel) })
  loses :
      (c : ℕ)
      → Step w s (record s { tunnel = record (s.tunnel) { net = close_conn c s.tunnel.net } })

pub data Steps (w : Setting) (s : System) : System → Type 0 where
  here : Steps w s s
  next : {t u : System} → Steps w s t → Step w t u → Steps w s u

-- Before anything is started.
abbrev pub at_rest : Tunnel → System
at_rest t = record { tunnel = t; pool = λ i. done }

-- Every section of the goroutine keeps `P`, and where it ends its result has `Q`.
unfoldable pub Along : (Tunnel → Type 0) → (Option Opened → Type 0) → Goroutine → Type 0
Along P Q (ended r) = Q r
Along P Q (section f k) = (t : Tunnel) → P t → P (f t).0 × Along P Q (k (f t).1)

-- `P` holds of the tunnel, and every goroutine keeps it.
pub record Held (P : Tunnel → Type 0) (Q : Option Opened → Type 0) (s : System) : Type 0 where
  pub now : P s.tunnel
  pub later : (i : ℕ) → Along P Q (s.pool i)

-- What makes `P` hold under every interleaving.
pub record Kept (w : Setting) (P : Tunnel → Type 0) (Q : Option Opened → Type 0) : Type 0 where
  pub idle : Q none
  pub lost : (c : ℕ) (t : Tunnel) → P t → P (record t { net = close_conn c t.net })
  pub mesh_ended :
      (c : ℕ) (t : Tunnel) → t.net.live c ≡ false → P t → P (unwatch_mesh c (watch_mesh_conn c t))
  pub started : (t u : Tunnel) (g : Goroutine) → Starts w t g u → P t → P u × Along P Q g

Step-Held :
    (w : Setting) {P : Tunnel → Type 0} {Q : Option Opened → Type 0}
    → Kept w P Q
    → {s t : System} → Step w s t
    → Held P Q s
    → Held P Q t
unfolding Along
Step-Held w {P} {Q} kept {s} (starts i g t r free st) h =
    let (now, along) = kept.started s.tunnel t g st h.now in
    record {
      now = now;
      later = put_keeps (λ j x. Along P Q x) i g s.pool along (λ j ne. h.later j);
    }
Step-Held w {P} {Q} kept {s} (enters i f k at) h =
    let (now, rest) = subst (Along P Q) at (h.later i) s.tunnel h.now in
    record { now = now; later = put_keeps (λ j x. Along P Q x) i _ s.pool rest (λ j ne. h.later j) }
Step-Held w kept {s} (mesh_ends c watched dead) h = record {
  now = kept.mesh_ended c s.tunnel dead h.now;
  later = h.later;
}
Step-Held w kept {s} (loses c) h = record { now = kept.lost c s.tunnel h.now; later = h.later }

Steps-Held :
    (w : Setting) {P : Tunnel → Type 0} {Q : Option Opened → Type 0}
    → Kept w P Q
    → {s t : System} → Steps w s t
    → Held P Q s
    → Held P Q t
Steps-Held w kept here h = h
Steps-Held w kept (next r st) h = Step-Held w kept st (Steps-Held w kept r h)

-- The rule for all that follows: what every section keeps holds under every interleaving.
pub interleaved :
    (w : Setting) {P : Tunnel → Type 0} {Q : Option Opened → Type 0}
    → Kept w P Q
    → {s : System} {t : Tunnel} → P t
    → Steps w (at_rest t) s
    → Held P Q s
unfolding Along
interleaved w kept p r = Steps-Held w kept r (record { now = p; later = λ i. kept.idle })

abbrev pub enter_at : ℕ → Goroutine → System → System
enter_at i (ended r) s = s
enter_at i (section f k) s =
    let (t, r) = f s.tunnel in record { tunnel = t; pool = put i (k r) s.pool }

-- The goroutines of a schedule go through one section each, in its order; one that has ended does not.
unfoldable pub schedule : List ℕ → System → System
schedule [] s = s
schedule (i ∷ is) s = schedule is (enter_at i (s.pool i) s)

enter_at-Steps :
    (w : Setting) (i : ℕ) (g : Goroutine) (q s : System)
    → s.pool i ≡ g
    → Steps w q s
    → Steps w q (enter_at i g s)
enter_at-Steps w i (ended r) q s at before = before
enter_at-Steps w i (section f k) q s at before = next before (enters i f k at)

pub schedule-Steps :
    (w : Setting) (is : List ℕ) (q s : System) → Steps w q s → Steps w q (schedule is s)
unfolding schedule
schedule-Steps w [] q s before = before
schedule-Steps w (i ∷ is) q s before =
    schedule-Steps w is q (enter_at i (s.pool i) s) (enter_at-Steps w i (s.pool i) q s refl before)

pub joined : (w : Setting) {q s t : System} → Steps w q s → Steps w s t → Steps w q t
joined w before here = before
joined w before (next r st) = next (joined w before r) st
