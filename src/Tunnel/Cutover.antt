-- ===== src/Tunnel/Cutover.antt =====
-- What a failure of the direct path does to the client: `openStream`, `dropAndFail` and `watchConn`
-- of internal/yggss/direct.go, and the downgrade in `client.openStream` of internal/yggss/tunnel.go.
use yggss.Base.{
  ◌&&◌, if_yes, ◌≢◌, if◌then◌else◌, ◌∙◌, ap, ℕ, ◌+◌, ◌<◌, ◌≤◌, ◌≡◌, true, false, none, some, arith,
  ℤ,
}
use yggss.Tunnel.State.{mesh_fallback, Error, cooldown, dial_failed, fail, Tunnel}
use yggss.Tunnel.Direct.{
  Answers, is_verified, open_direct, conn_alive, mark_failed, set_probe_state, watch_conn,
  direct_fail_cooldown, cap_dial_timeout, direct_dial_timeout,
}
use yggss.Tunnel.Client.{MeshAnswers, path_state, open_mesh, after_direct, open_stream}
use yggss.Tunnel.Events.{direct_woken, direct_wake, step}
use yggss.Tunnel.Ownership.{Owned}
use yggss.Tunnel.Selection.{open_mesh-direct}

-- Opening a stream on the direct path closes no connection that lives, unless something outside
-- closes the cached one while the call waits: the streams on a working connection are spared.
pub open_direct-spares :
    (a : Answers) (t : Tunnel) (c : ℕ)
    → a.dies ≡ false
    → t.net.live c ≡ true
    → (open_direct a t).0.net.live c ≡ true
unfolding open_direct
open_direct-spares a t c d h = ground arith

-- After a dial that failed, every caller within the cooldown gets the cooldown error at once and
-- changes nothing, and the direct path is not verified at any time.
open_direct-cooldown :
    (a b : Answers) (t : Tunnel)
    → (open_direct a t).1 ≡ fail dial_failed
    → b.now < a.later + direct_fail_cooldown
    → let t' = (open_direct a t).0 in
      (open_direct b t' ≡ (t', fail cooldown)) × (t'.direct.verified_until ≡ 0)
unfolding open_direct
open_direct-cooldown a b t e h = ground arith

open_stream-failed :
    (now : ℕ) (a : Answers) (m : MeshAnswers) (t : Tunnel) (e : Error)
    → t.client.has_direct ≡ true
    → is_verified now t ≡ true
    → (open_direct a t).1 ≡ fail e
    → let t' = (open_direct a t).0 in
      open_stream now a m t
      ≡ open_mesh m (if conn_alive t' then t' else set_probe_state mesh_fallback (mark_failed t'))
unfolding open_stream after_direct
open_stream-failed now a m t e d v f =
    if_yes (t.client.has_direct && is_verified now t) _ (open_mesh m t) (ground arith)
    ∙ ap (λ r. after_direct m r (open_direct a t).0) f

open_direct-trust :
    (a : Answers) (t : Tunnel) (e : Error)
    → (open_direct a t).1 ≡ fail e
    → conn_alive (open_direct a t).0 ≡ true
    → (open_direct a t).0.direct.verified_until ≡ t.direct.verified_until
unfolding open_direct conn_alive
open_direct-trust a t e f alive = ground arith

open_direct-has_direct :
    (a : Answers) (t : Tunnel) → (open_direct a t).0.client.has_direct ≡ t.client.has_direct
unfolding open_direct
open_direct-has_direct a t = ground arith

open_mesh-shown :
    (m : MeshAnswers) (t : Tunnel)
    → ((open_mesh m t).0.client.has_direct ≡ t.client.has_direct)
      × ((open_mesh m t).0.client.probe_state ≡ t.client.probe_state)
unfolding open_mesh
open_mesh-shown m t = ground arith

open_mesh-downgraded :
    (m : MeshAnswers) (t : Tunnel) (later : ℕ)
    → t.client.has_direct ≡ true
    → let t' = (open_mesh m (set_probe_state mesh_fallback (mark_failed t))).0 in
      (is_verified later t' ≡ false) × (path_state later t' ≡ mesh_fallback)
unfolding is_verified path_state set_probe_state mark_failed
open_mesh-downgraded m t later d =
    let s = set_probe_state mesh_fallback (mark_failed t) in
    ground (arith, open_mesh-direct m s, open_mesh-shown m s)

-- A failed stream on a direct connection that lives is served over the mesh, and the trust in the
-- direct path is kept for as long as before.
open_stream-transient :
    (now : ℕ) (a : Answers) (m : MeshAnswers) (t : Tunnel) (e : Error)
    → t.client.has_direct ≡ true
    → is_verified now t ≡ true
    → (open_direct a t).1 ≡ fail e
    → conn_alive (open_direct a t).0 ≡ true
    → let t' = (open_stream now a m t).0 in
      (t'.direct.verified_until ≡ t.direct.verified_until)
      × (open_stream now a m t ≡ open_mesh m (open_direct a t).0)
open_stream-transient now a m t e d v f alive =
    let same = open_stream-failed now a m t e d v f ∙ rw alive in
    (
      ap (λ o. o.0.direct.verified_until) same
          ∙ ap (λ u. u.verified_until) (open_mesh-direct m (open_direct a t).0).0
          ∙ open_direct-trust a t e f alive,
      same,
    )

-- A failed stream where no direct connection lives any more ends the trust in the direct path at
-- all times, and the state that is shown becomes the fallback.
pub open_stream-downgrade :
    (now : ℕ) (a : Answers) (m : MeshAnswers) (t : Tunnel) (e : Error) (later : ℕ)
    → t.client.has_direct ≡ true
    → is_verified now t ≡ true
    → (open_direct a t).1 ≡ fail e
    → conn_alive (open_direct a t).0 ≡ false
    → let t' = (open_stream now a m t).0 in
      (is_verified later t' ≡ false) × (path_state later t' ≡ mesh_fallback)
open_stream-downgrade now a m t e later d v f dead =
    rw (open_stream-failed now a m t e d v f, dead)
      (open_mesh-downgraded m _ later (open_direct-has_direct a t ∙ d))

-- The watcher of a connection that is no longer the cached one changes nothing.
watch_conn-stale : (now c : ℕ) (t : Tunnel) → t.direct.qconn ≢ some c → watch_conn now c t ≡ t
unfolding watch_conn
watch_conn-stale now c t e = ground arith

-- A cached direct connection that has died does not go unnoticed: its watcher waits, and when it
-- wakes the connection is dropped and the direct path is not verified at any time.
dead_conn_noticed :
    (t : Tunnel) (now c later : ℕ)
    → Owned t
    → t.direct.qconn ≡ some c
    → t.net.live c ≡ false
    → let t' = step t (direct_woken now c) in
      (t'.direct.qconn ≡ none) × (is_verified later t' ≡ false)
unfolding step direct_wake is_verified
dead_conn_noticed t now c later h e dead = ground (arith, (h.at c).direct_watched e)

-- A direct dial waits for a positive time, and for 5 seconds at most, whatever was configured.
cap_dial_timeout_bounds :
    (timeout : ℤ)
    → (0 < cap_dial_timeout timeout) × (cap_dial_timeout timeout ≤ direct_dial_timeout)
unfolding cap_dial_timeout
cap_dial_timeout_bounds timeout = ground arith
