-- ===== src/Tunnel/Goroutine.antt =====
-- The goroutines of the client (internal/yggss/tunnel.go, internal/yggss/direct.go), cut where they
-- do not hold a mutex. Between two critical sections of one, any other may run.
pub mod Turn
pub mod System
pub mod Rules
pub mod Served
pub mod Traced
pub mod Leaks
pub mod Doubt
pub mod Alone
pub mod AloneTurn
pub mod Atomic
pub mod Simulation
use yggss.Base.{
  ℕ, ◌+◌, ◌-◌, Bool, true, false, not, ◌&&◌, Option, none, some, put, ltb, leb, if◌then◌else◌,
}
use yggss.Tunnel.State.{
  PathState, h2h3, mesh_probing, mesh_fallback, Net, Tunnel, close_conn, cooldown, no_node,
  dial_failed, open_failed, Opened, stream, fail,
}
use yggss.Tunnel.Direct.{
  is_verified, mark_verified, mark_failed, verify_ttl, set_probe_state, set_owner_state, conn_alive,
  drop_conn_locked, cool_down, is_current, probe_healthy, direct_dial_transport, Answers,
  close_direct,
}
use yggss.Tunnel.Client.{MeshAnswers, touch_activity, path_state, open_mesh}
use yggss.Tunnel.Prober.{
  probe_idle_limit, probe_fail_streak_limit, Wake, Echo, echoed, ProbeAnswers, fast_cadence,
  slow_cadence, set_streak, is_h2h3, receive,
}

-- How `directClient.openStream` leaves its critical section: with its result, with a dial that
-- failed, or with a connection that it has dialled and cached.
pub data Attempt : Type 0 where
  over : Opened → Attempt
  no_conn : Attempt
  new_conn : ℕ → Attempt

-- What a critical section tells the goroutine.
pub data Reply : Type 0 where
  nothing : Reply
  flag : Bool → Reply
  attempt : Attempt → Reply
  opened : Opened → Reply

-- What is left of a goroutine: its result, or a critical section and what follows it.
pub data Goroutine : Type 0 where
  ended : Option Opened → Goroutine
  section : (Tunnel → Tunnel × Reply) → (Reply → Goroutine) → Goroutine

abbrev pub act : (Tunnel → Tunnel) → Goroutine → Goroutine
act f g = section (λ t. (f t, nothing)) (λ r. g)

abbrev pub branch : Goroutine → Goroutine → Reply → Goroutine
branch g h (flag true) = g
branch g h _ = h

abbrev pub test : (Tunnel → Tunnel × Bool) → Goroutine → Goroutine → Goroutine
test f g h = section (λ t. let (t', b) = f t in (t', flag b)) (branch g h)

abbrev pub ask : (Tunnel → Bool) → Goroutine → Goroutine → Goroutine
ask f = test (λ t. (t, f t))

abbrev pub done : Goroutine
done = ended none

-- `directClient.openStream` under `d.mu`, from the answer of the dial on.
abbrev pub lock_dialled : Answers → Option ℕ → Tunnel → Tunnel × Attempt
lock_dialled a none t = (cool_down a.later t, no_conn)
lock_dialled a (some c) t =
    (record t { direct = record (t.direct) { qconn = some c; tr = some c } }, new_conn c)

unfoldable pub lock_redial : Answers → Tunnel → Tunnel × Attempt
unfolding direct_dial_transport cool_down
lock_redial a t =
    let (n, dialled) = direct_dial_transport a.dial t.net in
    lock_dialled a dialled (record t { net = n })

unfoldable pub lock_on : Answers → Option ℕ → Tunnel → Tunnel × Attempt
unfolding lock_redial drop_conn_locked
lock_on a none t = lock_redial a (drop_conn_locked t)
lock_on a (some c) t =
    let t' = if a.dies then record t { net = close_conn c t.net } else t in
    if not (t.net.live c)
    then lock_redial a (drop_conn_locked t)
    else if a.open_ok
    then (t, over (stream c))
    else if t'.net.live c
    then (t', over (fail open_failed))
    else lock_redial a (drop_conn_locked t')

-- `directClient.openStream` under `d.mu`.
unfoldable pub lock_direct : Answers → Tunnel → Tunnel × Attempt
unfolding lock_on cool_down
lock_direct a t =
    if ltb a.now t.direct.fail_until
    then (t, over (fail cooldown))
    else if not t.direct.has_node
    then (cool_down a.later t, over (fail no_node))
    else lock_on a t.direct.qconn t

-- `go d.watchConn(qconn)`.
unfoldable pub spawn_watch : ℕ → Tunnel → Tunnel
spawn_watch c t = record t { net = record (t.net) { direct_watch = put c true t.net.direct_watch } }

-- `directClient.openStream` once it has let go of `d.mu`; `k` is the caller.
abbrev pub unlocked : Answers → (Opened → Goroutine) → Reply → Goroutine
unlocked a k (attempt (over r)) = k r
unlocked a k (attempt no_conn) =
    act mark_failed (act (set_owner_state mesh_fallback) (k (fail dial_failed)))
unlocked a k (attempt (new_conn c)) =
    act (spawn_watch c) (k (if a.first_ok then stream c else fail open_failed))
unlocked a k _ = done

abbrev pub direct_stream : Answers → (Opened → Goroutine) → Goroutine
direct_stream a k = section (λ t. let (t', r) = lock_direct a t in (t', attempt r)) (unlocked a k)

abbrev pub return_opened : Reply → Goroutine
return_opened (opened r) = ended (some r)
return_opened _ = done

-- `client.openStream` under `c.mu`.
abbrev pub mesh_stream : MeshAnswers → Goroutine
mesh_stream m = section (λ t. let (t', r) = open_mesh m t in (t', opened r)) return_opened

abbrev pub fall_back : MeshAnswers → Opened → Goroutine
fall_back m (stream c) = ended (some (stream c))
fall_back m (fail e) =
    ask conn_alive (mesh_stream m)
      (act mark_failed (act (set_probe_state mesh_fallback) (mesh_stream m)))

-- A goroutine of `acceptLoop`, up to its `pipe`.
unfoldable pub handle_goroutine : ℕ → Answers → MeshAnswers → Goroutine
handle_goroutine now a m = act (touch_activity now) (
    ask (λ t. t.client.has_direct && is_verified now t) (direct_stream a (fall_back m))
      (mesh_stream m))

abbrev pub drop_then : ℕ → Goroutine → Goroutine
drop_then now g =
    act (λ t. cool_down now (drop_conn_locked t))
      (act mark_failed (act (set_owner_state mesh_fallback) g))

-- `watchConn` from the moment that the connection `c` is done.
unfoldable pub watch_goroutine : ℕ → ℕ → Goroutine
watch_goroutine now c =
    test
      (λ t.
        if is_current t.direct.qconn c
        then (cool_down now (drop_conn_locked t), true)
        else (t, false))
      (act mark_failed (act (set_owner_state mesh_fallback) done)) done

unfoldable pub close_goroutine : Goroutine
close_goroutine = act close_direct done
