-- ===== src/Tunnel/Upgrade.antt =====
-- A probe of `startProber` (internal/yggss/direct.go) and the server that answers it
-- (`handleStream` of internal/yggss/tunnel.go).
use yggss.Base.{
  ℕ, ◌+◌, ◌-◌, ◌≤◌, ◌<◌, ◌≡◌, refl, sym, ap, ◌∙◌, subst, Bool, true, false, [], length, take, Text,
  text_eq, ltb, if◌then◌else◌, arith, if_keeps, positive_or, ◌*◌,
}
use yggss.Stream.Peek.{probe_ping, Served, echo, no_upstream, piped, handle_stream}
use yggss.Tunnel.State.{Tunnel, Opened, stream, close_conn, second}
use yggss.Tunnel.Direct.{is_verified, direct_fallback_cooldown, verify_ttl, open_direct}
use yggss.Tunnel.Prober.{
  Wake, timer, Echo, write_failed, read_failed, mismatch, echoed, ProbeAnswers, probe_answered,
  probe_echo, probe_round_trip, probe_opened, sync_state, probe_idle_limit, is_enabled, receive,
  probe, prober_turn,
}
use yggss.Tunnel.Trust.{open_direct-trust_le}

-- The round trip on the probe's stream, where `got` is what comes back before the deadline.
unfoldable pub read_echo : Bool → Text → Echo
read_echo false got = write_failed
read_echo true got =
    if ltb (length got) (length probe_ping)
    then read_failed
    else if text_eq (take (length probe_ping) got) probe_ping
    then echoed
    else mismatch

-- What the server writes to the stream; `upstream` is what the shadowsocks server has to say.
unfoldable pub reply : Text → Served → Text
reply upstream (echo b) = b
reply upstream no_upstream = []
reply upstream (piped s) = upstream

server_echoes :
    (upstream : Text) (dial_ok : Bool)
    → read_echo true (reply upstream (handle_stream dial_ok probe_ping [])) ≡ echoed
unfolding read_echo reply handle_stream text_eq
server_echoes upstream dial_ok = refl

answered-verifies :
    (was : Bool) (a : ProbeAnswers) (later : ℕ) (t : Tunnel)
    → a.done - a.now ≤ second
    → later < a.done + verify_ttl t.direct
    → is_verified later (probe_answered was a t) ≡ true
unfolding probe_answered is_verified
answered-verifies was a later t fast before = ground arith

opened-verifies :
    (was : Bool) (a : ProbeAnswers) (r : Opened) (c later : ℕ) (t : Tunnel)
    → r ≡ stream c
    → a.echo ≡ echoed
    → a.done - a.now ≤ second
    → later < a.done + verify_ttl t.direct
    → is_verified later (probe_opened was a r t) ≡ true
unfolding probe_opened probe_round_trip
opened-verifies was a r c later t at back fast before =
    subst (λ x. is_verified later (probe_opened was a x t) ≡ true) (sym at)
      (subst
        (λ e.
          is_verified later
            (probe_echo was a e (if a.dies then record t { net = close_conn c t.net } else t))
          ≡ true)
        (sym back)
        (if_keeps (λ u. is_verified later (probe_answered was a u) ≡ true) a.dies
          (record t { net = close_conn c t.net }) t
          (answered-verifies was a later (record t { net = close_conn c t.net }) fast before)
          (answered-verifies was a later t fast before)))

sync_state-direct : (now : ℕ) (t : Tunnel) → (sync_state now t).direct ≡ t.direct
unfolding sync_state
sync_state-direct now t = ground arith

-- A turn that gets as far as to open a stream.
turn_opens :
    (w : Wake) (a : ProbeAnswers) (t : Tunnel)
    → t.prober.running ≡ true
    → is_enabled w t.prober ≡ true
    → a.mesh_active ≡ true
    → a.now - t.client.last_active ≤ probe_idle_limit
    → let (t', r) = open_direct a.opening (sync_state a.now (receive w t)) in
      prober_turn w a t ≡ probe_opened (is_verified a.now t) a r t'
unfolding prober_turn probe receive
turn_opens timer a t runs on mesh idle = ground arith
turn_opens _ a t runs on mesh idle = ground arith

receive-direct : (w : Wake) (t : Tunnel) → (receive w t).direct ≡ t.direct
unfolding receive
receive-direct timer t = refl
receive-direct _ t = refl

awake-verifies :
    (was : Bool) (a : ProbeAnswers) (c later : ℕ) (t : Tunnel)
    → (open_direct a.opening (sync_state a.now t)).1 ≡ stream c
    → a.echo ≡ echoed
    → a.done - a.now ≤ second
    → later < a.done + verify_ttl t.direct
    → let (t', r) = open_direct a.opening (sync_state a.now t) in
      is_verified later (probe_opened was a r t') ≡ true
unfolding verify_ttl
awake-verifies was a c later t opened back fast before =
    let s = sync_state a.now t in
    let (t', r) = open_direct a.opening s in
    let kept = open_direct-trust_le a.opening s in
    opened-verifies was a r c later t' opened back fast (
      subst (λ p. later < a.done + 2 * positive_or p direct_fallback_cooldown)
        (sym (kept.1 ∙ ap (λ d. d.retry_period) (sync_state-direct a.now t))) before)

-- A turn of the prober whose stream opens and reaches a server that treats it as `handleStream` does
-- makes the direct path trusted until `verifyTTL` after the end of the round trip, if a mesh peering
-- is up, the tunnel is not idle, and the round trip takes at most a second: whatever the rest of the
-- state, and whether or not the server reaches the shadowsocks server.
pub prober_turn-verifies :
    (w : Wake) (a : ProbeAnswers) (c later : ℕ) (dial_ok : Bool) (upstream : Text) (t : Tunnel)
    → t.prober.running ≡ true
    → is_enabled w t.prober ≡ true
    → a.mesh_active ≡ true
    → a.now - t.client.last_active ≤ probe_idle_limit
    → (open_direct a.opening (sync_state a.now (receive w t))).1 ≡ stream c
    → a.echo ≡ read_echo true (reply upstream (handle_stream dial_ok probe_ping []))
    → a.done - a.now ≤ second
    → later < a.done + verify_ttl t.direct
    → is_verified later (prober_turn w a t) ≡ true
prober_turn-verifies w a c later dial_ok upstream t runs on mesh idle opened back fast before =
    let t' = receive w t in
    let told = back ∙ server_echoes upstream dial_ok in
    ap (is_verified later) (turn_opens w a t runs on mesh idle)
    ∙ awake-verifies (is_verified a.now t) a c later t' opened told fast
        (subst (λ d. later < a.done + verify_ttl d) (sym (receive-direct w t)) before)
