-- ===== src/Tunnel/Ownership.antt =====
-- No connection and no QUIC transport of the client side leaks: the invariant, and the methods of
-- `directClient` (internal/yggss/direct.go) keep it.
pub mod Mesh
pub mod Run
use yggss.Base.{
  ◌∙◌, sym, ℕ, ◌+◌, ◌≤◌, ◌<◌, ◌≡◌, refl, ◌⊎◌, inl, inr, Bool, true, false, not, Option, none, some,
  List, [], ◌∷◌, arith, ℤ, if_keeps,
}
use yggss.Tunnel.State.{PathState, Opened, stream, fail, Net, Tunnel, close_conn}
use yggss.Tunnel.Direct.{
  Answers, drop_conn_locked, open_direct, open_on, redial, mark_failed, set_owner_state,
  drop_and_fail, set_probe_state, cool_down, mark_verified,
}
use yggss.Tunnel.Client.{MeshAnswers, open_mesh, open_stream, handle, new_client}
use yggss.Tunnel.Prober.{probe_failed, probe_answered, probe, prober_turn}
use yggss.Tunnel.Events.{Event, step, run}

-- What is known of the dial `c`: a transport that is not closed belongs to the cached direct connection, a live
-- connection is cached, and a cached connection has a goroutine that waits for its end.
pub record OwnedAt (t : Tunnel) (c : ℕ) : Type 0 where
  pub fresh_live : t.net.live c ≡ true → c < t.net.next
  pub fresh_transport : t.net.transports c ≡ true → c < t.net.next
  pub transport_owned : t.net.transports c ≡ true → t.direct.tr ≡ some c
  pub live_cached : t.net.live c ≡ true → (t.direct.qconn ≡ some c) ⊎ (t.client.qconn ≡ some c)
  pub direct_watched : t.direct.qconn ≡ some c → t.net.direct_watch c ≡ true
  pub mesh_watched : t.client.qconn ≡ some c → t.net.mesh_watch c ≡ true

pub record Owned (t : Tunnel) : Type 0 where
  pub same_tr : t.direct.tr ≡ t.direct.qconn
  pub at : (c : ℕ) → OwnedAt t c

abbrev pub OwnedAfter : Tunnel × Opened → Type 0
OwnedAfter r = Owned r.0

pub drop_conn_locked-Owned : (t : Tunnel) → Owned t → Owned (drop_conn_locked t)
unfolding drop_conn_locked
drop_conn_locked-Owned t h = record { same_tr = refl; at = λ c. ground (arith, h.at c) }

redial-Owned : (a : Answers) (t : Tunnel) → t.direct.qconn ≡ none → Owned t → Owned (redial a t).0
unfolding redial
redial-Owned a t e h = record { same_tr = ground arith; at = λ c. ground (arith, h.at c) }

drop_conn_locked-qconn : (t : Tunnel) → (drop_conn_locked t).direct.qconn ≡ none
unfolding drop_conn_locked
drop_conn_locked-qconn t = refl

pub close_conn-Owned :
    (c : ℕ) (t : Tunnel) → Owned t → Owned (record t { net = close_conn c t.net })
close_conn-Owned c t h = record { same_tr = h.same_tr; at = λ b. ground (arith, h.at b) }

reconnect-Owned : (a : Answers) (t : Tunnel) → Owned t → Owned (redial a (drop_conn_locked t)).0
reconnect-Owned a t h = redial-Owned a _ (drop_conn_locked-qconn t) (drop_conn_locked-Owned t h)

open_on-Owned : (a : Answers) (o : Option ℕ) (t : Tunnel) → Owned t → Owned (open_on a o t).0
unfolding open_on
open_on-Owned a none t h = reconnect-Owned a t h
open_on-Owned a (some c) t h =
    let h' = if_keeps Owned a.dies _ t (close_conn-Owned c t h) h in
    if_keeps OwnedAfter _ _ _ (reconnect-Owned a t h)
      (if_keeps OwnedAfter _ _ _ h (if_keeps OwnedAfter _ _ _ h' (reconnect-Owned a _ h')))

cool_down-Owned : (now : ℕ) (t : Tunnel) → Owned t → Owned (cool_down now t)
unfolding cool_down
cool_down-Owned now t h = record { same_tr = h.same_tr; at = λ c. ground (arith, h.at c) }

pub open_direct-Owned : (a : Answers) (t : Tunnel) → Owned t → Owned (open_direct a t).0
unfolding open_direct
open_direct-Owned a t h =
    if_keeps OwnedAfter _ _ _ h
      (if_keeps OwnedAfter _ _ _ (cool_down-Owned a.later t h) (open_on-Owned a _ t h))

-- The invariant reads only the network and the cached connections.
pub Owned-of_same :
    (t u : Tunnel)
    → u.net ≡ t.net
    → u.direct.qconn ≡ t.direct.qconn
    → u.direct.tr ≡ t.direct.tr
    → u.client.qconn ≡ t.client.qconn
    → Owned t
    → Owned u
Owned-of_same t u n q r m h = record {
  same_tr = r ∙ h.same_tr ∙ sym q;
  at = λ c.
      let k = h.at c in
      record {
        fresh_live = rw n k.fresh_live;
        fresh_transport = rw n k.fresh_transport;
        transport_owned = rw (n, r) k.transport_owned;
        live_cached = rw (n, q, m) k.live_cached;
        direct_watched = rw (n, q) k.direct_watched;
        mesh_watched = rw (n, m) k.mesh_watched;
      };
}

pub mark_failed-Owned : (t : Tunnel) → Owned t → Owned (mark_failed t)
unfolding mark_failed
mark_failed-Owned t h = Owned-of_same t _ refl refl refl refl h

pub mark_verified-Owned : (now ttl : ℕ) (t : Tunnel) → Owned t → Owned (mark_verified now ttl t)
unfolding mark_verified
mark_verified-Owned now ttl t h = Owned-of_same t _ refl refl refl refl h

pub set_probe_state-Owned : (s : PathState) (t : Tunnel) → Owned t → Owned (set_probe_state s t)
unfolding set_probe_state
set_probe_state-Owned s t h = Owned-of_same t _ refl refl refl refl h

set_owner_state-Owned : (s : PathState) (t : Tunnel) → Owned t → Owned (set_owner_state s t)
unfolding set_owner_state
set_owner_state-Owned s t h = if_keeps Owned t.direct.has_owner _ t (set_probe_state-Owned s t h) h

pub drop_and_fail-Owned : (now : ℕ) (t : Tunnel) → Owned t → Owned (drop_and_fail now t)
unfolding drop_and_fail
drop_and_fail-Owned now t h =
    set_owner_state-Owned _ _
      (mark_failed-Owned _ (cool_down-Owned now _ (drop_conn_locked-Owned t h)))
