-- ===== src/Tunnel/Goroutine/Traced.antt =====
-- What every critical section of the client (internal/yggss/tunnel.go, internal/yggss/direct.go) keeps of
-- its connections and transports.
use yggss.Base.{◌∙◌, sym, ℕ, ◌<◌, ◌≡◌, refl, ◌⊎◌, true, false, Option, none, some, arith, if_keeps}
use yggss.Tunnel.State.{PathState, Tunnel, Opened, close_conn}
use yggss.Tunnel.Direct.{
  Answers, set_probe_state, set_owner_state, cool_down, drop_conn_locked, probe_healthy,
  close_direct, stop_prober,
}
use yggss.Tunnel.Client.{
  MeshAnswers, open_mesh, open_mesh_on, dial_mesh, reset_mesh, check_peering, check_done,
  watch_mesh_conn,
}
use yggss.Tunnel.Prober.{Wake, timer, receive}
use yggss.Tunnel.Goroutine.{Attempt, lock_direct, lock_on, lock_redial}

-- What is known of the dial `c` between any two critical sections: a transport that is not closed
-- belongs to the cached direct connection, and a live connection is cached.
pub record TracedAt (t : Tunnel) (c : ℕ) : Type 0 where
  pub fresh_live : t.net.live c ≡ true → c < t.net.next
  pub fresh_transport : t.net.transports c ≡ true → c < t.net.next
  pub transport_owned : t.net.transports c ≡ true → t.direct.tr ≡ some c
  pub live_cached : t.net.live c ≡ true → (t.direct.qconn ≡ some c) ⊎ (t.client.qconn ≡ some c)

pub record Traced (t : Tunnel) : Type 0 where
  pub same_tr : t.direct.tr ≡ t.direct.qconn
  pub at : (c : ℕ) → TracedAt t c

abbrev TracedLocked : Tunnel × Attempt → Type 0
TracedLocked r = Traced r.0

abbrev TracedAfter : Tunnel × Opened → Type 0
TracedAfter r = Traced r.0

pub drop_conn_locked-Traced : (t : Tunnel) → Traced t → Traced (drop_conn_locked t)
unfolding drop_conn_locked
drop_conn_locked-Traced t h = record { same_tr = refl; at = λ c. ground (arith, h.at c) }

drop_conn_locked-qconn : (t : Tunnel) → (drop_conn_locked t).direct.qconn ≡ none
unfolding drop_conn_locked
drop_conn_locked-qconn t = refl

pub close_conn-Traced :
    (c : ℕ) (t : Tunnel) → Traced t → Traced (record t { net = close_conn c t.net })
close_conn-Traced c t h = record { same_tr = h.same_tr; at = λ b. ground (arith, h.at b) }

pub lock_redial-Traced :
    (a : Answers) (t : Tunnel) → t.direct.qconn ≡ none → Traced t → Traced (lock_redial a t).0
unfolding lock_redial
lock_redial-Traced a t e h = record { same_tr = ground arith; at = λ c. ground (arith, h.at c) }

pub reconnect-Traced :
    (a : Answers) (t : Tunnel) → Traced t → Traced (lock_redial a (drop_conn_locked t)).0
reconnect-Traced a t h =
    lock_redial-Traced a _ (drop_conn_locked-qconn t) (drop_conn_locked-Traced t h)

pub lock_on-Traced : (a : Answers) (o : Option ℕ) (t : Tunnel) → Traced t → Traced (lock_on a o t).0
unfolding lock_on
lock_on-Traced a none t h = reconnect-Traced a t h
lock_on-Traced a (some c) t h =
    let h' = if_keeps Traced a.dies _ t (close_conn-Traced c t h) h in
    if_keeps TracedLocked _ _ _ (reconnect-Traced a t h)
      (if_keeps TracedLocked _ _ _ h (if_keeps TracedLocked _ _ _ h' (reconnect-Traced a _ h')))

pub cool_down-Traced : (now : ℕ) (t : Tunnel) → Traced t → Traced (cool_down now t)
unfolding cool_down
cool_down-Traced now t h = record { same_tr = h.same_tr; at = λ c. ground (arith, h.at c) }

pub lock_direct-Traced : (a : Answers) (t : Tunnel) → Traced t → Traced (lock_direct a t).0
unfolding lock_direct
lock_direct-Traced a t h =
    if_keeps TracedLocked _ _ _ h
      (if_keeps TracedLocked _ _ _ (cool_down-Traced a.later t h) (lock_on-Traced a _ t h))

pub reset_mesh-Traced : (t : Tunnel) → Traced t → Traced (reset_mesh t)
unfolding reset_mesh
reset_mesh-Traced t h = record { same_tr = h.same_tr; at = λ c. ground (arith, h.at c) }

reset_mesh-qconn : (t : Tunnel) → (reset_mesh t).client.qconn ≡ none
unfolding reset_mesh
reset_mesh-qconn t = refl

pub dial_mesh-Traced :
    (m : MeshAnswers) (t : Tunnel) → t.client.qconn ≡ none → Traced t → Traced (dial_mesh m t).0
unfolding dial_mesh
dial_mesh-Traced m t e h = record {
  same_tr = ground (arith, h.same_tr);
  at = λ c. ground (arith, h.at c);
}

pub open_mesh_on-Traced :
    (m : MeshAnswers) (o : Option ℕ) (t : Tunnel)
    → t.client.qconn ≡ o
    → Traced t
    → Traced (open_mesh_on m o t).0
unfolding open_mesh_on
open_mesh_on-Traced m none t e h = dial_mesh-Traced m t e h
open_mesh_on-Traced m (some c) t e h =
    if_keeps TracedAfter _ _ _ h (dial_mesh-Traced m _ (reset_mesh-qconn t) (reset_mesh-Traced t h))

pub open_mesh-Traced : (m : MeshAnswers) (t : Tunnel) → Traced t → Traced (open_mesh m t).0
unfolding open_mesh check_peering check_done
open_mesh-Traced m t h =
    let h' = if_keeps Traced _ _ t (reset_mesh-Traced t h) h in
    open_mesh_on-Traced m _ _ refl (if_keeps Traced _ _ _ (reset_mesh-Traced _ h') h')

pub set_owner_state-Traced : (s : PathState) (t : Tunnel) → Traced t → Traced (set_owner_state s t)
unfolding set_owner_state set_probe_state
set_owner_state-Traced s t h = record {
  same_tr = ground (arith, h.same_tr);
  at = λ c. ground (arith, h.at c);
}

pub probe_healthy-Traced : (rtt : ℕ) (t : Tunnel) → Traced t → Traced (probe_healthy rtt t).0
unfolding probe_healthy
probe_healthy-Traced rtt t h = record {
  same_tr = ground (arith, h.same_tr);
  at = λ c. ground (arith, h.at c);
}

pub watch_mesh_conn-Traced :
    (c : ℕ) (t : Tunnel) → t.net.live c ≡ false → Traced t → Traced (watch_mesh_conn c t)
unfolding watch_mesh_conn
watch_mesh_conn-Traced c t dead h = record {
  same_tr = ground (arith, h.same_tr);
  at = λ b. ground (arith, h.at b);
}

pub stop_prober-Traced : (t : Tunnel) → Traced t → Traced (stop_prober t)
unfolding stop_prober
stop_prober-Traced t h = record {
  same_tr = ground (arith, h.same_tr);
  at = λ c. ground (arith, h.at c);
}

pub receive-Traced : (k : Wake) (t : Tunnel) → Traced t → Traced (receive k t)
unfolding receive
receive-Traced timer t h = record { same_tr = h.same_tr; at = λ c. ground (arith, h.at c) }
receive-Traced _ t h = h

-- The sections that change neither a connection nor a transport.
pub same_at :
    (t u : Tunnel)
    → u.net.live ≡ t.net.live
    → u.net.transports ≡ t.net.transports
    → u.net.next ≡ t.net.next
    → u.direct.qconn ≡ t.direct.qconn
    → u.direct.tr ≡ t.direct.tr
    → u.client.qconn ≡ t.client.qconn
    → Traced t
    → Traced u
same_at t u l s n q r m h = record {
  same_tr = r ∙ h.same_tr ∙ sym q;
  at = λ c.
      let k = h.at c in
      record {
        fresh_live = rw (l, n) k.fresh_live;
        fresh_transport = rw (s, n) k.fresh_transport;
        transport_owned = rw (s, r) k.transport_owned;
        live_cached = rw (l, q, m) k.live_cached;
      };
}

pub close_direct-Traced : (t : Tunnel) → Traced t → Traced (close_direct t)
unfolding close_direct
close_direct-Traced t h = stop_prober-Traced _ (drop_conn_locked-Traced t h)
