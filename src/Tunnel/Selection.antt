-- ===== src/Tunnel/Selection.antt =====
-- Which channel a new stream gets: `client.openStream` of internal/yggss/tunnel.go.
use yggss.Base.{if_keeps, ◌∙◌, ap, ℕ, ◌≡◌, refl, ◌⊎◌, inl, inr, true, false, none, some, arith}
use yggss.Tunnel.State.{Opened, stream, fail, no_peering, Tunnel}
use yggss.Tunnel.Direct.{Answers, is_verified, open_direct}
use yggss.Tunnel.Client.{MeshAnswers, open_mesh, after_direct, open_stream}

-- What `open_mesh` leaves alone.
pub open_mesh-direct :
    (m : MeshAnswers) (t : Tunnel)
    → ((open_mesh m t).0.direct ≡ t.direct) × ((open_mesh m t).0.net.sockets ≡ t.net.sockets)
unfolding open_mesh
open_mesh-direct m t = ground arith

-- What `open_mesh` returns runs on the cached mesh connection, which lives.
open_mesh-live :
    (m : MeshAnswers) (t : Tunnel) (c : ℕ)
    → (open_mesh m t).1 ≡ stream c
    → ((open_mesh m t).0.net.live c ≡ true) × ((open_mesh m t).0.client.qconn ≡ some c)
unfolding open_mesh
open_mesh-live m t c h = ground arith

open_direct-live :
    (a : Answers) (t : Tunnel) (c : ℕ)
    → (open_direct a t).1 ≡ stream c
    → ((open_direct a t).0.net.live c ≡ true) × ((open_direct a t).0.direct.qconn ≡ some c)
unfolding open_direct
open_direct-live a t c h = ground arith

after_direct-live :
    (m : MeshAnswers) (r : Opened) (t : Tunnel) (c : ℕ)
    → (after_direct m r t).1 ≡ stream c
    → ((r ≡ stream c) × (after_direct m r t ≡ (t, stream c)))
      ⊎ (((after_direct m r t).0.net.live c ≡ true)
          × ((after_direct m r t).0.client.qconn ≡ some c))
unfolding after_direct
after_direct-live m (stream b) t c h = inl (h, ap (λ r. (t, r)) h)
after_direct-live m (fail e) t c h = inr (open_mesh-live m _ c h)

-- A stream that is returned runs on a live connection that is cached: the mesh connection, or the
-- direct one, and that only if the direct path was verified when the call began.
pub open_stream-live :
    (now : ℕ) (a : Answers) (m : MeshAnswers) (t : Tunnel) (c : ℕ)
    → (open_stream now a m t).1 ≡ stream c
    → let t' = (open_stream now a m t).0 in
      (t'.net.live c ≡ true)
      × ((t'.client.qconn ≡ some c)
          ⊎ ((t'.direct.qconn ≡ some c)
              × (t.client.has_direct ≡ true)
              × (is_verified now t ≡ true)))
unfolding open_stream
open_stream-live now a m t c h = ground (
  arith,
  open_direct-live a t c,
  open_mesh-live m t c,
  after_direct-live m (open_direct a t).1 (open_direct a t).0 c,
)

-- The connection of a stream, for a statement that there is one.
abbrev pub opened_conn : Opened → ℕ
opened_conn (stream c) = c
opened_conn (fail e) = 0

abbrev IsServed : Tunnel × Opened → Type 0
IsServed o = o.1 ≡ stream (opened_conn o.1)

pub open_mesh-served :
    (m : MeshAnswers) (t : Tunnel)
    → t.client.has_tr ≡ true
    → t.client.has_node ≡ true
    → m.active_at_dial ≡ true
    → m.dial_ok ≡ true
    → m.first_ok ≡ true
    → (open_mesh m t).1 ≡ stream (opened_conn (open_mesh m t).1)
unfolding open_mesh
open_mesh-served m t transport node active dial first = ground arith

open_mesh-no_peering :
    (m : MeshAnswers) (t : Tunnel)
    → t.client.has_node ≡ true
    → t.client.has_tr ≡ true
    → m.active ≡ false
    → m.active_at_dial ≡ false
    → let (t', r) = open_mesh m t in
      (r ≡ fail no_peering) × (t'.net.next ≡ t.net.next) × (t'.client.qconn ≡ none)
unfolding open_mesh
open_mesh-no_peering m t node transport x y = ground arith

after_direct-served :
    (m : MeshAnswers) (r : Opened) (t : Tunnel)
    → t.client.has_tr ≡ true
    → t.client.has_node ≡ true
    → m.active_at_dial ≡ true
    → m.dial_ok ≡ true
    → m.first_ok ≡ true
    → (after_direct m r t).1 ≡ stream (opened_conn (after_direct m r t).1)
unfolding after_direct
after_direct-served m (stream c) t transport node active dial first = refl
after_direct-served m (fail e) t transport node active dial first =
    open_mesh-served m _ (ground arith) (ground arith) active dial first

-- A direct attempt leaves the mesh client as it was, but for the state that the log shows.
open_direct-client :
    (a : Answers) (t : Tunnel)
    → ((open_direct a t).0.client.has_tr ≡ t.client.has_tr)
      × ((open_direct a t).0.client.has_node ≡ t.client.has_node)
unfolding open_direct
open_direct-client a t = ground arith

-- A mesh that works serves every stream, whatever the direct path does: with a peering up, a dial
-- that connects and a new connection that takes a stream, the call returns a stream.
open_stream-served :
    (now : ℕ) (a : Answers) (m : MeshAnswers) (t : Tunnel)
    → t.client.has_tr ≡ true
    → t.client.has_node ≡ true
    → m.active_at_dial ≡ true
    → m.dial_ok ≡ true
    → m.first_ok ≡ true
    → (c : ℕ) × ((open_stream now a m t).1 ≡ stream c)
unfolding open_stream
open_stream-served now a m t transport node active dial first =
    let (r, n) = open_direct-client a t in
    (
      opened_conn (open_stream now a m t).1,
      if_keeps IsServed _ _ _
          (after_direct-served m _ _ (r ∙ transport) (n ∙ node) active dial first)
          (open_mesh-served m t transport node active dial first),
    )

-- With no peering up, and no verified direct path, the call fails at once: it dials nothing, and no
-- mesh connection stays cached.
pub open_stream-no_peering :
    (now : ℕ) (a : Answers) (m : MeshAnswers) (t : Tunnel)
    → t.client.has_node ≡ true
    → t.client.has_tr ≡ true
    → is_verified now t ≡ false
    → m.active ≡ false
    → m.active_at_dial ≡ false
    → let (t', r) = open_stream now a m t in
      (r ≡ fail no_peering) × (t'.net.next ≡ t.net.next) × (t'.client.qconn ≡ none)
unfolding open_stream
open_stream-no_peering now a m t node transport v x y = ground (arith, open_mesh-no_peering m t)
