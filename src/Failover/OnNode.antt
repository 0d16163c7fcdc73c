-- ===== src/Failover/OnNode.antt =====
-- The monitor (internal/yggss/failover.go) with the node (internal/yggss/node.go) that it calls.
use yggss.Base.{
  ℕ, ◌+◌, ◌≡◌, ◌⊎◌, inl, inr, refl, sym, subst, Bool, true, false, none, some, List, [], ◌∷◌, leb,
  if◌then◌else◌, if_keeps,
}
use yggss.Node.{Peer, find_peer, Core, add_peer, remove_peer, succeeds, refused}
use yggss.Failover.{
  State, direct, mesh, Settings, is_good_latency, failover_degrade_limit, failover_recover_limit,
}

-- What one tick sees before it calls the node.
pub record Look : Type 0 where
  pub peers : List Peer
  pub reachable : Bool

-- The variables of `Run`, and the core of the node.
pub record Running (St : Type 0) : Type 0 where
  pub state : State
  pub bad : ℕ
  pub good : ℕ
  pub core : St

-- The case `failoverStateDirect`, with its call of `RemovePeer`.
unfoldable pub direct_on :
    {St Url : Type 0} → Core St Url → Settings → Look → Running St → Running St
direct_on c m l s =
    let bad = s.bad + 1 in
    let (core, err) = remove_peer c m.direct_uri s.core in
    if is_good_latency m.max_latency (find_peer m.server_key l.peers)
    then record s { bad = 0 }
    else if leb failover_degrade_limit bad
    then (if succeeds err
        then record { state = mesh; bad = bad; good = 0; core = core }
        else record s { bad = bad; core = core })
    else record s { bad = bad }

-- The case `failoverStateMesh`, with its call of `AddPeer`.
unfoldable pub mesh_on : {St Url : Type 0} → Core St Url → Settings → Look → Running St → Running St
mesh_on c m l s =
    let good = if l.reachable then s.good + 1 else 0 in
    let (core, err) = add_peer c m.direct_uri s.core in
    if leb failover_recover_limit good
    then (if succeeds err
        then record { state = direct; bad = 0; good = good; core = core }
        else record s { good = good; core = core })
    else record s { good = good }

abbrev pub dispatch_on :
    {St Url : Type 0} → State → Core St Url → Settings → Look → Running St → Running St
dispatch_on direct c m l s = direct_on c m l s
dispatch_on mesh c m l s = mesh_on c m l s

-- `Run` on the core `st`, over the ticks seen so far, the last one first.
unfoldable pub run_on : {St Url : Type 0} → Core St Url → Settings → St → List Look → Running St
run_on c m st [] = record { state = direct; bad = 0; good = 0; core = st }
run_on c m st (l ∷ earlier) = let s = run_on c m st earlier in dispatch_on s.state c m l s

-- A call that the node makes of the core: which URL it adds or removes, and whether that succeeds.
pub data Call (Url : Type 0) : Type 0 where
  adds removes : Url → Bool → Call Url

-- A core that also keeps the calls, the last one first.
unfoldable pub recording : {St Url : Type 0} → Core St Url → Core (St × List (Call Url)) Url
recording c = record {
  parse = c.parse;
  add = λ u (st, calls). let (st', ok) = c.add u st in ((st', adds u ok ∷ calls), ok);
  remove = λ u (st, calls). let (st', ok) = c.remove u st in ((st', removes u ok ∷ calls), ok);
  listens = λ u (st, calls). let (st', ok) = c.listens u st in ((st', calls), ok);
}

-- The calls after the calls `earlier`, and the side that they lead to: the peering `u`, and no other, is
-- removed on the direct side and added on the mesh side, and exactly a call that succeeds leads to
-- the other side.
pub data Toggled {Url : Type 0} (u : Url) (earlier : List (Call Url))
    : List (Call Url) → State → Type 0 where
  untouched : Toggled u earlier earlier direct
  removed :
      {calls : List (Call Url)}
      → Toggled u earlier calls direct
      → Toggled u earlier (removes u true ∷ calls) mesh
  not_removed :
      {calls : List (Call Url)}
      → Toggled u earlier calls direct
      → Toggled u earlier (removes u false ∷ calls) direct
  added :
      {calls : List (Call Url)}
      → Toggled u earlier calls mesh
      → Toggled u earlier (adds u true ∷ calls) direct
  not_added :
      {calls : List (Call Url)}
      → Toggled u earlier calls mesh
      → Toggled u earlier (adds u false ∷ calls) mesh

module _ {St Url : Type 0} (c : Core St Url) (m : Settings) (u : Url)
    (parsed : c.parse m.direct_uri ≡ some u) where
  abbrev Follows : List (Call Url) → Running (St × List (Call Url)) → Type 0
  Follows earlier s = Toggled u earlier s.core.1 s.state

  removes-Toggled :
      {calls earlier : List (Call Url)} (ok : Bool)
      → Toggled u earlier calls direct
      → ((succeeds (if ok then none else some refused) ≡ true)
          × Toggled u earlier (removes u ok ∷ calls) mesh)
        ⊎ ((succeeds (if ok then none else some refused) ≡ false)
            × Toggled u earlier (removes u ok ∷ calls) direct)
  removes-Toggled true h = inl (refl, removed h)
  removes-Toggled false h = inr (refl, not_removed h)

  adds-Toggled :
      {calls earlier : List (Call Url)} (ok : Bool)
      → Toggled u earlier calls mesh
      → ((succeeds (if ok then none else some refused) ≡ true)
          × Toggled u earlier (adds u ok ∷ calls) direct)
        ⊎ ((succeeds (if ok then none else some refused) ≡ false)
            × Toggled u earlier (adds u ok ∷ calls) mesh)
  adds-Toggled true h = inl (refl, added h)
  adds-Toggled false h = inr (refl, not_added h)

  remove_peer-Toggled :
      (earlier : List (Call Url)) (p : St × List (Call Url))
      → Toggled u earlier p.1 direct
      → let r = remove_peer (recording c) m.direct_uri p in
        ((succeeds r.1 ≡ true) × Toggled u earlier r.0.1 mesh)
        ⊎ ((succeeds r.1 ≡ false) × Toggled u earlier r.0.1 direct)
  unfolding remove_peer recording
  remove_peer-Toggled earlier p h = rw parsed (removes-Toggled (c.remove u p.0).1 h)

  add_peer-Toggled :
      (earlier : List (Call Url)) (p : St × List (Call Url))
      → Toggled u earlier p.1 mesh
      → let r = add_peer (recording c) m.direct_uri p in
        ((succeeds r.1 ≡ true) × Toggled u earlier r.0.1 direct)
        ⊎ ((succeeds r.1 ≡ false) × Toggled u earlier r.0.1 mesh)
  unfolding add_peer recording
  add_peer-Toggled earlier p h = rw parsed (adds-Toggled (c.add u p.0).1 h)

  -- A call that leads to one side, and is refused on the other.
  after_call :
      (earlier : List (Call Url)) (b : Bool) (x y : State)
      (done kept : Running (St × List (Call Url)))
      → done.state ≡ x
      → kept.state ≡ y
      → done.core ≡ kept.core
      → ((b ≡ true) × Toggled u earlier kept.core.1 x)
        ⊎ ((b ≡ false) × Toggled u earlier kept.core.1 y)
      → Follows earlier (if b then done else kept)
  after_call earlier true x y done kept d k same (inl (_, h)) =
      subst (λ z. Toggled u earlier done.core.1 z) (sym d)
        (subst (λ z. Toggled u earlier z.1 x) (sym same) h)
  after_call earlier false x y done kept d k same (inr (_, h)) =
      subst (λ z. Toggled u earlier kept.core.1 z) (sym k) h
  after_call earlier true x y done kept d k same (inr (e, h)) = absurd cc
  after_call earlier false x y done kept d k same (inl (e, h)) = absurd cc

  direct_on-Follows :
      (earlier : List (Call Url)) (l : Look) (s : Running (St × List (Call Url)))
      → Toggled u earlier s.core.1 direct
      → s.state ≡ direct
      → Follows earlier (direct_on (recording c) m l s)
  unfolding direct_on
  direct_on-Follows earlier l s h e =
      let same = subst (λ z. Toggled u earlier s.core.1 z) (sym e) h in
      if_keeps (Follows earlier) (is_good_latency m.max_latency (find_peer m.server_key l.peers)) _
        _ same
        (if_keeps (Follows earlier) (leb failover_degrade_limit (s.bad + 1)) _ _
          (after_call earlier _ mesh direct _ _ refl e refl (remove_peer-Toggled earlier s.core h))
          same)

  mesh_on-Follows :
      (earlier : List (Call Url)) (l : Look) (s : Running (St × List (Call Url)))
      → Toggled u earlier s.core.1 mesh
      → s.state ≡ mesh
      → Follows earlier (mesh_on (recording c) m l s)
  unfolding mesh_on
  mesh_on-Follows earlier l s h e =
      let same = subst (λ z. Toggled u earlier s.core.1 z) (sym e) h in
      if_keeps (Follows earlier)
        (leb failover_recover_limit (if l.reachable then s.good + 1 else 0)) _ _
        (after_call earlier _ direct mesh _ _ refl e refl (add_peer-Toggled earlier s.core h)) same

  dispatch_on-Follows :
      (earlier : List (Call Url)) (x : State) (l : Look) (s : Running (St × List (Call Url)))
      → s.state ≡ x
      → Toggled u earlier s.core.1 x
      → Follows earlier (dispatch_on x (recording c) m l s)
  dispatch_on-Follows earlier direct l s e h = direct_on-Follows earlier l s h e
  dispatch_on-Follows earlier mesh l s e h = mesh_on-Follows earlier l s h e

  -- The monitor calls the node for the direct peering alone: it removes it on the direct side and adds it
  -- on the mesh side, and changes the side exactly with a call that succeeds, whatever the core answers.
  pub run_on-Toggled :
      (st : St) (earlier : List (Call Url)) (ls : List Look)
      → let s = run_on (recording c) m (st, earlier) ls in Toggled u earlier s.core.1 s.state
  unfolding run_on
  run_on-Toggled st earlier [] = untouched
  run_on-Toggled st earlier (l ∷ ls) =
      let s = run_on (recording c) m (st, earlier) ls in
      dispatch_on-Follows earlier s.state l s refl (run_on-Toggled st earlier ls)
