-- ===== src/Failover/Exact.antt =====
-- Exactly when the monitor of internal/yggss/failover.go changes sides.
use yggss.Base.{ℕ, zero, suc, ◌≤◌, ◌≡◌, ◌↔◌, refl, true, false, List, [], ◌∷◌, inl, inr, ◌⊎◌, arith}
use yggss.Failover.{State, direct, mesh, Settings, Tick, link_is_good, tick, run}

-- Each of the last `n` ticks, the last one first, saw a bad link from the direct side.
pub HeldBad : Settings → ℕ → List Tick → Type 0
HeldBad m zero ks = Unit
HeldBad m (suc n) [] = ⊥
HeldBad m (suc n) (k ∷ ks) =
    (link_is_good m k ≡ false) × ((run m ks).state ≡ direct) × HeldBad m n ks

-- Each of the last `n` ticks could reach the endpoint from the mesh side.
pub HeldGood : Settings → ℕ → List Tick → Type 0
HeldGood m zero ks = Unit
HeldGood m (suc n) [] = ⊥
HeldGood m (suc n) (k ∷ ks) = (k.reachable ≡ true) × ((run m ks).state ≡ mesh) × HeldGood m n ks

State-cases : (s : State) → (s ≡ direct) ⊎ (s ≡ mesh)
State-cases direct = inl refl
State-cases mesh = inr refl

-- On its side, the counter of the monitor counts these ticks.
bad_counts :
    (m : Settings) (ks : List Tick) (n : ℕ)
    → (run m ks).state ≡ direct
    → (n ≤ (run m ks).bad) ↔ HeldBad m n ks
unfolding run tick HeldBad
bad_counts m ks zero d = (λ h. tt, λ h. omega arith)
bad_counts m [] (suc n) d = (λ h. omega arith, λ h. elim h [ ])
bad_counts m (k ∷ ks) (suc n) d = elim (State-cases (run m ks).state) [
  | inl before ↦
      let earlier = bad_counts m ks n before in
      (
        λ h. (ground arith, before, earlier.0 (ground arith)),
        λ (bad, _, held). let below = earlier.1 held in ground arith,
      )
  | inr before ↦ (λ h. absurd (ground arith), λ h. absurd (cc (before, h.1)))
]

good_counts :
    (m : Settings) (ks : List Tick) (n : ℕ)
    → (run m ks).state ≡ mesh
    → (n ≤ (run m ks).good) ↔ HeldGood m n ks
unfolding run tick HeldGood
good_counts m ks zero d = (λ h. tt, λ h. omega arith)
good_counts m [] (suc n) d = cc
good_counts m (k ∷ ks) (suc n) d = elim (State-cases (run m ks).state) [
  | inl before ↦ (λ h. absurd (ground arith), λ h. absurd (cc (before, h.1)))
  | inr before ↦
      let earlier = good_counts m ks n before in
      (
        λ h. (ground arith, before, earlier.0 (ground arith)),
        λ (reached, _, held). let below = earlier.1 held in ground arith,
      )
]

-- On the direct side, the tick takes the monitor to the mesh side exactly if it and the two before
-- it saw a bad link from the direct side and `RemovePeer` succeeds.
pub leaves_iff :
    (m : Settings) (k : Tick) (ks : List Tick)
    → (run m ks).state ≡ direct
    → ((run m (k ∷ ks)).state ≡ mesh) ↔ (HeldBad m 3 (k ∷ ks) × (k.call_ok ≡ true))
unfolding run tick HeldBad
leaves_iff m k ks d =
    let counted = bad_counts m ks 2 d in
    (
      λ h. ((ground arith, d, counted.0 (ground arith)), ground arith),
      λ (held, ok). let below = counted.1 held.2 in ground arith,
    )

-- On the mesh side, the tick takes the monitor back exactly if it and the one before it reached the
-- endpoint from the mesh side and `AddPeer` succeeds.
pub returns_iff :
    (m : Settings) (k : Tick) (ks : List Tick)
    → (run m ks).state ≡ mesh
    → ((run m (k ∷ ks)).state ≡ direct) ↔ (HeldGood m 2 (k ∷ ks) × (k.call_ok ≡ true))
unfolding run tick HeldGood
returns_iff m k ks d =
    let counted = good_counts m ks 1 d in
    (
      λ h. ((ground arith, d, counted.0 (ground arith)), ground arith),
      λ (held, ok). let below = counted.1 held.2 in ground arith,
    )
