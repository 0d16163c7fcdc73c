-- ===== src/Failover/Hysteresis.antt =====
-- The monitor changes sides only after a streak, and always after one.
use yggss.Base.{ℕ, suc, ◌≤◌, ◌≡◌, Bool, true, false, List, [], ◌∷◌, arith, if◌then◌else◌}
use yggss.Failover.{
  State, direct, mesh, Settings, Tick, link_is_good, tick, run, failover_degrade_limit,
  failover_recover_limit,
}

-- How many of the last ticks in a row saw a bad link.
abbrev pub bad_streak : Settings → List Tick → ℕ
bad_streak m [] = 0
bad_streak m (k ∷ earlier) = if link_is_good m k then 0 else suc (bad_streak m earlier)

-- How many of the last ticks in a row could reach the direct endpoint.
abbrev pub good_streak : List Tick → ℕ
good_streak [] = 0
good_streak (k ∷ earlier) = if k.reachable then suc (good_streak earlier) else 0

abbrev pub is_direct : State → Bool
is_direct direct = true
is_direct mesh = false

-- The counters never run ahead of the streaks, and the peering is there exactly on the direct side.
record Counted (m : Settings) (ks : List Tick) : Type 0 where
  bad_counted : (run m ks).state ≡ direct → (run m ks).bad ≤ bad_streak m ks
  good_counted : (run m ks).state ≡ mesh → (run m ks).good ≤ good_streak ks
  peered : (run m ks).peered ≡ is_direct (run m ks).state

run-Counted : (m : Settings) (ks : List Tick) → Counted m ks
unfolding run tick
run-Counted m [] = ground arith
run-Counted m (k ∷ ks) = ground (arith, run-Counted m ks)

-- After every tick the direct URI is a peering of the node exactly if the monitor is on the direct
-- side.
pub run-peered : (m : Settings) (ks : List Tick) → (run m ks).peered ≡ is_direct (run m ks).state
run-peered m ks = (run-Counted m ks).peered

-- The direct link is given up only after three bad ticks in a row, and with a call of `RemovePeer`
-- that succeeded.
run-leaves :
    (m : Settings) (k : Tick) (ks : List Tick)
    → (run m ks).state ≡ direct
    → (run m (k ∷ ks)).state ≡ mesh
    → (failover_degrade_limit ≤ bad_streak m (k ∷ ks)) × (k.call_ok ≡ true)
unfolding run tick
run-leaves m k ks d e = ground (arith, run-Counted m ks)

-- The direct link is taken back only after two ticks in a row that could reach its endpoint, and
-- with a call of `AddPeer` that succeeded.
run-returns :
    (m : Settings) (k : Tick) (ks : List Tick)
    → (run m ks).state ≡ mesh
    → (run m (k ∷ ks)).state ≡ direct
    → (failover_recover_limit ≤ good_streak (k ∷ ks)) × (k.call_ok ≡ true)
unfolding run tick
run-returns m k ks d e = ground (arith, run-Counted m ks)

-- On the direct side, three bad ticks from a clean counter, the last call succeeding, end on the
-- mesh side.
run-gives_up :
    (m : Settings) (i j k : Tick) (ks : List Tick)
    → (run m ks).state ≡ direct
    → (run m ks).bad ≡ 0
    → link_is_good m i ≡ false
    → link_is_good m j ≡ false
    → link_is_good m k ≡ false
    → k.call_ok ≡ true
    → (run m (k ∷ j ∷ i ∷ ks)).state ≡ mesh
unfolding run tick
run-gives_up m i j k ks d z a b c ok = ground arith

-- On the mesh side, two ticks from a clean counter that reach the endpoint, the last call
-- succeeding, end on the direct side.
run-restores :
    (m : Settings) (j k : Tick) (ks : List Tick)
    → (run m ks).state ≡ mesh
    → (run m ks).good ≡ 0
    → j.reachable ≡ true
    → k.reachable ≡ true
    → k.call_ok ≡ true
    → (run m (k ∷ j ∷ ks)).state ≡ direct
unfolding run tick
run-restores m j k ks d z b c ok = ground arith
