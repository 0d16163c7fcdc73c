-- ===== src/Settings/PeerCheck.antt =====
-- The goroutine in `main` (cmd/yggss/main.go) that looks for the server's key among the peers, next
-- to `PeerKeys` and `IsPeerOf` (internal/yggss/node.go).
use yggss.Base.{
  ℕ, ◌+◌, ◌-◌, ◌*◌, ◌<◌, ◌≡◌, ◌↔◌, refl, Bool, true, false, Option, none, some, List, [], ◌∷◌, Text,
  length, ℤ, pos, negsuc, arith, if◌then◌else◌, ltb, text_eq, ◌&&◌, ◌==◌, sym, ap, ◌∙◌, inl, inr,
  ==_iff, text_eq→eq, ◌⊎◌,
}
use yggss.Node.{Peer, peer_keys, is_peer_of, public_key_size}
use yggss.Tunnel.State.{second}

-- `time.Now().Add(timeout + 10*time.Second)`; times before the Unix epoch count as 0.
unfoldable pub identity_deadline : ℕ → ℤ → ℕ
identity_deadline now (pos n) = now + n + 10 * second
identity_deadline now (negsuc n) = now + 10 * second - (n + 1)

-- One round of the loop: its time, and what `GetPeers` answers.
pub record Poll : Type 0 where
  pub time : ℕ
  pub peers : List Peer

unfoldable pub contains_key : Text → List Text → Bool
contains_key key [] = false
contains_key key (k ∷ ks) = let rest = contains_key key ks in if text_eq k key then true else rest

-- The loop over its rounds: verified, given up with the warning, or not ended yet.
unfoldable pub identity_check : ℕ → Text → List Poll → Option Bool
unfolding contains_key
identity_check deadline key [] = none
identity_check deadline key (p ∷ ps) =
    let rest = identity_check deadline key ps in
    if ltb p.time deadline
    then if contains_key key (peer_keys p.peers) then some true else rest
    else some false

same_size : (key k : Text) (n : ℕ) → length key ≡ n → text_eq k key ≡ true → (length k == n) ≡ true
same_size key k n size e = (==_iff (length k) n).1 (ap length (text_eq→eq k key e) ∙ size)

-- One peer: with the size tested first, or not at all.
size_implied :
    (up eq fits : Bool) (key : Text) (ks : List Text) (k : Text)
    → text_eq k key ≡ eq
    → ((eq ≡ true) → fits ≡ true)
    → contains_key key (if up && fits then k ∷ ks else ks)
      ≡ (if up && eq then true else contains_key key ks)
unfolding contains_key
size_implied false eq fits key ks k e h = refl
size_implied true true fits key ks k e h = ground (arith, h refl)
size_implied true false fits key ks k e h = ground arith

-- For a key of the right size, `PeerKeys` and `IsPeerOf` agree.
pub contains_key-peer_keys :
    (key : Text) (peers : List Peer)
    → length key ≡ public_key_size
    → contains_key key (peer_keys peers) ≡ is_peer_of key peers
unfolding is_peer_of peer_keys contains_key
contains_key-peer_keys key [] size = refl
contains_key-peer_keys key (p ∷ ps) size =
    size_implied p.up (text_eq p.key key) (length p.key == public_key_size) key (peer_keys ps) p.key
      refl (same_size key p.key public_key_size size)
    ∙ ap (λ b. if p.up && text_eq p.key key then true else b) (contains_key-peer_keys key ps size)

-- Some round saw the key at a peer, and it and all rounds before it were in time.
pub data SeenInTime (deadline : ℕ) (key : Text) : List Poll → Type 0 where
  now_seen :
      {p : Poll} {ps : List Poll}
      → p.time < deadline
      → is_peer_of key p.peers ≡ true
      → SeenInTime deadline key (p ∷ ps)
  seen_later :
      {p : Poll} {ps : List Poll}
      → p.time < deadline
      → SeenInTime deadline key ps
      → SeenInTime deadline key (p ∷ ps)

round_cases :
    (c : Bool) (rest : Option Bool)
    → ((if c then some true else rest) ≡ some true) ↔ ((c ≡ true) ⊎ (rest ≡ some true))
round_cases true rest = (λ h. inl refl, λ s. refl)
round_cases false rest = (λ h. inr h, λ s. elim s [ inl bad ↦ absurd cc | inr r ↦ r ])

round_verifies :
    (deadline : ℕ) (key : Text) (p : Poll) (ps : List Poll)
    → (identity_check deadline key (p ∷ ps) ≡ some true) ↔ (
        (p.time < deadline)
        × ((contains_key key (peer_keys p.peers) ≡ true)
            ⊎ (identity_check deadline key ps ≡ some true)))
unfolding identity_check
round_verifies deadline key p ps =
    let inside =
      round_cases (contains_key key (peer_keys p.peers)) (identity_check deadline key ps) in
    (λ h. (ground arith, inside.0 (ground arith)), λ (lt, s). let e = inside.1 s in ground arith)

-- The goroutine reports the identity as verified exactly if it got to a round before the deadline in
-- which a peering with the server's key was up.
identity_check_lem :
    (deadline : ℕ) (key : Text) (ps : List Poll)
    → length key ≡ public_key_size
    → (identity_check deadline key ps ≡ some true) ↔ SeenInTime deadline key ps
unfolding identity_check
identity_check_lem deadline key [] size = (λ h. absurd cc, λ s. elim s [ ])
identity_check_lem deadline key (p ∷ ps) size =
    let ih = identity_check_lem deadline key ps size in
    let same = contains_key-peer_keys key p.peers size in
    let round = round_verifies deadline key p ps in
    (
      λ h. elim (round.0 h).1 [
        | inl c ↦ now_seen (round.0 h).0 (sym same ∙ c)
        | inr later ↦ seen_later (round.0 h).0 (ih.0 later)
      ],
      λ s. elim s [
        | now_seen lt up ↦ round.1 (lt, inl (same ∙ up))
        | seen_later lt more ↦ round.1 (lt, inr (ih.1 more))
      ],
    )
