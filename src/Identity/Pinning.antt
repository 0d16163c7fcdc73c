-- ===== src/Identity/Pinning.antt =====
-- What the configuration of a run means for the peers that it accepts: the settings of
-- cmd/yggss/main.go together with the certificate checks of both channels.
use yggss.Base.{
  ◌≡◌, refl, ◌⊎◌, ◌↔◌, inl, inr, true, Option, none, some, List, [], ◌∷◌, Text, text_eq, text_eq→eq,
  Bool-cases, Option-cases, text_eq_refl, subst, sym, arith,
}
use yggss.Node.{public_key_size}
use yggss.Settings.Strings.{split}
use yggss.Settings.Config.{Vars}
use yggss.Settings.Keys.{parse_key}
use yggss.Settings.Start.{
  Answers, ServerRun, ClientRun, serve, connect, keep_parts, start_server, start_client,
}
use yggss.Settings.Whitelist.{Admits, Decoded, Decoded-empty, start_server-Admits}
use yggss.Identity.{
  PublicKey, ed25519, other_key, accepted, is_allowed, verify_client, verify_direct_client,
  verify_server, verify_direct_server,
}

-- The first certificate has the key.
HasKey : (Text → Option PublicKey) → List Text → Text → Type 0
HasKey parse certs pk =
    (cert : Text) × (more : List Text) × (certs ≡ cert ∷ more) × (parse cert ≡ some (ed25519 pk))

-- One of the parts is the key in hex.
Named : List Text → Text → Type 0
Named [] pk = ⊥
Named (part ∷ parts) pk = (parse_key part public_key_size ≡ some pk) ⊎ Named parts pk

-- The setting names no key, or it names the key of the first certificate.
pub Trusted : (Text → Option PublicKey) → Text → List Text → Type 0
Trusted parse hex certs =
    (keep_parts (split 44 hex) ≡ [])
    ⊎ ((pk : Text) × HasKey parse certs pk × Named (keep_parts (split 44 hex)) pk)

-- The first certificate has the key that the setting gives.
pub Pinned : (Text → Option PublicKey) → Text → List Text → Type 0
Pinned parse hex certs =
    (pk : Text) × HasKey parse certs pk × (parse_key hex public_key_size ≡ some pk)

allowed-Named :
    (parts keys : List Text) (pk : Text)
    → Decoded parts keys
    → is_allowed keys pk ≡ true
    → Named parts pk
unfolding Decoded is_allowed Named
allowed-Named [] keys pk d h = let absurd : ⊥ = ground arith in elim absurd [ ]
allowed-Named (p ∷ ps) [] pk d h = cc
allowed-Named (p ∷ ps) (k ∷ ks) pk d h = elim (Bool-cases (text_eq k pk)) [
  | inl here ↦ inl (subst (λ x. parse_key p public_key_size ≡ some x) (text_eq→eq k pk here) d.0)
  | inr later ↦ inr (allowed-Named ps ks pk d.2 (ground arith))
]

Named-allowed :
    (parts keys : List Text) (pk : Text)
    → Decoded parts keys
    → Named parts pk
    → is_allowed keys pk ≡ true
unfolding Decoded is_allowed Named
Named-allowed [] keys pk d h = elim h [ ]
Named-allowed (p ∷ ps) [] pk d h = let absurd : ⊥ = ground arith in elim absurd [ ]
Named-allowed (p ∷ ps) (k ∷ ks) pk d (inl here) = ground (arith, text_eq_refl k)
Named-allowed (p ∷ ps) (k ∷ ks) pk d (inr later) = ground (arith, Named-allowed ps ks pk d.2 later)

accepted-key :
    (parse : Text → Option PublicKey) (k : Text) (ks certs : List Text)
    → verify_client parse (some (k ∷ ks)) certs ≡ accepted
    → (pk : Text) × HasKey parse certs pk × (is_allowed (k ∷ ks) pk ≡ true)
unfolding verify_client HasKey
accepted-key parse k ks [] h = let absurd : ⊥ = ground arith in elim absurd [ ]
accepted-key parse k ks (cert ∷ more) h = elim (Option-cases (parse cert)) [
  | inl bad ↦ let absurd : ⊥ = ground arith in elim absurd [ ]
  | inr (other_key, read) ↦ let absurd : ⊥ = ground arith in elim absurd [ ]
  | inr (ed25519 pk, read) ↦ (pk, (cert, more, refl, read), ground arith)
]

key-accepted :
    (parse : Text → Option PublicKey) (k : Text) (ks certs : List Text) (pk : Text)
    → HasKey parse certs pk
    → is_allowed (k ∷ ks) pk ≡ true
    → verify_client parse (some (k ∷ ks)) certs ≡ accepted
unfolding verify_client HasKey
key-accepted parse k ks certs pk (cert, more, same, read) h =
    subst (λ cs. verify_client parse (some (k ∷ ks)) cs ≡ accepted) (sym same) (ground arith)

-- The two channels decide alike.
both_channels :
    (parse : Text → Option PublicKey) (allowed : Option (List Text)) (certs : List Text)
    → verify_direct_client parse allowed certs ≡ verify_client parse allowed certs
unfolding verify_client verify_direct_client
both_channels parse allowed certs = refl

Admits-Trusted :
    (parse : Text → Option PublicKey) (hex : Text) (allowed : Option (List Text))
    (certs : List Text)
    → Admits hex allowed
    → (verify_client parse allowed certs ≡ accepted) ↔ Trusted parse hex certs
unfolding Admits Decoded Trusted verify_client
Admits-Trusted parse hex none certs parts = (λ h. inl parts, λ t. refl)
Admits-Trusted parse hex (some []) certs d =
    (λ h. inl (Decoded-empty (keep_parts (split 44 hex)) d), λ t. refl)
Admits-Trusted parse hex (some (k ∷ ks)) certs d =
    let parts = keep_parts (split 44 hex) in
    (
      λ h.
          let (pk, has, ok) = accepted-key parse k ks certs h in
          inr (pk, has, allowed-Named parts (k ∷ ks) pk d ok),
      λ t. elim t [
        | inl no_key ↦ let absurd : k ∷ ks ≡ [] = subst (λ ps. Decoded ps (k ∷ ks)) no_key d in cc
        | inr (pk, has, named) ↦
            key-accepted parse k ks certs pk has (Named-allowed parts (k ∷ ks) pk d named)
      ],
    )

-- A started server accepts on its two channels the same clients: those whose certificate has a key
-- that the setting for the client keys names, and everybody if it names none.
pub start_server-trusts :
    (parse : Text → Option PublicKey) (a : Answers) (v : Vars) (peers : List Text) (r : ServerRun)
    (certs : List Text)
    → start_server a v ≡ serve peers r
    → ((verify_client parse r.allowed certs ≡ accepted) ↔ Trusted parse v.client_key_hex certs)
      × ((verify_direct_client parse r.allowed certs ≡ accepted)
          ↔ Trusted parse v.client_key_hex certs)
start_server-trusts parse a v peers r certs h =
    let mesh =
      Admits-Trusted parse v.client_key_hex r.allowed certs (start_server-Admits a v peers r h) in
    (
      mesh,
      subst (λ x. (x ≡ accepted) ↔ Trusted parse v.client_key_hex certs)
          (sym (both_channels parse r.allowed certs)) mesh,
    )

pinned-key :
    (parse : Text → Option PublicKey) (key : Text) (certs : List Text)
    → verify_server parse key certs ≡ accepted
    → HasKey parse certs key
unfolding verify_server HasKey
pinned-key parse key [] h = let absurd : ⊥ = ground arith in elim absurd [ ]
pinned-key parse key (cert ∷ more) h = elim (Option-cases (parse cert)) [
  | inl bad ↦ let absurd : ⊥ = ground arith in elim absurd [ ]
  | inr (other_key, read) ↦ let absurd : ⊥ = ground arith in elim absurd [ ]
  | inr (ed25519 pk, read) ↦ elim (Bool-cases (text_eq pk key)) [
    | inl ours ↦
        (cert, more, refl, subst (λ x. parse cert ≡ some (ed25519 x)) (text_eq→eq pk key ours) read)
    | inr other ↦ let absurd : ⊥ = ground arith in elim absurd [ ]
  ]
]

key-pinned :
    (parse : Text → Option PublicKey) (key : Text) (certs : List Text)
    → HasKey parse certs key
    → verify_server parse key certs ≡ accepted
unfolding verify_server HasKey
key-pinned parse key certs (cert, more, same, read) =
    subst (λ cs. verify_server parse key cs ≡ accepted) (sym same)
      (ground (arith, text_eq_refl key))

both_dials :
    (parse : Text → Option PublicKey) (key : Text) (certs : List Text)
    → verify_direct_server parse key certs ≡ verify_server parse key certs
unfolding verify_server verify_direct_server
both_dials parse key [] = refl
both_dials parse key (cert ∷ more) = refl

started-key :
    (query_escape : Text → Text) (v : Vars) (peers : List Text) (r : ClientRun)
    → start_client query_escape v ≡ connect peers r
    → parse_key v.server_key_hex public_key_size ≡ some r.server_key
unfolding start_client
started-key query_escape v peers r h =
    elim (Option-cases (parse_key v.server_key_hex public_key_size)) [
      | inl bad ↦ let absurd : ⊥ = ground arith in elim absurd [ ]
      | inr (key, good) ↦ ground arith
    ]

-- A started client accepts on its two channels the same servers: those whose certificate has the
-- key that `-serverkey` gives in hex.
pub start_client-pins :
    (parse : Text → Option PublicKey) (query_escape : Text → Text) (v : Vars) (peers : List Text)
    (r : ClientRun) (certs : List Text)
    → start_client query_escape v ≡ connect peers r
    → ((verify_server parse r.server_key certs ≡ accepted) ↔ Pinned parse v.server_key_hex certs)
      × ((verify_direct_server parse r.server_key certs ≡ accepted)
          ↔ Pinned parse v.server_key_hex certs)
unfolding Pinned
start_client-pins parse query_escape v peers r certs h =
    let given = started-key query_escape v peers r h in
    let mesh : (verify_server parse r.server_key certs ≡ accepted)
        ↔ Pinned parse v.server_key_hex certs =
      (
        λ ok. (r.server_key, pinned-key parse r.server_key certs ok, given),
        λ p.
            let same : p.0 ≡ r.server_key = ground (arith, given) in
            key-pinned parse r.server_key certs (subst (HasKey parse certs) same p.1),
      ) in
    (
      mesh,
      subst (λ x. (x ≡ accepted) ↔ Pinned parse v.server_key_hex certs)
          (sym (both_dials parse r.server_key certs)) mesh,
    )
