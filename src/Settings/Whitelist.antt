-- ===== src/Settings/Whitelist.antt =====
-- The whitelist that cmd/yggss/main.go builds from the client keys.
use yggss.Base.{
  ℕ, ◌≡◌, refl, true, Option, none, some, List, [], ◌∷◌, Text, length, Option-cases, Bool-cases,
  inl, inr, subst, ◌==◌, sym, arith,
}
use yggss.Node.{public_key_size}
use yggss.Settings.Strings.{split, is_empty, trim_space, trim_left, trim_right}
use yggss.Settings.Config.{Vars}
use yggss.Settings.Keys.{parse_key, decode_hex}
use yggss.Settings.Start.{
  Answers, ServerRun, serve, parse_keys, keep_parts, whitelist, start_server,
}

-- The keys are the parts, decoded: as many, in their order, of the size of a public key.
unfoldable pub Decoded : List Text → List Text → Type 0
Decoded [] keys = keys ≡ []
Decoded (p ∷ ps) [] = p ∷ ps ≡ []
Decoded (p ∷ ps) (k ∷ ks) =
    (parse_key p public_key_size ≡ some k) × (length k ≡ public_key_size) × Decoded ps ks

pub parse_key-size : (s : Text) (size : ℕ) (b : Text) → parse_key s size ≡ some b → length b ≡ size
unfolding parse_key
parse_key-size s size b h = elim (Option-cases (decode_hex (trim_space s))) [
  | inl bad ↦ ground arith
  | inr (d, decoded) ↦ elim (Bool-cases (length d == size)) [
    | inl fits ↦ ground arith
    | inr other ↦ ground arith
  ]
]

parse_keys-Decoded : (ps ks : List Text) → parse_keys ps ≡ some ks → Decoded ps ks
unfolding parse_keys Decoded
parse_keys-Decoded [] ks h = ground arith
parse_keys-Decoded (p ∷ ps) ks h = elim (Option-cases (parse_key p public_key_size)) [
  | inl bad ↦ let absurd : ⊥ = ground arith in elim absurd [ ]
  | inr (k, good) ↦ elim (Option-cases (parse_keys ps)) [
    | inl bad ↦ let absurd : ⊥ = ground arith in elim absurd [ ]
    | inr (rest, more) ↦
        let same : k ∷ rest ≡ ks = ground arith in
        subst (Decoded (p ∷ ps)) same
          (good, parse_key-size p public_key_size k good, parse_keys-Decoded ps rest more)
  ]
]

pub Decoded-empty : (ps : List Text) → Decoded ps [] → ps ≡ []
unfolding Decoded
Decoded-empty [] d = refl
Decoded-empty (p ∷ ps) d = d

no_keys : keep_parts (split 44 []) ≡ []
unfolding keep_parts split trim_space trim_left trim_right
no_keys = refl

-- Whom a started server admits: without a whitelist everybody, and then the setting names no key,
-- or exactly the keys that it names.
unfoldable pub Admits : Text → Option (List Text) → Type 0
Admits hex none = keep_parts (split 44 hex) ≡ []
Admits hex (some keys) = Decoded (keep_parts (split 44 hex)) keys

whitelist-Admits :
    (hex : Text) (keys : List Text)
    → Decoded (keep_parts (split 44 hex)) keys
    → Admits hex (whitelist keys)
unfolding Admits whitelist
whitelist-Admits hex [] d = Decoded-empty (keep_parts (split 44 hex)) d
whitelist-Admits hex (k ∷ ks) d = d

Admits-empty : (hex : Text) → is_empty hex ≡ true → Admits hex none
unfolding Admits
Admits-empty [] h = no_keys
Admits-empty (c ∷ s) h = cc

-- A server that starts with a setting for its client keys admits exactly these keys, all of which
-- parse: it is open to everybody only if the setting consists of blanks and commas.
pub start_server-Admits :
    (a : Answers) (v : Vars) (peers : List Text) (r : ServerRun)
    → start_server a v ≡ serve peers r
    → Admits v.client_key_hex r.allowed
unfolding start_server
start_server-Admits a v peers r h = elim (Bool-cases (is_empty v.client_key_hex)) [
  | inl none_given ↦
      let no_list : r.allowed ≡ none = ground arith in
      subst (Admits v.client_key_hex) (sym no_list) (Admits-empty v.client_key_hex none_given)
  | inr given ↦ elim (Option-cases (parse_keys (keep_parts (split 44 v.client_key_hex)))) [
    | inl bad ↦ let absurd : ⊥ = ground arith in elim absurd [ ]
    | inr (keys, parsed) ↦
        let list : whitelist keys ≡ r.allowed = ground arith in
        subst (Admits v.client_key_hex) list
          (whitelist-Admits v.client_key_hex keys (parse_keys-Decoded _ keys parsed))
  ]
]
