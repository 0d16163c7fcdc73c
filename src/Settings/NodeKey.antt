-- ===== src/Settings/NodeKey.antt =====
-- The identity that a run has (internal/yggss/node.go, cmd/yggss/main.go).
use yggss.Base.{
  ℕ, ◌≡◌, ◌⊎◌, inl, inr, refl, Bool, true, false, Bool-cases, Option, some, Option-cases, Text,
  length, ◌==◌, ==_iff, arith, if_yes, if_no, subst, sym, ap, ◌∙◌, if◌then◌else◌,
}
use yggss.Settings.Strings.{is_empty, trim_space}
use yggss.Settings.Config.{Vars}
use yggss.Settings.Keys.{
  decode_hex, private_key_size, NodeError, bad_size, sized, from_hex, from_random, Node, Made, made,
  failed, NodeAnswers, private_key, node_with, new_node,
}
use yggss.Settings.Start.{Answers, Outcome, exit, start}

Made-cases :
    {A : Type 0} (m : Made A) → ((a : A) × (m ≡ made a)) ⊎ ((e : NodeError) × (m ≡ failed e))
Made-cases (made a) = inl (a, refl)
Made-cases (failed e) = inr (e, refl)

made_only :
    (k : ℕ) (d b : Text) (h : Made Text)
    → h ≡ made b
    → (if length d == k then made d else failed bad_size) ≡ h
    → (d ≡ b) × (length d ≡ k)
made_only k d b h e r = elim (Bool-cases (length d == k)) [
  | inl fits ↦ (
    cc (e, r, if_yes (length d == k) (made d) (failed bad_size) fits),
    (==_iff (length d) k).0 fits,
  )
  | inr other ↦ absurd (cc (e, r, if_no (length d == k) (made d) (failed bad_size) other))
]

sized-made : (d b : Text) → sized d ≡ made b → (d ≡ b) × (length b ≡ private_key_size)
sized-made d b h =
    let (same, size) = made_only private_key_size d b (made b) refl h in
    (same, subst (λ x. length x ≡ private_key_size) same size)

private_key-given :
    (generated : Option Text) (key_hex b : Text)
    → is_empty (trim_space key_hex) ≡ false
    → private_key generated key_hex ≡ made b
    → (decode_hex (trim_space key_hex) ≡ some b) × (length b ≡ private_key_size)
unfolding private_key
private_key-given generated key_hex b given h =
    elim (Option-cases (decode_hex (trim_space key_hex))) [
      | inl bad ↦ absurd (ground arith)
      | inr (d, read) ↦
          let (same, size) = sized-made d b (
            ap from_hex (sym read)
            ∙ sym (
                if_no (is_empty (trim_space key_hex)) (from_random generated)
                  (from_hex (decode_hex (trim_space key_hex))) given)
            ∙ h) in
          (read ∙ ap some same, size)
    ]

node_with-key :
    (a : NodeAnswers) (key_hex password priv : Text) (n : Node)
    → node_with a key_hex password priv ≡ made n
    → (n.private_key ≡ priv) × (n.ephemeral ≡ is_empty (trim_space key_hex))
unfolding node_with
node_with-key a key_hex password priv n h = ground arith

new_node-key :
    (a : NodeAnswers) (key_hex password : Text) (n : Node)
    → is_empty (trim_space key_hex) ≡ false
    → new_node a key_hex password ≡ made n
    → (decode_hex (trim_space key_hex) ≡ some n.private_key)
      × (length n.private_key ≡ private_key_size)
      × (n.ephemeral ≡ false)
unfolding new_node
new_node-key a key_hex password n given h = elim (Made-cases (private_key a.generated key_hex)) [
  | inl (priv, e) ↦
      let (read, size) = private_key-given a.generated key_hex priv given e in
      let (same, kept) = node_with-key a key_hex password priv n (ground arith) in ground arith
  | inr (bad, e) ↦ absurd (ground arith)
]

abbrev pub is_exit : Outcome → Bool
is_exit (exit e) = true
is_exit _ = false

-- A run that comes to serve or to connect has the identity of its setting: with a setting that is not
-- blank, the node's private key is the one that the setting gives in hex, of 64 bytes, and it is not
-- an ephemeral one.
pub start-key :
    (query_escape : Text → Text) (a : Answers) (v : Vars)
    → is_empty (trim_space v.key_hex) ≡ false
    → is_exit (start query_escape a v) ≡ false
    → (n : Node) × (new_node a.node v.key_hex v.password ≡ made n)
      × (decode_hex (trim_space v.key_hex) ≡ some n.private_key)
      × (length n.private_key ≡ private_key_size)
      × (n.ephemeral ≡ false)
unfolding start
start-key query_escape a v given runs = elim (Made-cases (new_node a.node v.key_hex v.password)) [
  | inl (n, e) ↦
      let (read, size, kept) = new_node-key a.node v.key_hex v.password n given e in
      (n, e, read, size, kept)
  | inr (bad, e) ↦ absurd (ground arith)
]
