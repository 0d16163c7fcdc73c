-- ===== src/Failover/Probe.antt =====
-- The address that `probeDirect` of internal/yggss/failover.go connects to.
use yggss.Base.{
  ℕ, ◌≡◌, ◌⊎◌, inl, inr, sym, ap, ◌∙◌, true, false, Bool-cases, none, some, Option-cases, [], ◌∷◌,
  ◌++◌, Text, codes, if◌then◌else◌, if_yes, if_no, arith,
}
use yggss.Settings.Strings.{contains, cut, has_prefix}
use yggss.Settings.Options.{join_host_port}
use yggss.Settings.Address.{split_host_port, bracketed, after_bracket}

unfoldable pub port_of : Text → Text
port_of hostport = elim (split_host_port hostport) [ none ↦ [] | some p ↦ p.1 ]

unfoldable pub probe_address : Text → Text
unfolding port_of
probe_address host =
    if has_prefix (codes "[") host
    then elim (split_host_port host) [ none ↦ host | some p ↦ join_host_port p.0 (port_of host) ]
    else host

cut_lem : (x : ℕ) (s : Text) → contains x s ≡ true → (cut x s).0 ++ (x ∷ (cut x s).1) ≡ s
unfolding cut contains
cut_lem x [] h = cc
cut_lem x (c ∷ s) h = ground (arith, cut_lem x s)

after_bracket_lem :
    (s host rest h p : Text)
    → after_bracket s host rest ≡ some (h, p)
    → (contains 93 s ≡ true) × (host ≡ h) × (rest ≡ 58 ∷ p)
after_bracket_lem s host [] h p e = cc
after_bracket_lem s host (c ∷ port) h p e = ground arith

bracketed_lem : (s h p : Text) → bracketed s ≡ some (h, p) → 91 ∷ s ≡ 91 ∷ (h ++ (93 ∷ 58 ∷ p))
unfolding bracketed
bracketed_lem s h p e =
    let (there, host, rest) = after_bracket_lem s (cut 93 s).0 (cut 93 s).1 h p e in
    ap (λ t. 91 ∷ t)
      (sym (cut_lem 93 s there)
        ∙ ap (λ x. x ++ (93 ∷ (cut 93 s).1)) host
        ∙ ap (λ x. h ++ (93 ∷ x)) rest)

plain_host : (host : Text) → has_prefix (codes "[") host ≡ false → probe_address host ≡ host
unfolding probe_address
plain_host host b = if_no (has_prefix (codes "[") host) _ host b

-- An address that starts with a bracket and is split.
split_lem :
    (host h p : Text)
    → has_prefix (codes "[") host ≡ true
    → split_host_port host ≡ some (h, p)
    → host ≡ 91 ∷ (h ++ (93 ∷ 58 ∷ p))
unfolding split_host_port
split_lem [] h p b e = cc
split_lem (c ∷ s) h p b e =
    let bracket : c ≡ 91 = ground arith in
    let inside : bracketed s ≡ some (h, p) = ground arith in
    ap (λ x. x ∷ s) bracket ∙ bracketed_lem s h p inside

-- The two cases of `probeDirect`.
unsplit : (host : Text) → split_host_port host ≡ none → probe_address host ≡ host
unfolding probe_address
unsplit host e = ground arith

rejoined :
    (host h p : Text)
    → has_prefix (codes "[") host ≡ true
    → split_host_port host ≡ some (h, p)
    → probe_address host ≡ join_host_port h p
unfolding probe_address
rejoined host h p b e = ground arith

-- The monitor probes the endpoint of the direct link as it is written, except that needless brackets
-- around a host without a colon are taken off.
probe_address_lem :
    (host : Text)
    → (probe_address host ≡ host)
      ⊎ ((h : Text) × (p : Text) × (host ≡ 91 ∷ (h ++ (93 ∷ 58 ∷ p)))
          × (contains 58 h ≡ false)
          × (probe_address host ≡ h ++ (58 ∷ p)))
unfolding join_host_port
probe_address_lem host = elim (Bool-cases (has_prefix (codes "[") host)) [
  | inl b ↦ elim (Option-cases (split_host_port host)) [
    | inl unread ↦ inl (unsplit host unread)
    | inr (hp, e) ↦
        let (h, p) = hp in
        let whole = split_lem host h p b e in
        let joined = rejoined host h p b e in
        elim (Bool-cases (contains 58 h)) [
          | inl colon ↦ inl (joined ∙ if_yes (contains 58 h) _ _ colon ∙ sym whole)
          | inr bare ↦ inr (h, p, whole, bare, joined ∙ if_no (contains 58 h) _ _ bare)
        ]
  ]
  | inr b ↦ inl (plain_host host b)
]
