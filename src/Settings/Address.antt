-- ===== src/Settings/Address.antt =====
-- `parseHostPort` of internal/yggss/direct.go, on addresses as `LocalAddr` and `RemoteAddr` of the
-- SIP003 environment build them (internal/yggss/sip003.go).
use yggss.Base.{
  ℕ, ◌≡◌, refl, Bool, true, false, not, ◌&&◌, ◌||◌, Option, none, some, [], ◌∷◌, ◌++◌, Text, codes,
  drop, ◌==◌, if◌then◌else◌, Bool-cases, inl, inr, ℤ, arith,
}
use yggss.Settings.Strings.{contains, cut, has_prefix}
use yggss.Settings.Options.{join_host_port}
use yggss.Settings.Environment.{atoi}

-- The text after the first "://".
unfoldable pub after_scheme : Text → Option Text
after_scheme [] = none
after_scheme (c ∷ s) =
    let rest = after_scheme s in if has_prefix (codes "://") (c ∷ s) then some (drop 2 s) else rest

-- The text up to the first "/" or "?".
unfoldable pub before_path : Text → Text
before_path [] = []
before_path (c ∷ s) = let rest = before_path s in if c == 47 || c == 63 then [] else c ∷ rest

-- The texts around the last colon.
unfoldable pub split_last_colon : Text → Option (Text × Text)
split_last_colon [] = none
split_last_colon (c ∷ s) = elim (split_last_colon s) [
  | some p ↦ some (c ∷ p.0, p.1)
  | none ↦ if c == 58 then some ([], s) else none
]

-- An address in brackets, after the bracket: the part up to the closing one, and a port.
abbrev pub after_bracket : (s host rest : Text) → Option (Text × Text)
after_bracket s host [] = none
after_bracket s host (c ∷ port) =
    if contains 93 s
      && (c == 58 && (not (contains 58 port) && (not (contains 91 s) && not (contains 93 port))))
    then some (host, port)
    else none

unfoldable pub bracketed : Text → Option (Text × Text)
bracketed s = after_bracket s (cut 93 s).0 (cut 93 s).1

-- `net.SplitHostPort`.
unfoldable pub split_host_port : Text → Option (Text × Text)
unfolding bracketed split_last_colon
split_host_port [] = none
split_host_port (c ∷ s) =
    let inside = bracketed s in
    if c == 91 then inside else elim (split_last_colon (c ∷ s)) [
      | none ↦ none
      | some p ↦
          if not (contains 58 p.0) && (not (contains 91 (c ∷ s)) && not (contains 93 (c ∷ s)))
          then some p
          else none
    ]

abbrev with_port : Option (Text × Text) → Option (Text × ℤ)
with_port none = none
with_port (some p) = elim (atoi p.1) [ none ↦ none | some n ↦ some (p.0, n) ]

unfoldable pub parse_host_port : Text → Option (Text × ℤ)
unfolding after_scheme before_path split_host_port
parse_host_port s = elim (after_scheme s) [
  | none ↦ with_port (split_host_port s)
  | some rest ↦ with_port (split_host_port (before_path rest))
]

-- No slash and no bracket.
abbrev pub plain : Text → Bool
plain s = not (contains 47 s) && (not (contains 91 s) && not (contains 93 s))

no_scheme : (s : Text) → contains 47 s ≡ false → after_scheme s ≡ none
unfolding after_scheme contains
no_scheme [] h = refl
no_scheme (c ∷ s) h = ground (arith, no_scheme s)

contains-append : (x : ℕ) (s t : Text) → contains x (s ++ t) ≡ (contains x s || contains x t)
unfolding contains
contains-append x [] t = refl
contains-append x (c ∷ s) t = ground (arith, contains-append x s t)

last_colon : (port : Text) → contains 58 port ≡ false → split_last_colon port ≡ none
unfolding split_last_colon contains
last_colon [] h = refl
last_colon (c ∷ s) h = ground (arith, last_colon s)

split_last_colon-append :
    (host port : Text)
    → contains 58 port ≡ false
    → split_last_colon (host ++ (58 ∷ port)) ≡ some (host, port)
unfolding split_last_colon
split_last_colon-append [] port h = ground (arith, last_colon port)
split_last_colon-append (c ∷ host) port h = ground (arith, split_last_colon-append host port)

cut-bracket : (host t : Text) → contains 93 host ≡ false → cut 93 (host ++ (93 ∷ t)) ≡ (host, t)
unfolding cut contains
cut-bracket [] t h = refl
cut-bracket (c ∷ host) t h = ground (arith, cut-bracket host t)

-- No colon in the host: the address is split at the colon that `JoinHostPort` has put there.
split-unbracketed :
    (host port : Text)
    → plain host ≡ true
    → plain port ≡ true
    → contains 58 port ≡ false
    → contains 58 host ≡ false
    → split_host_port (host ++ (58 ∷ port)) ≡ some (host, port)
unfolding split_host_port contains
split-unbracketed [] port ph pp cp ch = ground (arith, split_last_colon-append [] port cp)
split-unbracketed (c ∷ host) port ph pp cp ch = ground (
  arith,
  split_last_colon-append (c ∷ host) port cp,
  contains-append 91 host (58 ∷ port),
  contains-append 93 host (58 ∷ port),
)

split-bracketed :
    (host port : Text)
    → plain host ≡ true
    → plain port ≡ true
    → contains 58 port ≡ false
    → split_host_port (91 ∷ (host ++ (93 ∷ 58 ∷ port))) ≡ some (host, port)
unfolding split_host_port bracketed contains
split-bracketed host port ph pp cp = ground (
  arith,
  cut-bracket host (58 ∷ port) (ground arith),
  contains-append 91 host (93 ∷ 58 ∷ port),
  contains-append 93 host (93 ∷ 58 ∷ port),
)

-- The address that `JoinHostPort` makes of a host and a port is taken apart into them again, with
-- brackets or without, if neither has a slash or a bracket and the port is a number without a colon.
pub parse_host_port-join :
    (host port : Text) (n : ℤ)
    → plain host ≡ true
    → plain port ≡ true
    → contains 58 port ≡ false
    → atoi port ≡ some n
    → parse_host_port (join_host_port host port) ≡ some (host, n)
unfolding parse_host_port join_host_port contains
parse_host_port-join host port n ph pp cp number = elim (Bool-cases (contains 58 host)) [
  | inl colon ↦ ground (
    arith,
    split-bracketed host port ph pp cp,
    no_scheme (91 ∷ (host ++ (93 ∷ 58 ∷ port)))
        (ground (arith, contains-append 47 host (93 ∷ 58 ∷ port))),
  )
  | inr other ↦ ground (
    arith,
    split-unbracketed host port ph pp cp other,
    no_scheme (host ++ (58 ∷ port)) (ground (arith, contains-append 47 host (58 ∷ port))),
  )
]
