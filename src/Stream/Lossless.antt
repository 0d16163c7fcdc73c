-- ===== src/Stream/Lossless.antt =====
-- Probe detection loses no byte of a user stream.
use yggss.Base.{
  ◌↔◌, sym, inl, inr, ℕ, zero, suc, ◌≡◌, ◌≢◌, refl, ◌∙◌, ap, Bool, true, false, [], ◌∷◌, ◌++◌, take,
  drop, take-append-drop, Text, text_eq, text_eq→eq, text_eq_refl, Bool-cases, if_no, if_yes,
}
use mathlib.Core.List.{append_assoc}
use yggss.Stream.Peek.{
  probe_ping, Peeked, handled, user, Source, read, read_all, echo, piped, handle_peeked,
  handle_stream,
}

-- The bytes that a source still yields.
abbrev pub bytes : Source → Text
bytes s = s.prefix ++ s.rest

pub text_eq_ne : (s t : Text) → s ≢ t → text_eq s t ≡ false
text_eq_ne s t h = elim (Bool-cases (text_eq s t)) [
  | inl e ↦ absurd (h (text_eq→eq s t e))
  | inr e ↦ e
]

-- A stream that does not start with the signature is piped whole: the source yields exactly the
-- bytes of the stream, those that the probe detection has read first.
handle_stream-user :
    (arrived later : Text)
    → take 2 arrived ≢ probe_ping
    → (s : Source) × (handle_stream true arrived later ≡ piped s) × (bytes s ≡ arrived ++ later)
unfolding handle_stream
handle_stream-user arrived later h = (
  record { prefix = take 2 arrived; rest = drop 2 arrived ++ later },
  ap (handle_peeked true) (if_no _ handled _ (text_eq_ne (take 2 arrived) probe_ping h)),
  sym (append_assoc (take 2 arrived) (drop 2 arrived) later)
      ∙ ap (λ t. t ++ later) (take-append-drop 2 arrived),
)

not_handled :
    (dial_ok : Bool) (p : Peeked) → handle_peeked dial_ok p ≡ echo probe_ping → p ≡ handled
unfolding handle_peeked
not_handled dial_ok handled h = refl
not_handled true (user consumed rest) h = cc
not_handled false (user consumed rest) h = cc

-- A stream is answered with the signature, and not piped, exactly if its first two bytes arrive in
-- time and are the signature.
handle_stream-probe :
    (dial_ok : Bool) (arrived later : Text)
    → (handle_stream dial_ok arrived later ≡ echo probe_ping) ↔ (take 2 arrived ≡ probe_ping)
unfolding handle_stream
handle_stream-probe dial_ok arrived later =
    let found = text_eq (take 2 arrived) probe_ping in
    let peeked = user (take 2 arrived) (drop 2 arrived ++ later) in
    (
      λ h. elim (Bool-cases found) [
        | inl e ↦ text_eq→eq _ _ e
        | inr e ↦ cc (not_handled dial_ok _ h, if_no found handled peeked e)
      ],
      λ e. ap (handle_peeked dial_ok) (
          if_yes found handled peeked (ap (λ t. text_eq t probe_ping) e ∙ text_eq_refl probe_ping)),
    )

read_prefix :
    (n : ℕ) (p r : Text)
    → let s : Source = record { prefix = p; rest = r } in
      (read n s).0 ++ bytes (read n s).1 ≡ p ++ r
unfolding read
read_prefix n [] r = take-append-drop n r
read_prefix n (b ∷ bs) r =
    sym (append_assoc (take n (b ∷ bs)) (drop n (b ∷ bs)) r)
    ∙ ap (λ t. t ++ r) (take-append-drop n (b ∷ bs))

pub read_lem : (n : ℕ) (s : Source) → (read n s).0 ++ bytes (read n s).1 ≡ bytes s
read_lem n s = read_prefix n s.prefix s.rest

-- Reading a source in chunks of any size yields its bytes in order: what was read and what is left
-- make up the whole.
pub read_all_lem : (k n : ℕ) (s : Source) → (read_all k n s).0 ++ bytes (read_all k n s).1 ≡ bytes s
unfolding read_all
read_all_lem zero n s = refl
read_all_lem (suc k) n s =
    let (chunk, s') = read n s in
    let (more, s'') = read_all k n s' in
    append_assoc chunk more (bytes s'') ∙ ap (λ t. chunk ++ t) (read_all_lem k n s') ∙ read_lem n s
