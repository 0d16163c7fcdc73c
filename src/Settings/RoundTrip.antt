-- ===== src/Settings/RoundTrip.antt =====
-- Options that are written down as "key=value;key=value" are read back (internal/yggss/sip003.go).
use yggss.Base.{
  ℕ, ◌≡◌, refl, Bool, true, false, not, ◌&&◌, [], ◌∷◌, ◌++◌, map, Text, ◌==◌, arith, ap, ◌∙◌,
}
use yggss.Settings.Strings.{
  is_space, is_empty, lower, trim_left, trim_right, trim_space, to_lower, split, join, cut,
  contains,
}
use yggss.Settings.Options.{Options, add_option, add_options, parse_plugin_options}

-- A character that a key may have.
abbrev key_char : ℕ → Bool
key_char c = not (is_space c) && (not (c == 59) && (not (c == 61) && lower c == c))

abbrev all_key : Text → Bool
all_key [] = true
all_key (c ∷ s) = key_char c && all_key s

-- A key in lower case without blanks and separators, and a value without a semicolon and without
-- blanks at its ends.
pub record IsOption (o : Text × Text) : Type 0 where
  pub key : all_key o.0 ≡ true
  pub not_empty : is_empty o.0 ≡ false
  pub one_part : contains 59 o.1 ≡ false
  pub no_left : trim_left o.1 ≡ o.1
  pub no_right : trim_right o.1 ≡ o.1

abbrev pub print_option : Text × Text → Text
print_option o = o.0 ++ (61 ∷ o.1)

split-one : (s : Text) → contains 59 s ≡ false → split 59 s ≡ s ∷ []
unfolding split contains
split-one [] h = refl
split-one (c ∷ s) h = ground (arith, split-one s)

split-append : (s t : Text) → contains 59 s ≡ false → split 59 (s ++ (59 ∷ t)) ≡ s ∷ split 59 t
unfolding split contains
split-append [] t h = refl
split-append (c ∷ s) t h = ground (arith, split-append s t)

contains-print :
    (k v : Text) → all_key k ≡ true → contains 59 v ≡ false → contains 59 (k ++ (61 ∷ v)) ≡ false
unfolding contains
contains-print [] v hk hv = ground arith
contains-print (c ∷ k) v hk hv = ground (arith, contains-print k v)

cut-print : (k v : Text) → all_key k ≡ true → cut 61 (k ++ (61 ∷ v)) ≡ (k, v)
unfolding cut
cut-print [] v h = refl
cut-print (c ∷ k) v h = ground (arith, cut-print k v)

trim_right-print :
    (k v : Text) → all_key k ≡ true → trim_right v ≡ v → trim_right (k ++ (61 ∷ v)) ≡ k ++ (61 ∷ v)
unfolding trim_right
trim_right-print [] v hk hv = ground arith
trim_right-print (c ∷ k) v hk hv = ground (arith, trim_right-print k v)

trim_right-key : (k : Text) → all_key k ≡ true → trim_right k ≡ k
unfolding trim_right
trim_right-key [] h = refl
trim_right-key (c ∷ k) h = ground (arith, trim_right-key k)

to_lower-key : (k : Text) → all_key k ≡ true → to_lower k ≡ k
unfolding to_lower
to_lower-key [] h = refl
to_lower-key (c ∷ k) h = ground (arith, to_lower-key k)

trim_left-print :
    (k v : Text) → all_key k ≡ true → is_empty k ≡ false → trim_left (k ++ (61 ∷ v)) ≡ k ++ (61 ∷ v)
unfolding trim_left
trim_left-print [] v hk hn = cc
trim_left-print (c ∷ k) v hk hn = ground arith

trim_left-key : (k : Text) → all_key k ≡ true → trim_left k ≡ k
unfolding trim_left
trim_left-key [] h = refl
trim_left-key (c ∷ k) h = ground arith

trim_space-print :
    (k v : Text) → IsOption (k, v) → trim_space (print_option (k, v)) ≡ print_option (k, v)
unfolding trim_space
trim_space-print k v o =
    ap trim_right (trim_left-print k v o.key o.not_empty) ∙ trim_right-print k v o.key o.no_right

trim_space-key : (k : Text) → all_key k ≡ true → trim_space k ≡ k
unfolding trim_space
trim_space-key k h = ap trim_right (trim_left-key k h) ∙ trim_right-key k h

trim_space-value : (v : Text) → trim_left v ≡ v → trim_right v ≡ v → trim_space v ≡ v
unfolding trim_space
trim_space-value v l r = ap trim_right l ∙ r

add_option-print :
    (k v : Text) (opts : Options)
    → IsOption (k, v)
    → add_option (print_option (k, v)) opts ≡ (k, v) ∷ opts
unfolding add_option
add_option-print k v opts o =
    let whole = trim_space-print k v o in
    let halves = cut-print k v o.key in
    let name : to_lower (trim_space k) ≡ k =
      ap to_lower (trim_space-key k o.key) ∙ to_lower-key k o.key in
    let value : trim_space v ≡ v = trim_space-value v o.no_left o.no_right in ground arith

unfoldable pub AllOptions : Options → Type 0
AllOptions [] = Unit
AllOptions (o ∷ os) = IsOption o × AllOptions os

-- The options in front of others, newest first.
abbrev pub onto : Options → Options → Options
onto [] opts = opts
onto (o ∷ os) opts = onto os (o ∷ opts)

add_options-print :
    (os opts : Options) → AllOptions os → add_options (map print_option os) opts ≡ onto os opts
unfolding add_options AllOptions
add_options-print [] opts h = refl
add_options-print ((k, v) ∷ os) opts h =
    ap (add_options (map print_option os)) (add_option-print k v opts h.0)
    ∙ add_options-print os ((k, v) ∷ opts) h.1

split-join :
    (o : Text × Text) (os : Options)
    → AllOptions (o ∷ os)
    → split 59 (join 59 (map print_option (o ∷ os))) ≡ map print_option (o ∷ os)
unfolding join AllOptions
split-join (k, v) [] h = split-one (print_option (k, v)) (contains-print k v h.0.key h.0.one_part)
split-join (k, v) (o ∷ os) h =
    split-append (print_option (k, v)) _ (contains-print k v h.0.key h.0.one_part)
    ∙ ap (λ ps. print_option (k, v) ∷ ps) (split-join o os h.1)

-- Reading the written options gives them back, all of them in their order: the map holds the newest
-- first, so that of two options with one key the later one counts.
pub parse_plugin_options-print :
    (os : Options)
    → AllOptions os
    → parse_plugin_options (join 59 (map print_option os)) ≡ onto os []
unfolding parse_plugin_options split join trim_space trim_right trim_left
parse_plugin_options-print [] h = refl
parse_plugin_options-print (o ∷ os) h =
    ap (λ ps. add_options ps []) (split-join o os h) ∙ add_options-print (o ∷ os) [] h
