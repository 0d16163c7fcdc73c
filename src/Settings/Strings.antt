-- ===== src/Settings/Strings.antt =====
-- The functions of Go's package strings that the settings use, on ASCII texts.
use yggss.Base.{
  ℕ, ◌+◌, Bool, true, false, ◌&&◌, ◌||◌, List, [], ◌∷◌, ◌++◌, map, Text, text_eq, leb, ◌==◌,
  if◌then◌else◌,
}

-- Space, and the characters from tab to carriage return.
abbrev pub is_space : ℕ → Bool
is_space c = c == 32 || (leb 9 c && leb c 13)

unfoldable pub trim_left : Text → Text
trim_left [] = []
trim_left (c ∷ s) = let rest = trim_left s in if is_space c then rest else c ∷ s

abbrev pub is_empty : Text → Bool
is_empty [] = true
is_empty (c ∷ s) = false

unfoldable pub trim_right : Text → Text
trim_right [] = []
trim_right (c ∷ s) = let rest = trim_right s in if is_empty rest && is_space c then [] else c ∷ rest

-- `TrimSpace`.
unfoldable pub trim_space : Text → Text
trim_space s = trim_right (trim_left s)

-- `ToLower`.
abbrev pub lower : ℕ → ℕ
lower c = if leb 65 c && leb c 90 then c + 32 else c

unfoldable pub to_lower : Text → Text
to_lower s = map lower s

-- Puts a character in front of the first part.
abbrev extend : ℕ → List Text → List Text
extend c [] = (c ∷ []) ∷ []
extend c (part ∷ parts) = (c ∷ part) ∷ parts

-- `Split` at a separator of one character.
unfoldable pub split : ℕ → Text → List Text
split sep [] = [] ∷ []
split sep (c ∷ s) = let rest = split sep s in if c == sep then [] ∷ rest else extend c rest

-- `Join`, with a separator of one character.
unfoldable pub join : ℕ → List Text → Text
join sep [] = []
join sep (s ∷ []) = s
join sep (s ∷ t ∷ ts) = s ++ (sep ∷ join sep (t ∷ ts))

-- `Cut` at one character: the part before it and the part after it, and all and nothing without it.
unfoldable pub cut : ℕ → Text → Text × Text
cut sep [] = ([], [])
cut sep (c ∷ s) = let rest = cut sep s in if c == sep then ([], s) else (c ∷ rest.0, rest.1)

-- `Contains`, for one character.
unfoldable pub contains : ℕ → Text → Bool
contains x [] = false
contains x (c ∷ s) = c == x || contains x s

abbrev pub has_prefix : Text → Text → Bool
has_prefix [] s = true
has_prefix (p ∷ ps) [] = false
has_prefix (p ∷ ps) (c ∷ s) = p == c && has_prefix ps s

-- `HasSuffix(s, suffix)`.
unfoldable pub has_suffix : Text → Text → Bool
has_suffix [] suffix = text_eq [] suffix
has_suffix (c ∷ s) suffix = text_eq (c ∷ s) suffix || has_suffix s suffix

-- `Contains`, for a text.
unfoldable pub contains_text : Text → Text → Bool
contains_text [] x = has_prefix x []
contains_text (c ∷ s) x = has_prefix x (c ∷ s) || contains_text s x
