-- ===== src/Status/Size.antt =====
-- `formatBytes` of internal/yggss/stats.go. A result is what `Sprintf` is given: the quotient of two
-- numbers, still to be printed with one digit, and the letter of the unit.
use yggss.Base.{
  ℕ, zero, suc, ◌*◌, ◌/◌, ◌%◌, ◌^◌, ◌≡◌, ◌≤◌, ◌<◌, refl, Option, none, some, [], ◌∷◌, Text, codes,
  true, false, ltb, leb, if◌then◌else◌, if_splits, tests,
}

pub data Size : Type 0 where
  whole : ℕ → Size
  scaled : ℕ → ℕ → Option ℕ → Size

abbrev pub unit : ℕ
unit = 1024

abbrev get_elem? : Text → ℕ → Option ℕ
get_elem? [] n = none
get_elem? (c ∷ cs) zero = some c
get_elem? (c ∷ cs) (suc n) = get_elem? cs n

-- The loop, with `n`, `div` and `exp` of `formatBytes`; `div` is a uint64. The prefix of the unit
-- is looked up when the loop ends; out of range, where Go panics, there is none.
unfoldable pub scale : (fuel b n div exp : ℕ) → Size
scale zero b n div exp = scaled b div none
scale (suc fuel) b n div exp =
    let rest = scale fuel b (n / unit) (div * unit % 2 ^ 64) (suc exp) in
    if leb unit n then rest else scaled b div (get_elem? (codes "KMGTPE") exp)

-- Each turn divides by 1024, so that a uint64 is used up after six.
abbrev format_fuel : ℕ
format_fuel = 6

unfoldable pub format_bytes : ℕ → Size
unfolding scale
format_bytes b = if ltb b unit then whole b else scale format_fuel b (b / unit) unit 0

-- The sizes that may be printed for a number of bytes.
pub Fits : ℕ → Size → Type 0
Fits b (whole n) = (n ≡ b) × (b < 1024)
Fits b (scaled n div letter) =
    (n ≡ b)
    × (div ≤ b)
    × (b < 1024 * div)
    × ((i : ℕ) × (c : ℕ) × (div ≡ 1024 ^ suc i)
        × (get_elem? (codes "KMGTPE") i ≡ some c)
        × (letter ≡ some c))

-- A turn of the loop either goes on or ends with the unit at hand.
turn-Fits :
    (b fuel n i c : ℕ)
    → get_elem? (codes "KMGTPE") i ≡ some c
    → (leb unit n ≡ true → Fits b (scale fuel b (n / unit) (1024 ^ suc i * unit % 2 ^ 64) (suc i)))
    → (leb unit n ≡ false → (1024 ^ suc i ≤ b) × (b < 1024 * 1024 ^ suc i))
    → Fits b (scale (suc fuel) b n (1024 ^ suc i) i)
unfolding scale Fits
turn-Fits b fuel n i c e go stop =
    if_splits (Fits b) (leb unit n) _ _ go
      (λ lt. (refl, (stop lt).0, (stop lt).1, (i, c, refl, e, e)))

-- Every uint64 is printed as a number from 1 up to 1024 (below 1024 bytes, as it is) with the unit
-- that its letter stands for: the loop ends by its own test, the divisor does not overflow, and
-- the letter is never looked up out of range.
pub format_bytes-Fits : (b : ℕ) → b < 2 ^ 64 → Fits b (format_bytes b)
unfolding format_bytes Fits
format_bytes-Fits b h =
    if_splits (Fits b) (ltb b unit) (whole b) (scale 6 b (b / 1024) 1024 0)
      (λ lt. (refl, omega tests))
      (λ ge0.
        turn-Fits b 5 (b / 1024) 0 75 refl
          (λ ge1.
            turn-Fits b 4 ((b / 1024) / 1024) 1 77 refl
              (λ ge2.
                turn-Fits b 3 (((b / 1024) / 1024) / 1024) 2 71 refl
                  (λ ge3.
                    turn-Fits b 2 ((((b / 1024) / 1024) / 1024) / 1024) 3 84 refl
                      (λ ge4.
                        turn-Fits b 1 (((((b / 1024) / 1024) / 1024) / 1024) / 1024) 4 80 refl
                          (λ ge5.
                            turn-Fits b 0 ((((((b / 1024) / 1024) / 1024) / 1024) / 1024) / 1024) 5
                              69 refl (λ ge6. let absurd : ⊥ = omega tests in elim absurd [ ])
                              (λ lt. (omega tests, omega tests)))
                          (λ lt. (omega tests, omega tests)))
                      (λ lt. (omega tests, omega tests)))
                  (λ lt. (omega tests, omega tests)))
              (λ lt. (omega tests, omega tests)))
          (λ lt. (omega tests, omega tests)))
