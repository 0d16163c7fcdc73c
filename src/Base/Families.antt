-- ===== src/Base/Families.antt =====
-- Families indexed by numbers, changed at one index.
use Prim.Native.Nat.{ℕ}
use mathlib.Core.Path.{◌≡◌, refl, subst}
use mathlib.Core.Logic.{◌≢◌}
use yggss.Base.Tests.{◌==◌, ==_iff, if_splits, if_yes, if◌then◌else◌}

abbrev pub put {ℓ} : {A : Type ℓ} → ℕ → A → (ℕ → A) → ℕ → A
put i a f j = if i == j then a else f j

-- What all values of a family have, the changed family has if the new value does.
pub put_keeps {ℓ κ} :
    {A : Type ℓ} (P : ℕ → A → Type κ) (i : ℕ) (a : A) (f : ℕ → A)
    → P i a
    → ((j : ℕ) → i ≢ j → P j (f j))
    → (j : ℕ) → P j (put i a f j)
put_keeps P i a f new old j =
    if_splits (P j) (i == j) a (f j) (λ e. subst (λ k. P k a) ((==_iff i j).0 e) new)
      (λ e. old j (λ same. absurd (cc (e, (==_iff i j).1 same))))

pub put_self {ℓ} : {A : Type ℓ} (i : ℕ) (a : A) (f : ℕ → A) → put i a f i ≡ a
put_self i a f = if_yes (i == i) a (f i) ((==_iff i i).1 refl)

pub put_other {ℓ} : {A : Type ℓ} (i j : ℕ) (a : A) (f : ℕ → A) → i ≢ j → put i a f j ≡ f j
put_other i j a f ne =
    put_keeps (λ k x. i ≢ k → x ≡ f k) i a f (λ e. absurd (e refl)) (λ k e d. refl) j ne
