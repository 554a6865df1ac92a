-- ===== src/Prelude/Search.antt =====
-- What the search loops find, and what a filter keeps.
use mathlib.Core.Path.{◌≡◌, refl}
use mathlib.Core.Logic.{inl, inr}
use mathlib.Core.Bool.{Bool, true, false}
use mathlib.Core.List.{List, [], ◌∷◌, ◌++◌}
use mathlib.Core.Option.{none, some}
use native.Mathlib.Omega.{arith}
use multy_back.Prelude.Tests.{Bool-cases}
use multy_back.Prelude.Lists.{find, keep_if, any, All}

pub find-All {ℓ κ} :
    {A : Type ℓ} (P : A → Type κ) (p : A → Bool) (xs : List A) (x : A)
    → All P xs
    → find p xs ≡ some x
    → P x
find-All P p [] x h e = cc
find-All P p (y ∷ ys) x (q, h) e = ground (arith, find-All P p ys x h)

pub find-test {ℓ} :
    {A : Type ℓ} (p : A → Bool) (xs : List A) (x : A) → find p xs ≡ some x → p x ≡ true
find-test p [] x e = cc
find-test p (y ∷ ys) x e = ground (arith, find-test p ys x)

pub keep_if-All {ℓ κ} :
    {A : Type ℓ} (P : A → Type κ) (p : A → Bool) (xs : List A) → All P xs → All P (keep_if p xs)
keep_if-All P p [] h = tt
keep_if-All P p (y ∷ ys) (q, h) = ground (arith, keep_if-All P p ys h)

pub any-find {ℓ} : {A : Type ℓ} (p : A → Bool) (xs : List A) → any p xs ≡ false → find p xs ≡ none
any-find p [] e = refl
any-find p (y ∷ ys) e = ground (arith, any-find p ys)

pub find-any {ℓ} : {A : Type ℓ} (p : A → Bool) (xs : List A) → find p xs ≡ none → any p xs ≡ false
find-any p [] e = refl
find-any p (y ∷ ys) e = ground (arith, find-any p ys)

pub any-find-some {ℓ} :
    {A : Type ℓ} (p : A → Bool) (xs : List A) → any p xs ≡ true → (x : A) × (find p xs ≡ some x)
any-find-some p [] e = absurd (cc)
any-find-some p (y ∷ ys) e = elim (Bool-cases (p y)) [
  | inl at_y ↦ (y, rw at_y)
  | inr past_y ↦ rw past_y (any-find-some p ys (ground arith))
]

pub keep_if-test {ℓ} :
    {A : Type ℓ} (p : A → Bool) (xs : List A) → All (λ x. p x ≡ true) (keep_if p xs)
keep_if-test p [] = tt
keep_if-test p (y ∷ ys) = ground (arith, keep_if-test p ys)

module _ {ℓ} {A : Type ℓ} where
  pub find-append_found :
      (p : A → Bool) (xs ys : List A) (a : A) → find p xs ≡ some a → find p (xs ++ ys) ≡ some a
  find-append_found p [] ys a e = absurd (cc)
  find-append_found p (x ∷ xs) ys a e = ground (arith, find-append_found p xs ys a)

  pub find-append_none :
      (p : A → Bool) (xs ys : List A) → find p xs ≡ none → find p (xs ++ ys) ≡ find p ys
  find-append_none p [] ys e = refl
  find-append_none p (x ∷ xs) ys e = ground (arith, find-append_none p xs ys)
