-- ===== src/Store/Members.antt =====
-- Which documents a collection has after its calls, whatever the calls answer.
use multy_back.Prelude.{
  ℕ, zero, suc, take, drop, ap, ◌∙◌, ◌≡◌, refl, Bool, true, false, List, [], ◌∷◌, ◌++◌, ◌⊎◌, inl,
  inr, any, arith, find, some, if◌then◌else◌,
}
use multy_back.Store.Collection.{
  Answer, ok, not_found, failed, Collection, modify, modify_all, remove_first, update-cases,
}

module _ {D : Type 0} (p : D → Bool) where
  pub any-modify :
      (q : D → Bool) (f : D → D) (ds : List D)
      → ((d : D) → p (f d) ≡ p d)
      → any p (modify q f ds) ≡ any p ds
  unfolding modify
  any-modify q f [] same = refl
  any-modify q f (d ∷ ds) same = ground (arith, same d, any-modify q f ds same)

  pub any-append : (xs ys : List D) → any p xs ≡ true → any p (xs ++ ys) ≡ true
  any-append [] ys h = absurd (cc)
  any-append (x ∷ xs) ys h = ground (arith, any-append xs ys)

  pub any-append-absent :
      (xs ys : List D) → any p xs ≡ false → any p ys ≡ false → any p (xs ++ ys) ≡ false
  any-append-absent [] ys h k = k
  any-append-absent (x ∷ xs) ys h k = ground (arith, any-append-absent xs ys)

  pub any-append_last : (xs : List D) (y : D) → p y ≡ true → any p (xs ++ y ∷ []) ≡ true
  any-append_last [] y h = ground arith
  any-append_last (x ∷ xs) y h = ground (arith, any-append_last xs y)

  pub any-remove_first :
      (q : D → Bool) (ds : List D) → any p ds ≡ false → any p (remove_first q ds) ≡ false
  unfolding remove_first
  any-remove_first q [] h = refl
  any-remove_first q (d ∷ ds) h = ground (arith, any-remove_first q ds)

  module _ (c : Collection D) where
    pub insert-keeps :
        (d : D) (s : c.State) → any p (c.docs s) ≡ true → any p (c.docs (c.insert d s).1) ≡ true
    insert-keeps d s h = elim (c.insert_other d s) [
      | inl same ↦ rw same h
      | inr added ↦ rw added (any-append (c.docs s) (d ∷ []) h)
    ]

    pub insert-absent :
        (d : D) (s : c.State)
        → p d ≡ false
        → any p (c.docs s) ≡ false
        → any p (c.docs (c.insert d s).1) ≡ false
    insert-absent d s other h = elim (c.insert_other d s) [
      | inl same ↦ rw same h
      | inr added ↦ rw added (any-append-absent (c.docs s) (d ∷ []) h (ground arith))
    ]

    pub update-any :
        (q : D → Bool) (f : D → D) (s : c.State)
        → ((d : D) → p (f d) ≡ p d)
        → any p (c.docs (c.update q f s).1) ≡ any p (c.docs s)
    update-any q f s same = elim (update-cases c q f s) [
      | inl kept ↦ rw kept refl
      | inr changed ↦ rw changed (any-modify q f (c.docs s) same)
    ]

module _ {D : Type 0} (c : Collection D) where
  -- What a removal makes of the documents: nothing, or the loss of the first match.
  pub remove-cases :
      (q : D → Bool) (s : c.State)
      → (c.docs (c.remove q s).1 ≡ c.docs s) ⊎ (c.docs (c.remove q s).1 ≡ remove_first q (c.docs s))
  remove-cases q s = answered ((c.remove q s).0) refl
    where
      answered :
          (a : Answer (Unit {0}))
          → (c.remove q s).0 ≡ a
          → (c.docs (c.remove q s).1 ≡ c.docs s)
            ⊎ (c.docs (c.remove q s).1 ≡ remove_first q (c.docs s))
      answered (ok u) e = inr (c.remove_ok q s e).0
      answered not_found e = inl (c.remove_not_found q s e).0
      answered (failed text) e = c.remove_failed q s text e

  pub remove-absent :
      (p : D → Bool) (q : D → Bool) (s : c.State)
      → any p (c.docs s) ≡ false
      → any p (c.docs (c.remove q s).1) ≡ false
  remove-absent p q s h = elim (remove-cases q s) [
    | inl same ↦ rw same h
    | inr less ↦ rw less (any-remove_first p q (c.docs s) h)
  ]

pub any-snoc {ℓ} :
    {A : Type ℓ} (p : A → Bool) (xs : List A) (y : A)
    → any p (xs ++ y ∷ []) ≡ (if p y then true else any p xs)
any-snoc p [] y = ground arith
any-snoc p (x ∷ xs) y = ground (arith, any-snoc p xs y)

pub find-any-true {ℓ} :
    {A : Type ℓ} (p : A → Bool) (xs : List A) (x : A) → find p xs ≡ some x → any p xs ≡ true
find-any-true p [] x e = absurd (cc)
find-any-true p (y ∷ ys) x e = ground (arith, find-any-true p ys x)

modify_all_none {ℓ} :
    {A : Type ℓ} (p : A → Bool) (f : A → A) (xs : List A)
    → ((x : A) → p x ≡ false)
    → modify_all p f xs ≡ xs
unfolding modify_all
modify_all_none p f [] none_fits = refl
modify_all_none p f (x ∷ xs) none_fits =
    ground (arith, none_fits x, modify_all_none p f xs none_fits)

pub take-drop {ℓ} : {A : Type ℓ} (n : ℕ) (xs : List A) → take n xs ++ drop n xs ≡ xs
take-drop zero xs = refl
take-drop (suc n) [] = refl
take-drop (suc n) (x ∷ xs) = ap (λ t. x ∷ t) (take-drop n xs)

-- An update of all matches, of which there are none, changes nothing, however it ends.
pub update_all_none :
    {D : Type 0} (c : Collection D) (p : D → Bool) (f : D → D) (s : c.State)
    → ((d : D) → p d ≡ false)
    → c.docs (c.update_all p f s).1 ≡ c.docs s
update_all_none c p f s none_fits =
    let (n, read) = c.update_all_read p f s in
    read
    ∙ ap (λ t. t ++ drop n (c.docs s)) (modify_all_none p f (take n (c.docs s)) none_fits)
    ∙ take-drop n (c.docs s)
