-- ===== src/Store/Removal.antt =====
-- What removals leave: the documents that their selector does not accept, in their order.
use multy_back.Prelude.{
  ◌≡◌, refl, sym, ap, ◌∙◌, Bool, true, false, List, [], ◌∷◌, ◌++◌, take, drop, keep_if, arith, inl,
  inr,
}
use multy_back.Store.Collection.{Collection, remove_first, drop_all}
use multy_back.Store.Members.{remove-cases, take-drop}

module _ {D : Type 0} (q : D → Bool) where
  keep_if-append : (xs ys : List D) → keep_if q (xs ++ ys) ≡ keep_if q xs ++ keep_if q ys
  keep_if-append [] ys = refl
  keep_if-append (x ∷ xs) ys = ground (arith, keep_if-append xs ys)

  module _ (p : D → Bool) (apart : (d : D) → p d ≡ true → q d ≡ false) where
    keep_if-drop_all : (ds : List D) → keep_if q (drop_all p ds) ≡ keep_if q ds
    unfolding drop_all
    keep_if-drop_all [] = refl
    keep_if-drop_all (d ∷ ds) = ground (arith, apart d, keep_if-drop_all ds)

    keep_if-remove_first : (ds : List D) → keep_if q (remove_first p ds) ≡ keep_if q ds
    unfolding remove_first
    keep_if-remove_first [] = refl
    keep_if-remove_first (d ∷ ds) = ground (arith, apart d, keep_if-remove_first ds)

    module _ (c : Collection D) where
      pub remove-keep_if :
          (s : c.State) → keep_if q (c.docs (c.remove p s).1) ≡ keep_if q (c.docs s)
      remove-keep_if s = elim (remove-cases c p s) [
        | inl same ↦ ap (keep_if q) same
        | inr less ↦ ap (keep_if q) less ∙ keep_if-remove_first (c.docs s)
      ]

      pub remove_all-keep_if :
          (s : c.State) → keep_if q (c.docs (c.remove_all p s).1) ≡ keep_if q (c.docs s)
      remove_all-keep_if s =
          let (n, read) = c.remove_all_read p s in
          let ds = c.docs s in
          ap (keep_if q) read
          ∙ keep_if-append (drop_all p (take n ds)) (drop n ds)
          ∙ ap (λ t. t ++ keep_if q (drop n ds)) (keep_if-drop_all (take n ds))
          ∙ sym (keep_if-append (take n ds) (drop n ds))
          ∙ ap (keep_if q) (take-drop n ds)

-- After a removal that met no error nothing is left for its selector.
pub drop_all-keep_if {ℓ} :
    {A : Type ℓ} (p : A → Bool) (xs : List A) → keep_if p (drop_all p xs) ≡ []
unfolding drop_all
drop_all-keep_if p [] = refl
drop_all-keep_if p (x ∷ xs) = ground (arith, drop_all-keep_if p xs)
