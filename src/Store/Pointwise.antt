-- ===== src/Store/Pointwise.antt =====
-- Two lists of documents, compared place by place.
use multy_back.Prelude.{
  Bool-cases, true, false, some, any, find, ◌∙◌, arith, ℕ, zero, suc, ◌≡◌, refl, sym, subst, Bool,
  List, [], ◌∷◌, ◌++◌, ◌⊎◌, inl, inr, take, drop, if◌then◌else◌, map, ap,
}
use multy_back.Store.Collection.{Collection, modify, modify_all, update-cases}

module _ {D : Type 0} where
  abbrev pub Related : (D → D → Type 0) → List D → List D → Type 0
  Related R [] [] = Unit
  Related R [] (y ∷ ys) = ⊥
  Related R (x ∷ xs) [] = ⊥
  Related R (x ∷ xs) (y ∷ ys) = R x y × Related R xs ys

  pub Related-refl : (R : D → D → Type 0) → ((d : D) → R d d) → (xs : List D) → Related R xs xs
  Related-refl R same [] = tt
  Related-refl R same (x ∷ xs) = (same x, Related-refl R same xs)

  pub Related-trans :
      (R S T : D → D → Type 0)
      → ((x y z : D) → R x y → S y z → T x z)
      → (xs ys zs : List D) → Related R xs ys
      → Related S ys zs
      → Related T xs zs
  Related-trans R S T both [] [] [] h k = tt
  Related-trans R S T both [] [] (z ∷ zs) h k = absurd k
  Related-trans R S T both [] (y ∷ ys) zs h k = absurd h
  Related-trans R S T both (x ∷ xs) [] zs h k = absurd h
  Related-trans R S T both (x ∷ xs) (y ∷ ys) [] h k = absurd k
  Related-trans R S T both (x ∷ xs) (y ∷ ys) (z ∷ zs) (r, h) (q, k) =
      (both x y z r q, Related-trans R S T both xs ys zs h k)

  -- A document is as it was, or is changed if it is to be.
  abbrev pub MayChange : (D → Bool) → (D → D) → D → D → Type 0
  MayChange p f d d' = (d' ≡ d) ⊎ (d' ≡ (if p d then f d else d))

  modify_all-MayChange :
      (p : D → Bool) (f : D → D) (n : ℕ) (ds : List D)
      → Related (MayChange p f) ds (modify_all p f (take n ds) ++ drop n ds)
  unfolding modify_all
  modify_all-MayChange p f zero ds = Related-refl (MayChange p f) (λ d. inl refl) ds
  modify_all-MayChange p f (suc n) [] = tt
  modify_all-MayChange p f (suc n) (d ∷ ds) = (inr refl, modify_all-MayChange p f n ds)

  -- So does an update of all matches leave each, however it ends.
  pub update_all-MayChange :
      (c : Collection D) (p : D → Bool) (f : D → D) (s : c.State)
      → Related (MayChange p f) (c.docs s) (c.docs (c.update_all p f s).1)
  update_all-MayChange c p f s =
      let (n, read) = c.update_all_read p f s in
      subst (Related (MayChange p f) (c.docs s)) (sym read) (modify_all-MayChange p f n (c.docs s))

  modify_all-blind :
      {B : Type 0} (g : D → B) (p : D → Bool) (f : D → D) (n : ℕ) (ds : List D)
      → ((d : D) → g (f d) ≡ g d)
      → map g (modify_all p f (take n ds) ++ drop n ds) ≡ map g ds
  unfolding modify_all
  modify_all-blind g p f zero ds blind = refl
  modify_all-blind g p f (suc n) [] blind = refl
  modify_all-blind g p f (suc n) (d ∷ ds) blind =
      ground (arith, blind d, modify_all-blind g p f n ds blind)

  -- A view of the documents that the change does not touch stays, however an update of all ends.
  pub update_all-blind :
      {B : Type 0} (c : Collection D) (g : D → B) (p : D → Bool) (f : D → D) (s : c.State)
      → ((d : D) → g (f d) ≡ g d)
      → map g (c.docs (c.update_all p f s).1) ≡ map g (c.docs s)
  update_all-blind c g p f s blind =
      let (n, read) = c.update_all_read p f s in
      ap (map g) read ∙ modify_all-blind g p f n (c.docs s) blind

  pub modify-blind :
      {B : Type 0} (g : D → B) (p : D → Bool) (f : D → D) (ds : List D)
      → ((d : D) → g (f d) ≡ g d)
      → map g (modify p f ds) ≡ map g ds
  unfolding modify
  modify-blind g p f [] blind = refl
  modify-blind g p f (d ∷ ds) blind = ground (arith, blind d, modify-blind g p f ds blind)

  -- And however an update of the first match ends.
  pub update-blind :
      {B : Type 0} (c : Collection D) (g : D → B) (p : D → Bool) (f : D → D) (s : c.State)
      → ((d : D) → g (f d) ≡ g d)
      → map g (c.docs (c.update p f s).1) ≡ map g (c.docs s)
  update-blind c g p f s blind = elim (update-cases c p f s) [
    | inl kept ↦ ap (map g) kept
    | inr changed ↦ ap (map g) changed ∙ modify-blind g p f (c.docs s) blind
  ]

  find-modify_other :
      (p q : D → Bool) (f : D → D) (ds : List D)
      → ((d : D) → q d ≡ true → p d ≡ false)
      → ((d : D) → p (f d) ≡ p d)
      → find p (modify q f ds) ≡ find p ds
  unfolding modify
  find-modify_other p q f [] apart same = refl
  find-modify_other p q f (d ∷ ds) apart same =
      ground (arith, apart d, same d, find-modify_other p q f ds apart same)

  -- A search for what an update does not select finds what it did.
  pub find-update_other :
      (c : Collection D) (p q : D → Bool) (f : D → D) (s : c.State)
      → ((d : D) → q d ≡ true → p d ≡ false)
      → ((d : D) → p (f d) ≡ p d)
      → find p (c.docs (c.update q f s).1) ≡ find p (c.docs s)
  find-update_other c p q f s apart same = elim (update-cases c q f s) [
    | inl kept ↦ ap (find p) kept
    | inr changed ↦ ap (find p) changed ∙ find-modify_other p q f (c.docs s) apart same
  ]

  -- The first match after its own update.
  pub find-modify_own :
      (p : D → Bool) (f : D → D) (ds : List D)
      → ((d : D) → p (f d) ≡ p d)
      → any p ds ≡ true
      → (d : D) × (find p ds ≡ some d) × (find p (modify p f ds) ≡ some (f d))
  unfolding modify
  find-modify_own p f [] same h = absurd (cc)
  find-modify_own p f (d ∷ ds) same h = elim (Bool-cases (p d)) [
    | inl hit ↦ (d, ground (arith, hit), ground (arith, hit, same d))
    | inr miss ↦
        let (d', found, changed) = find-modify_own p f ds same (ground (arith, miss)) in
        (d', ground (arith, miss, found), ground (arith, miss, changed))
  ]

  pub modify_all-map :
      (p : D → Bool) (f : D → D) (ds : List D)
      → modify_all p f ds ≡ map (λ d. if p d then f d else d) ds
  unfolding modify_all
  modify_all-map p f [] = refl
  modify_all-map p f (d ∷ ds) = ap (λ t. (if p d then f d else d) ∷ t) (modify_all-map p f ds)

  pub modify-Related_if :
      (R : D → D → Type 0) (p : D → Bool) (f : D → D) (ds : List D)
      → ((d : D) → R d d)
      → ((d : D) → p d ≡ true → R d (f d))
      → Related R ds (modify p f ds)
  unfolding modify
  modify-Related_if R p f [] same change = tt
  modify-Related_if R p f (d ∷ ds) same change = elim (Bool-cases (p d)) [
    | inl here ↦ rw here (change d here, Related-refl R same ds)
    | inr past ↦ rw past (same d, modify-Related_if R p f ds same change)
  ]

  modify-Related :
      (R : D → D → Type 0) (p : D → Bool) (f : D → D) (ds : List D)
      → ((d : D) → R d d)
      → ((d : D) → R d (f d))
      → Related R ds (modify p f ds)
  modify-Related R p f ds same change = modify-Related_if R p f ds same (λ d e. change d)

  -- An update, however it ends, relates the documents by what a change of a selected one relates.
  pub update-Related_if :
      (c : Collection D) (R : D → D → Type 0) (p : D → Bool) (f : D → D) (s : c.State)
      → ((d : D) → R d d)
      → ((d : D) → p d ≡ true → R d (f d))
      → Related R (c.docs s) (c.docs (c.update p f s).1)
  update-Related_if c R p f s same change = elim (update-cases c p f s) [
    | inl kept ↦ rw kept (Related-refl R same (c.docs s))
    | inr changed ↦ rw changed (modify-Related_if R p f (c.docs s) same change)
  ]

  -- An update, however it ends, relates the documents by what a change relates.
  pub update-Related :
      (c : Collection D) (R : D → D → Type 0) (p : D → Bool) (f : D → D) (s : c.State)
      → ((d : D) → R d d)
      → ((d : D) → R d (f d))
      → Related R (c.docs s) (c.docs (c.update p f s).1)
  update-Related c R p f s same change = elim (update-cases c p f s) [
    | inl kept ↦ rw kept (Related-refl R same (c.docs s))
    | inr changed ↦ rw changed (modify-Related R p f (c.docs s) same change)
  ]
