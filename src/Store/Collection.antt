-- ===== src/Store/Collection.antt =====
-- A collection of MongoDB behind the driver mgo, which the store calls and does not implement: a
-- record of the calls and of what they are documented to do. A selector is a test of a document, an
-- update a function on it.
use multy_back.Prelude.{
  ℕ, ◌≡◌, refl, Bool, true, none, some, List, [], ◌∷◌, ◌++◌, ◌⊎◌, inl, inr, if◌then◌else◌, find,
  keep_if, All, Str, codes, arith, any, subst, Bool-cases, take, drop, sym,
}

pub data Answer {ℓ} (A : Type ℓ) : Type ℓ where
  ok : A → Answer A
  not_found : Answer A
  failed : Str → Answer A

-- The text of an error; `mgo.ErrNotFound` reads so.
abbrev pub error_text {ℓ} : {A : Type ℓ} → Answer A → Str
error_text (ok a) = []
error_text not_found = codes "not found"
error_text (failed text) = text

-- An update is on the first document that the selector accepts.
unfoldable pub modify {ℓ} : {A : Type ℓ} → (A → Bool) → (A → A) → List A → List A
modify p f [] = []
modify p f (x ∷ xs) = if p x then f x ∷ xs else x ∷ modify p f xs

-- A removal is of the first document that the selector accepts.
unfoldable pub remove_first {ℓ} : {A : Type ℓ} → (A → Bool) → List A → List A
remove_first p [] = []
remove_first p (x ∷ xs) = if p x then xs else x ∷ remove_first p xs

unfoldable pub modify_all {ℓ} : {A : Type ℓ} → (A → Bool) → (A → A) → List A → List A
modify_all p f [] = []
modify_all p f (x ∷ xs) = (if p x then f x else x) ∷ modify_all p f xs

-- A removal of all that the selector accepts.
unfoldable pub drop_all {ℓ} : {A : Type ℓ} → (A → Bool) → List A → List A
drop_all p [] = []
drop_all p (x ∷ xs) = if p x then drop_all p xs else x ∷ drop_all p xs

-- An upsert changes the first match, or adds the document that the selector and the update make.
unfoldable pub modify_or_add {ℓ} : {A : Type ℓ} → (A → Bool) → (A → A) → A → List A → List A
unfolding modify
modify_or_add p f d xs = if any p xs then modify p f xs else xs ++ d ∷ []

pub record Collection (D : Type 0) : Type 1 where
  pub State : Type 0
  pub docs : State → List D
  -- `Find(…).One`, `Find(…).All` with the test that it met no error, `Update` and
  -- `Insert`.
  pub find_one : (D → Bool) → State → Answer D
  pub find_all : (D → Bool) → State → List D × Bool
  pub update : (D → Bool) → (D → D) → State → Answer (Unit {0}) × State
  pub insert : D → State → Answer (Unit {0}) × State
  -- `Remove`, `RemoveAll`, `UpdateAll` and `Upsert`.
  pub remove : (D → Bool) → State → Answer (Unit {0}) × State
  pub remove_all : (D → Bool) → State → Answer (Unit {0}) × State
  pub update_all : (D → Bool) → (D → D) → State → Answer (Unit {0}) × State
  pub upsert : (D → Bool) → (D → D) → D → State → Answer (Unit {0}) × State
  pub find_one_ok :
      (p : D → Bool) (s : State) (d : D) → find_one p s ≡ ok d → find p (docs s) ≡ some d
  pub find_one_not_found :
      (p : D → Bool) (s : State) → find_one p s ≡ not_found → find p (docs s) ≡ none
  -- Where the iteration breaks off, what it has read so far is in the result.
  pub find_all_read :
      (p : D → Bool) (s : State) → (n : ℕ) × ((find_all p s).0 ≡ take n (keep_if p (docs s)))
  pub find_all_ok :
      (p : D → Bool) (s : State) → (find_all p s).1 ≡ true → (find_all p s).0 ≡ keep_if p (docs s)
  pub update_ok :
      (p : D → Bool) (f : D → D) (s : State)
      → (update p f s).0 ≡ ok tt
      → docs (update p f s).1 ≡ modify p f (docs s)
  -- An update that matches nothing is not answered by ok.
  pub update_found :
      (p : D → Bool) (f : D → D) (s : State) → (update p f s).0 ≡ ok tt → any p (docs s) ≡ true
  pub update_not_found :
      (p : D → Bool) (f : D → D) (s : State)
      → (update p f s).0 ≡ not_found
      → (docs (update p f s).1 ≡ docs s) × (find p (docs s) ≡ none)
  -- A write that failed may have been carried out.
  pub update_failed :
      (p : D → Bool) (f : D → D) (s : State) (text : Str)
      → (update p f s).0 ≡ failed text
      → (docs (update p f s).1 ≡ docs s) ⊎ (docs (update p f s).1 ≡ modify p f (docs s))
  pub insert_ok :
      (d : D) (s : State) → (insert d s).0 ≡ ok tt → docs (insert d s).1 ≡ docs s ++ d ∷ []
  pub insert_other :
      (d : D) (s : State)
      → (docs (insert d s).1 ≡ docs s) ⊎ (docs (insert d s).1 ≡ docs s ++ d ∷ [])
  pub remove_ok :
      (p : D → Bool) (s : State)
      → (remove p s).0 ≡ ok tt
      → (docs (remove p s).1 ≡ remove_first p (docs s)) × (any p (docs s) ≡ true)
  pub remove_not_found :
      (p : D → Bool) (s : State)
      → (remove p s).0 ≡ not_found
      → (docs (remove p s).1 ≡ docs s) × (find p (docs s) ≡ none)
  pub remove_failed :
      (p : D → Bool) (s : State) (text : Str)
      → (remove p s).0 ≡ failed text
      → (docs (remove p s).1 ≡ docs s) ⊎ (docs (remove p s).1 ≡ remove_first p (docs s))
  -- A removal of all matches may break off, and is no error where nothing matches.
  pub remove_all_ok :
      (p : D → Bool) (s : State)
      → (remove_all p s).0 ≡ ok tt
      → docs (remove_all p s).1 ≡ drop_all p (docs s)
  pub remove_all_read :
      (p : D → Bool) (s : State)
      → (n : ℕ) × (docs (remove_all p s).1 ≡ drop_all p (take n (docs s)) ++ drop n (docs s))
  -- An update of all matches may break off, and is no error where nothing matches.
  pub update_all_ok :
      (p : D → Bool) (f : D → D) (s : State)
      → (update_all p f s).0 ≡ ok tt
      → docs (update_all p f s).1 ≡ modify_all p f (docs s)
  pub update_all_read :
      (p : D → Bool) (f : D → D) (s : State)
      → (n : ℕ) × (docs (update_all p f s).1 ≡ modify_all p f (take n (docs s)) ++ drop n (docs s))
  pub upsert_ok :
      (p : D → Bool) (f : D → D) (d : D) (s : State)
      → (upsert p f d s).0 ≡ ok tt
      → docs (upsert p f d s).1 ≡ modify_or_add p f d (docs s)
  pub upsert_other :
      (p : D → Bool) (f : D → D) (d : D) (s : State)
      → (docs (upsert p f d s).1 ≡ docs s)
        ⊎ (docs (upsert p f d s).1 ≡ modify_or_add p f d (docs s))

module _ {D : Type 0} (P : D → Type 0) where
  pub modify-All :
      (p : D → Bool) (f : D → D) (ds : List D)
      → ((d : D) → p d ≡ true → P d → P (f d))
      → All P ds
      → All P (modify p f ds)
  unfolding modify
  modify-All p f [] step h = tt
  modify-All p f (x ∷ xs) step (q, h) = ground (arith, step x, modify-All p f xs step h)

  -- A change of the first match, which a search has read.
  pub modify_found-All :
      (p : D → Bool) (f : D → D) (ds : List D) (d : D)
      → find p ds ≡ some d
      → (P d → P (f d))
      → All P ds
      → All P (modify p f ds)
  unfolding modify
  modify_found-All p f [] d e step h = tt
  modify_found-All p f (x ∷ xs) d e step (q, h) = elim (Bool-cases (p x)) [
    | inl at_x ↦ rw at_x (changed_head (ground (arith, at_x)), h)
    | inr past_x ↦ rw past_x (q, modify_found-All p f xs d (ground (arith, past_x)) step h)
  ]
    where
      changed_head : d ≡ x → P (f x)
      changed_head same = subst (λ y. P (f y)) same (step (subst P (sym same) q))

module _ {D : Type 0} (c : Collection D) where
  open c use {State, docs, update, update_ok, update_not_found, update_failed}

  -- What an update makes of the documents: nothing, or the change of the first match.
  pub update-cases :
      (p : D → Bool) (f : D → D) (s : State)
      → (docs (update p f s).1 ≡ docs s) ⊎ (docs (update p f s).1 ≡ modify p f (docs s))
  update-cases p f s = answered ((update p f s).0) refl
    where
      answered :
          (a : Answer (Unit {0}))
          → (update p f s).0 ≡ a
          → (docs (update p f s).1 ≡ docs s) ⊎ (docs (update p f s).1 ≡ modify p f (docs s))
      answered (ok u) e = inr (update_ok p f s e)
      answered not_found e = inl (update_not_found p f s e).0
      answered (failed text) e = update_failed p f s text e

  -- A property of all documents that the change respects survives the update, however it ends.
  pub update-All :
      (P : D → Type 0) (p : D → Bool) (f : D → D) (s : State)
      → ((d : D) → p d ≡ true → P d → P (f d))
      → All P (docs s)
      → All P (docs (update p f s).1)
  update-All P p f s step h = elim (update-cases p f s) [
    | inl same ↦ rw same h
    | inr changed ↦ rw changed (modify-All P p f (docs s) step h)
  ]
