-- ===== src/Store/Memory.antt =====
-- The collection in memory, whose every call succeeds: what the driver's record asks for can be had.
use multy_back.Prelude.{
  ◌≡◌, refl, Bool, true, Option, none, some, List, [], ◌∷◌, ◌++◌, ◌⊎◌, inr, if◌then◌else◌, find,
  keep_if, Str, arith, any, any-find, take, take_all, drop, sym, ap, length,
}
use multy_back.Store.Collection.{
  Answer, ok, not_found, failed, modify, remove_first, drop_all, modify_all, modify_or_add,
  Collection,
}

unfoldable pub found : {D : Type 0} → Option D → Answer D
found none = not_found
found (some d) = ok d

unfoldable pub memory_update :
    {D : Type 0} → (D → Bool) → (D → D) → List D → Answer (Unit {0}) × List D
memory_update p f ds = if any p ds then (ok tt, modify p f ds) else (not_found, ds)

unfoldable pub memory_remove : {D : Type 0} → (D → Bool) → List D → Answer (Unit {0}) × List D
memory_remove p ds = if any p ds then (ok tt, remove_first p ds) else (not_found, ds)

module _ {D : Type 0} where
  pub found_ok : (o : Option D) (d : D) → found o ≡ ok d → o ≡ some d
  unfolding found
  found_ok none d e = cc
  found_ok (some x) d e = cc

  pub found_not_found : (o : Option D) → found o ≡ not_found → o ≡ none
  unfolding found
  found_not_found none e = refl
  found_not_found (some x) e = cc

  pub memory_ok :
      (p : D → Bool) (f : D → D) (s : List D)
      → (memory_update p f s).0 ≡ ok tt
      → (memory_update p f s).1 ≡ modify p f s
  unfolding memory_update
  memory_ok p f s e = ground arith

  pub memory_found :
      (p : D → Bool) (f : D → D) (s : List D) → (memory_update p f s).0 ≡ ok tt → any p s ≡ true
  unfolding memory_update
  memory_found p f s e = ground arith

  pub memory_not_found :
      (p : D → Bool) (f : D → D) (s : List D)
      → (memory_update p f s).0 ≡ not_found
      → ((memory_update p f s).1 ≡ s) × (find p s ≡ none)
  unfolding memory_update
  memory_not_found p f s e = ground (arith, any-find p s)

  pub memory_failed :
      (p : D → Bool) (f : D → D) (s : List D) (text : Str)
      → (memory_update p f s).0 ≡ failed text
      → ((memory_update p f s).1 ≡ s) ⊎ ((memory_update p f s).1 ≡ modify p f s)
  unfolding memory_update
  memory_failed p f s text e = ground arith

  pub memory_remove_ok :
      (p : D → Bool) (s : List D)
      → (memory_remove p s).0 ≡ ok tt
      → ((memory_remove p s).1 ≡ remove_first p s) × (any p s ≡ true)
  unfolding memory_remove
  memory_remove_ok p s e = ground arith

  pub memory_remove_not_found :
      (p : D → Bool) (s : List D)
      → (memory_remove p s).0 ≡ not_found
      → ((memory_remove p s).1 ≡ s) × (find p s ≡ none)
  unfolding memory_remove
  memory_remove_not_found p s e = ground (arith, any-find p s)

  pub memory_remove_failed :
      (p : D → Bool) (s : List D) (text : Str)
      → (memory_remove p s).0 ≡ failed text
      → ((memory_remove p s).1 ≡ s) ⊎ ((memory_remove p s).1 ≡ remove_first p s)
  unfolding memory_remove
  memory_remove_failed p s text e = ground arith

  pub modify_all_read :
      (p : D → Bool) (f : D → D) (s : List D)
      → modify_all p f s ≡ modify_all p f (take (length s) s) ++ drop (length s) s
  unfolding modify_all
  modify_all_read p f [] = refl
  modify_all_read p f (d ∷ s) = ap (λ t. (if p d then f d else d) ∷ t) (modify_all_read p f s)

  pub drop_all_read :
      (p : D → Bool) (s : List D)
      → drop_all p s ≡ drop_all p (take (length s) s) ++ drop (length s) s
  unfolding drop_all
  drop_all_read p [] = refl
  drop_all_read p (d ∷ s) = ground (arith, drop_all_read p s)

abbrev pub memory : (D : Type 0) → Collection D
memory D = record {
  State = List D;
  docs = λ s. s;
  find_one = λ p s. found (find p s);
  find_all = λ p s. (keep_if p s, true);
  update = memory_update;
  insert = λ d s. (ok tt, s ++ d ∷ []);
  remove = memory_remove;
  remove_all = λ p s. (ok tt, drop_all p s);
  remove_all_ok = λ p s e. refl;
  remove_all_read = λ p s. (length s, drop_all_read p s);
  update_all = λ p f s. (ok tt, modify_all p f s);
  upsert = λ p f d s. (ok tt, modify_or_add p f d s);
  remove_ok = memory_remove_ok;
  remove_not_found = memory_remove_not_found;
  remove_failed = memory_remove_failed;
  update_all_ok = λ p f s e. refl;
  update_all_read = λ p f s. (length s, modify_all_read p f s);
  upsert_ok = λ p f d s e. refl;
  upsert_other = λ p f d s. inr refl;
  insert_ok = λ d s e. refl;
  insert_other = λ d s. inr refl;
  find_one_ok = λ p s d e. found_ok (find p s) d e;
  find_one_not_found = λ p s e. found_not_found (find p s) e;
  find_all_read = λ p s. (length (keep_if p s), sym (take_all (keep_if p s)));
  find_all_ok = λ p s e. refl;
  update_ok = memory_ok;
  update_found = memory_found;
  update_not_found = memory_not_found;
  update_failed = memory_failed;
}
