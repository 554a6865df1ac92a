-- ===== src/Store/Deletion.antt =====
-- `DeleteMultisig` takes a multisig from every user, where the database does not fail.
use multy_back.Prelude.{
  ◌≡◌, ◌≢◌, refl, sym, Bool, true, false, List, [], ◌∷◌, none, arith, any, find, keep_if, All,
  All-imp, Str, str_eq, str_eq_iff, str_eq_refl, Bool-cases, inl, inr, subst, ◌∙◌,
}
use multy_back.Store.Schemas.{User, Multisig}
use multy_back.Store.Collection.{Answer, ok, not_found, failed, Collection, modify}
use multy_back.Store.Multisigs.{
  is_user, is_invite, has_invite, other_multisigs, delete_loop, delete_multisig,
}

-- No two documents are of one user.
abbrev pub IsUnique : List User → Type 0
IsUnique [] = Unit
IsUnique (u ∷ us) = All (λ v. str_eq v.user_id u.user_id ≡ false) us × IsUnique us

-- No update fails, and no search breaks off.
pub record IsReliable (c : Collection User) : Type 0 where
  pub no_failure :
      (p : User → Bool) (f : User → User) (s : c.State) (text : Str)
      → (c.update p f s).0 ≢ failed text
  pub all_read : (p : User → Bool) (s : c.State) → (c.find_all p s).1 ≡ true

-- A user who has the code is still to be visited.
abbrev IsPending : Str → List User → User → Type 0
IsPending code users v =
    has_invite code v ≡ true → any (λ (u : User). str_eq u.user_id v.user_id) users ≡ true

-- What the loop writes over a user's multisigs.
abbrev rewritten : Str → User → User → User
rewritten code user u = record u { multisigs = other_multisigs code user.multisigs }

any-other_multisigs :
    (code : Str) (ms : List Multisig) → any (is_invite code) (other_multisigs code ms) ≡ false
unfolding other_multisigs
any-other_multisigs code [] = refl
any-other_multisigs code (m ∷ ms) = ground (arith, any-other_multisigs code ms)

module _ (code : Str) (user : User) (users : List User) where
  -- A document of another user stays pending without this one.
  IsPending-other :
      (v : User)
      → str_eq v.user_id user.user_id ≡ false
      → IsPending code (user ∷ users) v
      → IsPending code users v
  IsPending-other v other h has =
      ground (arith, h has, str_eq_iff v.user_id user.user_id, str_eq_iff user.user_id v.user_id)

  IsPending-rewritten : (v : User) → IsPending code users (rewritten code user v)
  unfolding has_invite
  IsPending-rewritten v has = cc (has, any-other_multisigs code user.multisigs)

  others :
      (d : User) (vs : List User)
      → str_eq d.user_id user.user_id ≡ true
      → All (λ v. str_eq v.user_id d.user_id ≡ false) vs
      → All (IsPending code (user ∷ users)) vs
      → All (IsPending code users) vs
  others d [] same fresh h = tt
  others d (v ∷ vs) same (new, fresh) (q, h) = (
    IsPending-other v
        (ground (
          arith,
          str_eq_iff v.user_id user.user_id,
          str_eq_iff v.user_id d.user_id,
          str_eq_iff d.user_id user.user_id,
        ))
        q,
    others d vs same fresh h,
  )

  modify-IsPending :
      (ds : List User)
      → IsUnique ds
      → All (IsPending code (user ∷ users)) ds
      → All (IsPending code users) (modify (is_user user.user_id) (rewritten code user) ds)
  unfolding modify is_user
  modify-IsPending [] unique h = tt
  modify-IsPending (d ∷ ds) (fresh, unique) (q, h) =
      elim (Bool-cases (str_eq d.user_id user.user_id)) [
        | inl same ↦ rw same (IsPending-rewritten d, others d ds same fresh h)
        | inr other ↦ rw other (IsPending-other d other q, modify-IsPending ds unique h)
      ]

  modify-fresh :
      (id : Str) (ds : List User)
      → All (λ v. str_eq v.user_id id ≡ false) ds
      → All
          (λ v. str_eq v.user_id id ≡ false)
          (modify (is_user user.user_id) (rewritten code user) ds)
  unfolding modify
  modify-fresh id [] h = tt
  modify-fresh id (d ∷ ds) (q, h) = ground (arith, modify-fresh id ds h)

  modify-IsUnique :
      (ds : List User)
      → IsUnique ds
      → IsUnique (modify (is_user user.user_id) (rewritten code user) ds)
  unfolding modify
  modify-IsUnique [] h = tt
  modify-IsUnique (d ∷ ds) (fresh, h) =
      ground (arith, modify-IsUnique ds h, modify-fresh d.user_id ds fresh)

modify_absent :
    (p : User → Bool) (f : User → User) (ds : List User) → find p ds ≡ none → modify p f ds ≡ ds
unfolding modify
modify_absent p f [] e = refl
modify_absent p f (d ∷ ds) e = ground (arith, modify_absent p f ds)

module _ (c : Collection User) (reliable : IsReliable c) where
  -- Without failures an update is the change of the first match, if there is one.
  pub update-modify :
      (p : User → Bool) (f : User → User) (s : c.State)
      → c.docs (c.update p f s).1 ≡ modify p f (c.docs s)
  update-modify p f s = answered (c.update p f s).0 refl
    where
      answered :
          (a : Answer (Unit {0}))
          → (c.update p f s).0 ≡ a
          → c.docs (c.update p f s).1 ≡ modify p f (c.docs s)
      answered (ok u) e = c.update_ok p f s e
      answered not_found e =
          let (same, absent) = c.update_not_found p f s e in
          same ∙ sym (modify_absent p f (c.docs s) absent)
      answered (failed text) e = absurd (reliable.no_failure p f s text e)

  delete_loop-gone :
      (code : Str) (users : List User) (a : Answer (Unit {0})) (s : c.State)
      → IsUnique (c.docs s)
      → All (IsPending code users) (c.docs s)
      → All (IsPending code []) (c.docs (delete_loop c code users (a, s)).1)
  unfolding delete_loop
  delete_loop-gone code [] a s unique h = h
  delete_loop-gone code (user ∷ users) a s unique h =
      let written = update-modify (is_user user.user_id) (rewritten code user) s in
      delete_loop-gone code users _ _
        (subst IsUnique (sym written) (modify-IsUnique code user users (c.docs s) unique))
        (subst (All (IsPending code users)) (sym written)
          (modify-IsPending code user users (c.docs s) unique h))

  keep_if-IsPending :
      (code : Str) (ds : List User) → All (IsPending code (keep_if (has_invite code) ds)) ds
  keep_if-IsPending code [] = tt
  keep_if-IsPending code (d ∷ ds) = (
    λ has. first_pending has,
    All-imp {Q = IsPending code (keep_if (has_invite code) (d ∷ ds))}
        (λ (v : User) (h : IsPending code (keep_if (has_invite code) ds) v) has. later v (h has)) ds
        (keep_if-IsPending code ds),
  )
    where
      first_pending :
          has_invite code d ≡ true
          → any (λ (u : User). str_eq u.user_id d.user_id) (keep_if (has_invite code) (d ∷ ds))
            ≡ true
      first_pending has = ground (arith, str_eq_refl d.user_id)

      later :
          (v : User)
          → any (λ (u : User). str_eq u.user_id v.user_id) (keep_if (has_invite code) ds) ≡ true
          → any (λ (u : User). str_eq u.user_id v.user_id) (keep_if (has_invite code) (d ∷ ds))
            ≡ true
      later v h = ground arith

  -- Where users are unique and the database does not fail, no user has the multisig after
  -- `DeleteMultisig`.
  pub delete_multisig_gone :
      (code : Str) (s : c.State)
      → IsUnique (c.docs s)
      → All (λ v. has_invite code v ≡ false) (c.docs (delete_multisig c code s).1)
  unfolding delete_multisig
  delete_multisig_gone code s unique =
      let read : (c.find_all (has_invite code) s).0 ≡ keep_if (has_invite code) (c.docs s) =
        c.find_all_ok (has_invite code) s (reliable.all_read (has_invite code) s) in
      rw read (
        All-imp (λ v h. settled v h) _
          (delete_loop-gone code (keep_if (has_invite code) (c.docs s)) (ok tt) s unique
            (keep_if-IsPending code (c.docs s))))
    where
      settled : (v : User) → IsPending code [] v → has_invite code v ≡ false
      settled v h = ground (arith, h)
