-- ===== src/Socket/Capped.antt =====
-- No multisig ever has more owners than it was created for: the operations of the store.
pub mod Owners
pub mod Handlers
use multy_back.Prelude.{
  ℕ, suc, ◌+◌, ◌^◌, ◌≤◌, ◌<◌, ◌≡◌, refl, sym, ap, ◌∙◌, Bool, true, false, not, ◌&&◌, Option, none,
  some, List, [], ◌∷◌, ◌++◌, arith, length, length-append, length-map, map, any, find, keep_if, All,
  All-append, All-take, All-imp, find-All, keep_if-All, find-test, keep_if-test, any-find-some,
  str_eq, str_eq_iff, i64_gt, Str, if◌then◌else◌, Bool-cases, inl, inr, subst,
}
use multy_back.Store.Schemas.{User, Multisig, AddressExtended}
use multy_back.Store.Collection.{
  Answer, ok, not_found, failed, Collection, modify, modify-All, update-All,
}
use multy_back.Store.Multisigs.{
  is_user, is_invite, has_invite, has_address, other_multisigs, first_multisig, find_multisig,
  join_multisig, set_others, leave_multisig, kick_multisig, delete_loop, delete_multisig,
  update_multisig_owners, check_invite_code,
}

-- The owners fit, and the multisigs of one invite code are for one number of owners, `cap`.
pub record IsCappedMultisig (cap : Str → ℕ) (m : Multisig) : Type 0 where
  pub fits : length m.owners ≤ m.owners_count
  pub agreed : m.owners_count ≡ cap m.invite_code
  pub counted : m.owners_count < 2 ^ 63

abbrev pub IsCapped : (Str → ℕ) → User → Type 0
IsCapped cap u = All (IsCappedMultisig cap) u.multisigs

module _ (cap : Str → ℕ) (c : Collection User) where
  -- Every multisig of every user.
  abbrev pub AllCapped : c.State → Type 0
  AllCapped s = All (IsCapped cap) (c.docs s)

  pub join_multisig-AllCapped :
      (id : Str) (m : Multisig) (s : c.State)
      → IsCappedMultisig cap m
      → AllCapped s
      → AllCapped (join_multisig c id m s).1
  unfolding join_multisig
  join_multisig-AllCapped id m s h all =
      update-All c (IsCapped cap) (is_user id) _ s
        (λ u _ q. All-append (IsCappedMultisig cap) u.multisigs (m ∷ []) q (h, tt)) all

  set_others-AllCapped :
      (sel : User → Bool) (code : Str) (a : Answer User) (s : c.State)
      → ((u : User) → a ≡ ok u → IsCapped cap u)
      → AllCapped s
      → AllCapped (set_others c sel code a s).1
  unfolding set_others other_multisigs
  set_others-AllCapped sel code (ok user) s read all =
      update-All c (IsCapped cap) sel _ s
        (λ u _ q. keep_if-All (IsCappedMultisig cap) _ user.multisigs (read user refl)) all
  set_others-AllCapped sel code not_found s read all = all
  set_others-AllCapped sel code (failed why) s read all = all

  -- What is read from the collection is capped.
  find_one-IsCapped :
      (p : User → Bool) (s : c.State)
      → AllCapped s
      → (u : User) → c.find_one p s ≡ ok u
      → IsCapped cap u
  find_one-IsCapped p s all u e = find-All (IsCapped cap) p (c.docs s) u all (c.find_one_ok p s u e)

  pub leave_multisig-AllCapped :
      (id code : Str) (s : c.State) → AllCapped s → AllCapped (leave_multisig c id code s).1
  unfolding leave_multisig
  leave_multisig-AllCapped id code s all =
      set_others-AllCapped (is_user id) code _ s (find_one-IsCapped (is_user id) s all) all

  pub kick_multisig-AllCapped :
      (a code : Str) (s : c.State) → AllCapped s → AllCapped (kick_multisig c a code s).1
  unfolding kick_multisig
  kick_multisig-AllCapped a code s all =
      set_others-AllCapped (has_address a) code _ s (find_one-IsCapped (has_address a) s all) all

  -- So is every user that a search returns, also one that breaks off.
  find_all-IsCapped :
      (p : User → Bool) (s : c.State) → AllCapped s → All (IsCapped cap) (c.find_all p s).0
  find_all-IsCapped p s all =
      let (n, e) = c.find_all_read p s in
      rw e (All-take (IsCapped cap) n _ (keep_if-All (IsCapped cap) p (c.docs s) all))

  delete_loop-AllCapped :
      (code : Str) (users : List User) (a : Answer (Unit {0})) (s : c.State)
      → All (IsCapped cap) users
      → AllCapped s
      → AllCapped (delete_loop c code users (a, s)).1
  unfolding delete_loop other_multisigs
  delete_loop-AllCapped code [] a s capped all = all
  delete_loop-AllCapped code (user ∷ users) a s (q, capped) all =
      delete_loop-AllCapped code users _ _ capped (
        update-All c (IsCapped cap) (is_user user.user_id) _ s
          (λ u _ r. keep_if-All (IsCappedMultisig cap) _ user.multisigs q) all)

  pub delete_multisig-AllCapped :
      (code : Str) (s : c.State) → AllCapped s → AllCapped (delete_multisig c code s).1
  unfolding delete_multisig
  delete_multisig-AllCapped code s all =
      delete_loop-AllCapped code _ (ok tt) s (find_all-IsCapped (has_invite code) s all) all

  -- New owners for the multisigs of a code, no more of them than the code is for.
  pub update_multisig_owners-AllCapped :
      (id code : Str) (owners : List AddressExtended) (status : ℕ) (s : c.State)
      → length owners ≤ cap code
      → AllCapped s
      → AllCapped (update_multisig_owners c id code owners status s).1
  unfolding update_multisig_owners is_invite
  update_multisig_owners-AllCapped id code owners status s few all =
      update-All c (IsCapped cap) _ _ s
        (λ u _ q.
          modify-All (IsCappedMultisig cap) (is_invite code) _ u.multisigs
            (λ m at_code h. replaced m at_code h) q)
        all
    where
      replaced :
          (m : Multisig)
          → str_eq m.invite_code code ≡ true
          → IsCappedMultisig cap m
          → IsCappedMultisig cap (record m { owners = owners; deploy_status = status })
      replaced m at_code h =
          let e : m.invite_code ≡ code = (str_eq_iff m.invite_code code).0 at_code in
          omega (arith, ap cap e, few)

  find_all-has_invite :
      (code : Str) (s : c.State)
      → All (λ u. has_invite code u ≡ true) (c.find_all (has_invite code) s).0
  find_all-has_invite code s =
      let (n, e) = c.find_all_read (has_invite code) s in
      rw e
        (All-take (λ u. has_invite code u ≡ true) n _ (keep_if-test (has_invite code) (c.docs s)))

  first_multisig-IsCapped :
      (code : Str) (r : List User × Bool) (m : Multisig)
      → All (IsCapped cap) r.0
      → All (λ u. has_invite code u ≡ true) r.0
      → first_multisig code r ≡ some m
      → IsCappedMultisig cap m × (m.invite_code ≡ code)
  unfolding first_multisig has_invite is_invite
  first_multisig-IsCapped code (users, false) m all have e = absurd (cc)
  first_multisig-IsCapped code ([], true) m all have e = absurd (cc)
  first_multisig-IsCapped code (u ∷ users, true) m (q, all) (has, have) e =
      let at_code : Multisig → Bool = λ x. str_eq x.invite_code code in
      let (x, found) = any-find-some at_code u.multisigs has in
      let same : x ≡ m = ground (arith, found) in
      subst (λ t. IsCappedMultisig cap t × (t.invite_code ≡ code)) same
        (
          find-All (IsCappedMultisig cap) at_code u.multisigs x q found,
          (str_eq_iff x.invite_code code).0 (find-test at_code u.multisigs x found),
        )

  -- The multisig that `FindMultisig` returns for a code.
  pub find_multisig-IsCapped :
      (code : Str) (s : c.State) (m : Multisig)
      → AllCapped s
      → find_multisig c code s ≡ some m
      → IsCappedMultisig cap m × (m.invite_code ≡ code)
  unfolding find_multisig
  find_multisig-IsCapped code s m all e =
      first_multisig-IsCapped code _ m (find_all-IsCapped (has_invite code) s all)
        (find_all-has_invite code s) e
