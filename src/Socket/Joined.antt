-- ===== src/Socket/Joined.antt =====
-- What the announcement of a join leaves in the documents.
use multy_back.Prelude.{
  ℕ, ◌≡◌, refl, ap, ◌∙◌, true, false, List, [], ◌∷◌, any, arith, map, find, Str, str_eq_iff,
}
use multy_back.Store.Schemas.{User, Multisig}
use multy_back.Store.Collection.{Collection}
use multy_back.Store.Pointwise.{modify-blind, update-blind, find-update_other}
use multy_back.Store.Multisigs.{is_user, is_invite, update_multisig_owners}
use multy_back.Socket.Messages.{Scene, Payload}
use multy_back.Socket.Owners.{user_owners, update_user_owners, announce}

-- A multisig without what an announcement writes, and a user with such multisigs.
abbrev pub bare : Multisig → Multisig
bare m = record m { owners = []; deploy_status = 0 }

abbrev pub bare_user : User → User
bare_user u = record u { multisigs = map bare u.multisigs }

module _ (c : Collection User) (e : Scene) where
  update_user_owners-bare :
      (user : User) (m : Multisig) (status : ℕ) (s : c.State)
      → map bare_user (c.docs (update_user_owners c e user m status s).1) ≡ map bare_user (c.docs s)
  unfolding update_user_owners update_multisig_owners
  update_user_owners-bare user m status s = update-blind c bare_user _ _ s (λ u.
      ap (λ ms. record u { multisigs = ms })
        (modify-blind bare (is_invite m.invite_code)
          (λ x. record x { owners = user_owners e user m; deploy_status = status }) u.multisigs
          (λ x. refl)))

  pub announce-bare :
      (kind : ℕ) (payload : Payload) (m : Multisig) (status : ℕ) (users : List User) (s : c.State)
      → map bare_user (c.docs (announce c e kind payload m status users s).1)
        ≡ map bare_user (c.docs s)
  unfolding announce
  announce-bare kind payload m status [] s = refl
  announce-bare kind payload m status (user ∷ users) s =
      announce-bare kind payload m status users (update_user_owners c e user m status s).1
      ∙ update_user_owners-bare user m status s

  other_user :
      (id : Str) (user u : User)
      → is_user id user ≡ false
      → is_user user.user_id u ≡ true
      → is_user id u ≡ false
  unfolding is_user
  other_user id user u other same = ground (arith, (str_eq_iff u.user_id user.user_id).0 same)

  update_user_owners-find :
      (id : Str) (user : User) (m : Multisig) (status : ℕ) (s : c.State)
      → is_user id user ≡ false
      → find (is_user id) (c.docs (update_user_owners c e user m status s).1)
        ≡ find (is_user id) (c.docs s)
  unfolding update_user_owners update_multisig_owners is_user
  update_user_owners-find id user m status s other =
      find-update_other c (is_user id) _ _ s (λ u e'. other_user id user u other (ground arith))
        (λ u. refl)

  -- The document of a user who is not among those told is found as it was.
  pub announce-find :
      (id : Str) (kind : ℕ) (payload : Payload) (m : Multisig) (status : ℕ) (users : List User)
      (s : c.State)
      → any (is_user id) users ≡ false
      → find (is_user id) (c.docs (announce c e kind payload m status users s).1)
        ≡ find (is_user id) (c.docs s)
  unfolding announce
  announce-find id kind payload m status [] s none_told = refl
  announce-find id kind payload m status (user ∷ users) s none_told =
      announce-find id kind payload m status users (update_user_owners c e user m status s).1
        (ground arith)
      ∙ update_user_owners-find id user m status s (ground arith)
