-- ===== src/Store/Multisigs.antt =====
-- The multisig operations of store/store.go on `usersData`.
use multy_back.Prelude.{
  ℕ, Bool, true, false, not, ◌&&◌, Option, none, some, List, [], ◌∷◌, ◌++◌, ◌==◌, if◌then◌else◌,
  any, find, keep_if, Str, str_eq,
}
use multy_back.Store.Schemas.{
  Address, Wallet, Multisig, User, AddressExtended, InviteCodeInfo, empty_multisig, no_info,
}
use multy_back.Store.Collection.{Answer, ok, not_found, failed, Collection, modify}

-- The selectors: `userID`, `multisig.inviteCode` and `wallets.addresses.address`.
unfoldable pub is_user : Str → User → Bool
is_user id u = str_eq u.user_id id

unfoldable pub is_invite : Str → Multisig → Bool
is_invite code m = str_eq m.invite_code code

unfoldable pub has_invite : Str → User → Bool
has_invite code u = any (is_invite code) u.multisigs

unfoldable pub has_address : Str → User → Bool
has_address a u =
    any (λ (w : Wallet). any (λ (x : Address). str_eq x.address a) w.addresses) u.wallets

-- The multisigs of a user without those of an invite code, as three of the operations rebuild them.
unfoldable pub other_multisigs : Str → List Multisig → List Multisig
other_multisigs code = keep_if (λ m. not (is_invite code m))

-- The loops that go over all of a user's multisigs and keep the last that fits.
unfoldable pub last_info : Str → List Multisig → InviteCodeInfo → InviteCodeInfo
last_info code [] info = info
last_info code (m ∷ ms) info = last_info code ms (
    if is_invite code m
    then record { currency_id = m.currency_id; network_id = m.network_id; exists_code = true }
    else info)

abbrev multisigs_of : Answer User → List Multisig
multisigs_of (ok u) = u.multisigs
multisigs_of not_found = []
multisigs_of (failed text) = []

-- `&multisig` where none of the first user's multisigs fits.
abbrev multisig_or_empty : Option Multisig → Multisig
multisig_or_empty none = empty_multisig
multisig_or_empty (some m) = m

-- The first user's multisig with the code; `none` is the error of an unknown code.
unfoldable pub first_multisig : Str → List User × Bool → Option Multisig
first_multisig code (users, false) = none
first_multisig code ([], true) = none
first_multisig code (u ∷ users, true) = some (multisig_or_empty (find (is_invite code) u.multisigs))

module _ (c : Collection User) where
  open c use {State, find_one, find_all, update}

  -- `FindMultisig`
  unfoldable pub find_multisig : Str → State → Option Multisig
  find_multisig code s = first_multisig code (find_all (has_invite code) s)

  -- `JoinMultisig`: `$push`
  unfoldable pub join_multisig : Str → Multisig → State → Answer (Unit {0}) × State
  join_multisig id m = update (is_user id) (λ u. record u { multisigs = u.multisigs ++ m ∷ [] })

  -- The rest of both, from the answer of the read on.
  unfoldable pub set_others : (User → Bool) → Str → Answer User → State → Answer (Unit {0}) × State
  set_others sel code (ok user) s =
      update sel (λ u. record u { multisigs = other_multisigs code user.multisigs }) s
  set_others sel code not_found s = (not_found, s)
  set_others sel code (failed text) s = (failed text, s)

  -- `LeaveMultisig`, by user.
  unfoldable pub leave_multisig : Str → Str → State → Answer (Unit {0}) × State
  unfolding set_others
  leave_multisig id code s = set_others (is_user id) code (find_one (is_user id) s) s

  -- `KickMultisig`, by an address of the user's wallets.
  unfoldable pub kick_multisig : Str → Str → State → Answer (Unit {0}) × State
  unfolding set_others
  kick_multisig a code s = set_others (has_address a) code (find_one (has_address a) s) s

  -- The loop of `DeleteMultisig`, which keeps the last error only.
  unfoldable pub delete_loop :
      Str → List User → Answer (Unit {0}) × State → Answer (Unit {0}) × State
  delete_loop code [] r = r
  delete_loop code (user ∷ users) (err, s) = delete_loop code users (
      update (is_user user.user_id)
        (λ u. record u { multisigs = other_multisigs code user.multisigs }) s)

  unfoldable pub delete_multisig : Str → State → Answer (Unit {0}) × State
  delete_multisig code s = delete_loop code (find_all (has_invite code) s).0 (ok tt, s)

  abbrev is_not_found : Answer User → Bool
  is_not_found (ok u) = false
  is_not_found not_found = true
  is_not_found (failed text) = false

  -- `CheckInviteCode`: that no user has it.
  unfoldable pub check_invite_code : Str → State → Bool
  check_invite_code code s = is_not_found (find_one (has_invite code) s)

  unfoldable pub invite_code_info : Str → State → InviteCodeInfo
  invite_code_info code s = last_info code (multisigs_of (find_one (has_invite code) s)) no_info

  unfoldable pub check_multisig_currency : Str → ℕ → ℕ → State → Bool
  check_multisig_currency code currency_id network_id s =
      let info = invite_code_info code s in
      info.exists_code && info.network_id == network_id && info.currency_id == currency_id

  unfoldable pub is_related_address : Str → Str → State → Bool
  is_related_address id a s = not (is_not_found (find_one (λ u. is_user id u && has_address a u) s))

  -- `FindMultisigUsers`, which ignores the error.
  unfoldable pub find_multisig_users : Str → State → List User
  find_multisig_users code s = (find_all (has_invite code) s).0

  -- `UpdateMultisigOwners`: `$` is the first of the user's multisigs with the code.
  unfoldable pub update_multisig_owners :
      Str → Str → List AddressExtended → ℕ → State → Answer (Unit {0}) × State
  update_multisig_owners id code owners deploy_status =
      update (λ u. is_user id u && has_invite code u)
        (λ u. record u {
          multisigs =
              modify (is_invite code)
                (λ m. record m { owners = owners; deploy_status = deploy_status }) u.multisigs;
        })
