-- ===== src/Contracts/Owners.antt =====
-- Who owns a contract: `FetchContractOwners`, `fetchMultisig` and `findContractOwners`.
use multy_back.Prelude.{
  ℕ, Bool, ◌&&◌, Option, none, some, List, [], ◌∷◌, ◌++◌, ◌==◌, any, find, if◌then◌else◌, Str,
  str_eq, to_lower,
}
use multy_back.Store.Schemas.{User, Multisig, AddressExtended, OwnerHistory, empty_multisig}
use multy_back.Store.Collection.{Answer, ok, not_found, failed, Collection}

unfoldable pub is_contract : Str → Multisig → Bool
is_contract a m = str_eq m.contract_address a

-- `multisig.contractAddress`
unfoldable pub has_contract : Str → User → Bool
unfolding is_contract
has_contract a u = any (is_contract a) u.multisigs

-- An owner of whom nothing but the address is known.
abbrev pub new_owner : Str → OwnerHistory
new_owner a = record {
  address = a;
  confirmation_tx = [];
  confirmation_status = 0;
  confirmation_time = 0;
  seen_time = 0;
}

unfoldable pub owner_histories : List AddressExtended → List OwnerHistory
owner_histories [] = []
owner_histories (o ∷ os) = new_owner o.address ∷ owner_histories os

unfoldable pub contract_owners_in : ℕ → ℕ → Str → List Multisig → List OwnerHistory
unfolding owner_histories is_contract
contract_owners_in currency network a [] = []
contract_owners_in currency network a (m ∷ ms) =
    (if m.currency_id == currency && m.network_id == network && is_contract a m
      then owner_histories m.owners
      else [])
    ++ contract_owners_in currency network a ms

-- The multisigs of the user that was read; where none was, Go's zero value has none.
abbrev pub multisigs_read : Answer User → List Multisig
multisigs_read (ok u) = u.multisigs
multisigs_read not_found = []
multisigs_read (failed why) = []

abbrev pub contract_or_empty : Option Multisig → Multisig
contract_or_empty none = empty_multisig
contract_or_empty (some m) = m

-- `fetchMultisig`, whose error is logged: the first user's, or an empty one.
unfoldable pub fetch_multisig : List User → Str → Multisig
unfolding is_contract
fetch_multisig [] a = empty_multisig
fetch_multisig (u ∷ us) a = contract_or_empty (find (is_contract a) u.multisigs)

module _ (c : Collection User) where
  unfoldable pub fetch_contract_owners : ℕ → ℕ → Str → c.State → List OwnerHistory
  unfolding contract_owners_in
  fetch_contract_owners currency network a s =
      contract_owners_in currency network a (multisigs_read (c.find_one (has_contract a) s))

  -- What has been read before an error counts.
  unfoldable pub find_contract_owners : Str → c.State → List User
  find_contract_owners a s = (c.find_all (has_contract (to_lower a)) s).0
