-- ===== src/Socket/Owners.antt =====
-- `updateUserOwners` and the loops that announce a changed multisig.
use multy_back.Prelude.{ℕ, true, false, Option, none, some, List, [], ◌∷◌, find, if◌then◌else◌}
use multy_back.Store.Schemas.{Address, Wallet, AddressExtended, Multisig, User}
use multy_back.Store.Collection.{Answer, Collection}
use multy_back.Store.Multisigs.{update_multisig_owners}
use multy_back.Socket.Messages.{Scene, Sent, Payload, broadcast, at_address}

-- An owner without the tags of a user.
unfoldable pub clean : AddressExtended → AddressExtended
clean owner = record {
  user_id = [];
  address = owner.address;
  associated = false;
  creator = owner.creator;
  wallet_index = owner.wallet_index;
  address_index = owner.address_index;
}

-- A write to the map of owners, whose entries have their key as `address`.
unfoldable pub put : AddressExtended → List AddressExtended → List AddressExtended
unfolding at_address
put owner [] = owner ∷ []
put owner (o ∷ os) = if at_address owner.address o then owner ∷ os else o ∷ put owner os

unfoldable pub owner_map : List AddressExtended → List AddressExtended → List AddressExtended
unfolding put clean
owner_map owners [] = owners
owner_map owners (o ∷ os) = owner_map (put (clean o) owners) os

abbrev pub tag :
    User → Wallet → Address → Option AddressExtended → List AddressExtended → List AddressExtended
tag user w a none owners = owners
tag user w a (some owner) owners =
    put
      (record {
        user_id = user.user_id;
        address = a.address;
        associated = true;
        creator = owner.creator;
        wallet_index = w.wallet_index;
        address_index = a.address_index;
      })
      owners

-- The inner loop ends with a `break` in its first round.
abbrev pub tag_first : User → Wallet → List Address → List AddressExtended → List AddressExtended
tag_first user w [] owners = owners
tag_first user w (a ∷ as') owners = tag user w a (find (at_address a.address) owners) owners

unfoldable pub tag_owners : User → List Wallet → List AddressExtended → List AddressExtended
tag_owners user [] owners = owners
tag_owners user (w ∷ ws) owners = tag_owners user ws (tag_first user w w.addresses owners)

unfoldable pub user_owners : Scene → User → Multisig → List AddressExtended
user_owners e user multisig = e.ranged (tag_owners user user.wallets (owner_map [] multisig.owners))

module _ (c : Collection User) where
  unfoldable pub update_user_owners :
      Scene → User → Multisig → ℕ → c.State → Answer (Unit {0}) × c.State
  unfolding user_owners
  update_user_owners e user multisig deploy_status s =
      update_multisig_owners c user.user_id multisig.invite_code (user_owners e user multisig)
        deploy_status s

  -- The loops over the users of a multisig: an update for each, and a message to those online.
  unfoldable pub announce :
      Scene → ℕ → Payload → Multisig → ℕ → List User → c.State → List Sent × c.State
  announce e kind payload multisig deploy_status [] s = ([], s)
  announce e kind payload multisig deploy_status (user ∷ users) s =
      let s' = (update_user_owners e user multisig deploy_status s).1 in
      let rest = announce e kind payload multisig deploy_status users s' in
      (
        if e.online user.user_id then broadcast e kind user.user_id payload ∷ rest.0 else rest.0,
        rest.1,
      )
