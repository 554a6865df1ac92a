-- ===== src/Contracts/Deploy.antt =====
-- A contract that the node reports as deployed: `generatedMultisigTxToStore`, `msToUserData`,
-- `fetchInviteUndeployed`, `FetchUserAddresses` and the handler of eth/handlers.go. A Go map is a list of
-- entries with one for each key; the order in which Go ranges over it is an argument.
use multy_back.Prelude.{
  ℕ, Bool, true, false, not, ◌&&◌, ◌||◌, List, [], ◌∷◌, ◌==◌, any, if◌then◌else◌, Str, str_eq,
  to_lower, ◌+◌,
}
use multy_back.Currencies.{ether}
use multy_back.Store.Schemas.{
  Address, Wallet, User, Multisig, AddressExtended, empty_multisig, wallet_ok,
}
use multy_back.Store.Collection.{Answer, ok, not_found, failed, Collection, modify}
use multy_back.Store.Multisigs.{is_user, is_invite, has_invite, has_address}
use multy_back.Store.Queries.{put_entry, has_key, on_chain}

-- `Multisig` of the node, with the fields that the program reads.
pub record NodeMultisig : Type 0 where
  pub confirmations : ℕ
  pub contract : Str
  pub tx_of_creation : Str
  pub factory_address : Str
  pub deploy_status : ℕ
  pub addresses : List Str

unfoldable pub generated_multisig_tx_to_store : NodeMultisig → ℕ → ℕ → ℕ → Multisig
generated_multisig_tx_to_store g currency network now = record empty_multisig {
  currency_id = currency;
  network_id = network;
  confirmations = g.confirmations;
  contract_address = g.contract;
  tx_of_creation = g.tx_of_creation;
  factory_address = g.factory_address;
  last_action_time = now;
  date_of_creation = now;
  deploy_status = g.deploy_status;
  status = wallet_ok;
}

-- `fetched` of `FetchUserAddresses`: each address, of which nothing is known yet.
unfoldable pub unassociated : List Str → List (Str × AddressExtended) → List (Str × AddressExtended)
unassociated [] fetched = fetched
unassociated (a ∷ more) fetched = unassociated more (
    put_entry a
      (record {
        user_id = [];
        address = a;
        associated = false;
        creator = false;
        wallet_index = 0;
        address_index = 0;
      })
      fetched)

unfoldable pub associate :
    Str → Wallet → Address → List (Str × AddressExtended) → List (Str × AddressExtended)
associate user w x [] = []
associate user w x ((a, e) ∷ fetched) =
    (
      a,
      if str_eq a x.address
          then record e {
            associated = true;
            wallet_index = w.wallet_index;
            address_index = x.address_index;
            user_id = user;
          }
          else e,
    )
    ∷ associate user w x fetched

unfoldable pub associate_addresses :
    Str → Wallet → List Address → List (Str × AddressExtended) → List (Str × AddressExtended)
unfolding associate
associate_addresses user w [] fetched = fetched
associate_addresses user w (x ∷ xs) fetched =
    associate_addresses user w xs (associate user w x fetched)

unfoldable pub associate_wallets :
    ℕ → ℕ → Str → List Wallet → List (Str × AddressExtended) → List (Str × AddressExtended)
unfolding associate_addresses on_chain
associate_wallets currency network user [] fetched = fetched
associate_wallets currency network user (w ∷ ws) fetched =
    associate_wallets currency network user ws (
      if on_chain currency network w
      then associate_addresses user w w.addresses fetched
      else fetched)

abbrev pub entry_values : List (Str × AddressExtended) → List AddressExtended
entry_values [] = []
entry_values ((a, e) ∷ entries) = e ∷ entry_values entries

unfoldable pub fetch_user_addresses : ℕ → ℕ → User → List Str → List AddressExtended
unfolding unassociated associate_wallets
fetch_user_addresses currency network u addresses =
    entry_values
      (associate_wallets currency network u.user_id u.wallets (unassociated addresses []))

-- The loop over the owners of a multisig: the number of those among the addresses is reached.
unfoldable pub owners_reach : List (Str × User) → ℕ → ℕ → List AddressExtended → Bool
owners_reach users target count [] = false
owners_reach users target count (o ∷ os) =
    let counted = owners_reach users target (count + 1) os in
    let skipped = owners_reach users target count os in
    if has_key o.address users then (if count + 1 == target then true else counted) else skipped

unfoldable pub last_invite : List (Str × User) → List Multisig → Str → Str
unfolding owners_reach
last_invite users [] code = code
last_invite users (m ∷ ms) code =
    last_invite users ms
      (if owners_reach users m.owners_count 0 m.owners then m.invite_code else code)

unfoldable pub invite_undeployed : List (Str × User) → List (Str × User) → Str → Str
unfolding last_invite
invite_undeployed users [] code = code
invite_undeployed users ((a, u) ∷ more) code =
    invite_undeployed users more (last_invite users u.multisigs code)

-- An order in which Go ranges over the map of users.
abbrev pub Ranged : Type 0
Ranged = List (Str × User) → List (Str × User)

unfoldable pub fetch_invite_undeployed : Ranged → List (Str × User) → Str
unfolding invite_undeployed
fetch_invite_undeployed ranged users = invite_undeployed users (ranged users) []

abbrev pub is_empty_text : Str → Bool
is_empty_text [] = true
is_empty_text (ch ∷ s) = false

abbrev pub multisigs_found : Answer User → List Multisig
multisigs_found (ok u) = u.multisigs
multisigs_found not_found = []
multisigs_found (failed why) = []

-- A multisig of the code has its contract already.
unfoldable pub is_double : Str → List Multisig → Bool
is_double code ms = any (λ m. is_invite code m && not (is_empty_text m.contract_address)) ms

-- The update of `multisig.$`.
unfoldable pub deploy : Multisig → Multisig → Multisig
deploy new m = record m {
  confirmations = new.confirmations;
  contract_address = new.contract_address;
  tx_of_creation = new.tx_of_creation;
  factory_address = new.factory_address;
  last_action_time = new.last_action_time;
  deploy_status = new.deploy_status;
}

unfoldable pub deploy_of_user : Str → Multisig → User → User
unfolding deploy
deploy_of_user code new u = record u {
  multisigs = modify (is_invite code) (deploy new) u.multisigs;
}

module _ (c : Collection User) where
  abbrev pub user_entry :
      Str
      → Answer User
      → (List (Str × User) → List (Str × User))
      → List (Str × User)
      → List (Str × User)
  user_entry a (ok u) more users = more (put_entry a u users)
  user_entry a not_found more users = users
  user_entry a (failed why) more users = users

  -- The users of the addresses, up to the first address that has none.
  unfoldable pub users_of : List Str → c.State → List (Str × User) → List (Str × User)
  users_of [] s users = users
  users_of (a ∷ more) s users =
      user_entry (to_lower a) (c.find_one (has_address (to_lower a)) s) (users_of more s) users

  unfoldable pub ms_to_user_data : List Str → c.State → List (Str × User)
  unfolding users_of
  ms_to_user_data addresses s = users_of addresses s []

  -- The message to a user on the deployment.
  pub record Deployed : Type 0 where
    pub to : Str
    pub multisig : Multisig

  unfoldable pub deploy_all :
      NodeMultisig → Multisig → Str → List (Str × User) → c.State → List Deployed × c.State
  unfolding deploy_of_user fetch_user_addresses
  deploy_all g new code [] s = ([], s)
  deploy_all g new code ((a, u) ∷ users) s =
      let owners = fetch_user_addresses ether new.network_id u g.addresses in
      let r =
        c.update (λ x. is_user u.user_id x && has_invite code x) (deploy_of_user code new) s in
      let rest = deploy_all g new code users r.1 in
      (
        record { to = u.user_id; multisig = record new { owners = owners; invite_code = code } }
            ∷ rest.0,
        rest.1,
      )

  -- The handler, which ranges over the users twice. A failed search reads no multisig.
  unfoldable pub add_multisig :
      Ranged → Ranged → NodeMultisig → ℕ → ℕ → c.State → List Deployed × c.State
  unfolding ms_to_user_data fetch_invite_undeployed is_double deploy_all
      generated_multisig_tx_to_store
  add_multisig first second g network now s =
      let new = generated_multisig_tx_to_store g ether network now in
      let users = ms_to_user_data g.addresses s in
      let code = fetch_invite_undeployed first users in
      if is_double code (multisigs_found (c.find_one (has_invite code) s)) || is_empty_text code
      then ([], s)
      else deploy_all g new code (second users) s
