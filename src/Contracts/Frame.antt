-- ===== src/Contracts/Frame.antt =====
-- What a deployment leaves alone.
use multy_back.Prelude.{
  ℕ, ◌≡◌, refl, ◌∙◌, ◌||◌, List, [], ◌∷◌, Str, arith, Bool-cases, inl, inr, ◌&&◌,
}
use multy_back.Currencies.{ether}
use multy_back.Store.Schemas.{User, Multisig}
use multy_back.Store.Collection.{Collection, modify}
use multy_back.Store.Multisigs.{is_user, is_invite, has_invite, other_multisigs}
use multy_back.Store.Pointwise.{Related, Related-refl, Related-trans, update-Related}
use multy_back.Contracts.Deploy.{
  Ranged, NodeMultisig, generated_multisig_tx_to_store, ms_to_user_data, fetch_invite_undeployed,
  multisigs_found, is_double, is_empty_text, deploy, deploy_of_user, deploy_all, add_multisig,
}

-- A user as before but for the multisigs of an invite code.
pub record SameBut (code : Str) (u u' : User) : Type 0 where
  pub user : u'.user_id ≡ u.user_id
  pub seed : u'.seed_phrase_type ≡ u.seed_phrase_type
  pub devices : u'.devices ≡ u.devices
  pub wallets : u'.wallets ≡ u.wallets
  pub others : other_multisigs code u'.multisigs ≡ other_multisigs code u.multisigs

SameBut-refl : (code : Str) (u : User) → SameBut code u u
SameBut-refl code u = record {
  user = refl;
  seed = refl;
  devices = refl;
  wallets = refl;
  others = refl;
}

SameBut-trans : (code : Str) (u v w : User) → SameBut code u v → SameBut code v w → SameBut code u w
SameBut-trans code u v w a b = record {
  user = b.user ∙ a.user;
  seed = b.seed ∙ a.seed;
  devices = b.devices ∙ a.devices;
  wallets = b.wallets ∙ a.wallets;
  others = b.others ∙ a.others;
}

is_invite-deploy :
    (code : Str) (new m : Multisig) → is_invite code (deploy new m) ≡ is_invite code m
unfolding is_invite deploy
is_invite-deploy code new m = refl

other_multisigs-deploy :
    (code : Str) (new : Multisig) (ms : List Multisig)
    → other_multisigs code (modify (is_invite code) (deploy new) ms) ≡ other_multisigs code ms
unfolding other_multisigs modify
other_multisigs-deploy code new [] = refl
other_multisigs-deploy code new (m ∷ ms) =
    ground (arith, is_invite-deploy code new m, other_multisigs-deploy code new ms)

deploy_of_user-SameBut :
    (code : Str) (new : Multisig) (u : User) → SameBut code u (deploy_of_user code new u)
unfolding deploy_of_user
deploy_of_user-SameBut code new u = record {
  user = refl;
  seed = refl;
  devices = refl;
  wallets = refl;
  others = other_multisigs-deploy code new u.multisigs;
}

module _ (c : Collection User) where
  deploy_all-SameBut :
      (g : NodeMultisig) (new : Multisig) (code : Str) (users : List (Str × User)) (s : c.State)
      → Related (SameBut code) (c.docs s) (c.docs (deploy_all c g new code users s).1)
  unfolding deploy_all
  deploy_all-SameBut g new code [] s = Related-refl (SameBut code) (SameBut-refl code) (c.docs s)
  deploy_all-SameBut g new code ((a, u) ∷ users) s =
      let sel = λ (x : User). is_user u.user_id x && has_invite code x in
      let s' = (c.update sel (deploy_of_user code new) s).1 in
      Related-trans (SameBut code) (SameBut code) (SameBut code) (SameBut-trans code) (c.docs s)
        (c.docs s') (c.docs (deploy_all c g new code users s').1)
        (update-Related c (SameBut code) sel (deploy_of_user code new) s (SameBut-refl code)
          (deploy_of_user-SameBut code new))
        (deploy_all-SameBut g new code users s')

  -- A deployment changes nothing of any user but the multisigs with the invite code that it has found
  -- for its addresses, however the reads and writes end and in whatever order Go ranges.
  pub add_multisig-SameBut :
      (first second : Ranged) (g : NodeMultisig) (network now : ℕ) (s : c.State)
      → Related
          (SameBut (fetch_invite_undeployed first (ms_to_user_data c g.addresses s)))
          (c.docs s)
          (c.docs (add_multisig c first second g network now s).1)
  unfolding add_multisig
  add_multisig-SameBut first second g network now s =
      elim (Bool-cases
        (is_double code (multisigs_found (c.find_one (has_invite code) s)) || is_empty_text code)) [
          | inl idle ↦ rw idle (Related-refl (SameBut code) (SameBut-refl code) (c.docs s))
          | inr live ↦ rw live (
              deploy_all-SameBut g (generated_multisig_tx_to_store g ether network now) code
                (second (ms_to_user_data c g.addresses s)) s)
        ]
    where
      code : Str
      code = fetch_invite_undeployed first (ms_to_user_data c g.addresses s)
