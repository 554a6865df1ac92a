-- ===== src/Socket/Capped/Owners.antt =====
-- `updateUserOwners` writes no more owners than the multisig has.
use mathlib.Core.List.{Perm, Permᴰ}
use mathlib.Core.Logic.{∥∥₁_elim}
use native.Mathlib.Decide.{ℕ_discrete}
use multy_back.Prelude.{
  ℕ, suc, ◌+◌, ◌≤◌, ◌≡◌, refl, ap, ◌∙◌, some, List, [], ◌∷◌, arith, length, find, Str, inl, inr,
  Option-cases,
}
use multy_back.Store.Schemas.{Address, Wallet, User, Multisig, AddressExtended}
use multy_back.Store.Collection.{Collection}
use multy_back.Socket.Messages.{Scene, Payload, at_address}
use multy_back.Socket.Owners.{
  clean, put, owner_map, tag_first, tag_owners, user_owners, update_user_owners, announce,
}
use multy_back.Socket.Capped.{AllCapped, update_multisig_owners-AllCapped}

-- A loop over a Go map visits every entry once.
abbrev pub IsScene : Scene → Type 0
IsScene e = (owners : List AddressExtended) → Perm (e.ranged owners) owners

permᴰ-length : {xs ys : List AddressExtended} → Permᴰ xs ys → length xs ≡ length ys
permᴰ-length Permᴰ.nil = refl
permᴰ-length (Permᴰ.cons e p) = ap suc (permᴰ-length p)
permᴰ-length (Permᴰ.swap e f) = refl
permᴰ-length (Permᴰ.trans p q) = permᴰ-length p ∙ permᴰ-length q

perm-length : (xs ys : List AddressExtended) → Perm xs ys → length xs ≡ length ys
perm-length xs ys p = ∥∥₁_elim p (hlevel ℕ_discrete) permᴰ-length

length-put : (o : AddressExtended) (os : List AddressExtended) → length (put o os) ≤ length os + 1
unfolding put
length-put o [] = omega arith
length-put o (x ∷ os) = ground (arith, length-put o os)

length-put_found :
    (o x : AddressExtended) (os : List AddressExtended)
    → find (at_address o.address) os ≡ some x
    → length (put o os) ≡ length os
unfolding put
length-put_found o x [] e = absurd (cc)
length-put_found o x (y ∷ os) e = ground (arith, length-put_found o x os)

length-owner_map :
    (owners os : List AddressExtended) → length (owner_map owners os) ≤ length owners + length os
unfolding owner_map
length-owner_map owners [] = omega arith
length-owner_map owners (o ∷ os) =
    omega (arith, length-owner_map (put (clean o) owners) os, length-put (clean o) owners)

length-tag_first :
    (user : User) (w : Wallet) (as' : List Address) (owners : List AddressExtended)
    → length (tag_first user w as' owners) ≡ length owners
length-tag_first user w [] owners = refl
length-tag_first user w (a ∷ as') owners =
    elim (Option-cases (find (at_address a.address) owners)) [
      | inl absent ↦ rw absent refl
      | inr (x, found) ↦ rw found (length-put_found _ x owners found)
    ]

length-tag_owners :
    (user : User) (ws : List Wallet) (owners : List AddressExtended)
    → length (tag_owners user ws owners) ≡ length owners
unfolding tag_owners
length-tag_owners user [] owners = refl
length-tag_owners user (w ∷ ws) owners =
    length-tag_owners user ws _ ∙ length-tag_first user w w.addresses owners

pub length-user_owners :
    (e : Scene) (user : User) (m : Multisig)
    → IsScene e
    → length (user_owners e user m) ≤ length m.owners
unfolding user_owners
length-user_owners e user m once =
    let owners = tag_owners user user.wallets (owner_map [] m.owners) in
    omega (
      arith,
      perm-length (e.ranged owners) owners (once owners),
      length-tag_owners user user.wallets (owner_map [] m.owners),
      length-owner_map [] m.owners,
    )

module _ (cap : Str → ℕ) (c : Collection User) (e : Scene) (once : IsScene e) where
  pub announce-AllCapped :
      (kind : ℕ) (payload : Payload) (m : Multisig) (status : ℕ) (users : List User) (s : c.State)
      → length m.owners ≤ cap m.invite_code
      → AllCapped cap c s
      → AllCapped cap c (announce c e kind payload m status users s).1
  unfolding announce update_user_owners
  announce-AllCapped kind payload m status [] s few all = all
  announce-AllCapped kind payload m status (user ∷ users) s few all =
      announce-AllCapped kind payload m status users _ few (
        update_multisig_owners-AllCapped cap c user.user_id m.invite_code (user_owners e user m)
          status s (omega (arith, length-user_owners e user m once)) all)
