-- ===== src/Wallets/Names.antt =====
-- What `changeName` can change.
use multy_back.Prelude.{
  ℕ, zero, suc, ◌≡◌, ◌≢◌, refl, ap, ◌∙◌, Bool, false, none, List, [], ◌∷◌, arith, any, map, Str,
  codes, inl, inr,
}
use multy_back.Store.Schemas.{Wallet, User, Multisig, asset_multisig}
use multy_back.Store.Collection.{Answer, ok, not_found, failed, Collection, modify, update-cases}
use multy_back.Wallets.Params.{has_jwt}
use multy_back.Wallets.Update.{
  ChangeName, at_position, rename, prefixed, rename_update, rename_first, rename_at, has_wallet,
  has_imported, change_for, change_name,
}

any_never : (us : List User) → any (λ (u : User). false) us ≡ false
any_never [] = refl
any_never (u ∷ us) = any_never us

-- All of a user but the names of the wallets.
abbrev pub nameless : User → Str × List Wallet × List Multisig
nameless u = (u.user_id, map (rename []) u.wallets, u.multisigs)

nameless-at_position :
    (p : ℕ) (name : Str) (ws : List Wallet)
    → map (rename []) (at_position p (rename name) ws) ≡ map (rename []) ws
unfolding at_position
nameless-at_position p name [] = refl
nameless-at_position zero name (w ∷ ws) = refl
nameless-at_position (suc p) name (w ∷ ws) =
    ap (λ t. rename [] w ∷ t) (nameless-at_position p name ws)

nameless-modify :
    (fits : Wallet → Bool) (name : Str) (ws : List Wallet)
    → map (rename []) (modify fits (rename name) ws) ≡ map (rename []) ws
unfolding modify
nameless-modify fits name [] = refl
nameless-modify fits name (w ∷ ws) = ground (arith, nameless-modify fits name ws)

map-nameless-modify :
    (p : User → Bool) (f : List Wallet → List Wallet) (us : List User)
    → ((ws : List Wallet) → map (rename []) (f ws) ≡ map (rename []) ws)
    → map nameless (modify p (λ u. record u { wallets = f u.wallets }) us) ≡ map nameless us
unfolding modify
map-nameless-modify p f [] h = refl
map-nameless-modify p f (u ∷ us) h = ground (arith, h u.wallets, map-nameless-modify p f us h)

first_nameless :
    (cn : ChangeName) (user : User) (ws : List Wallet)
    → map (rename []) (rename_first cn user ws) ≡ map (rename []) ws
unfolding rename_first
first_nameless cn user ws = nameless-at_position _ cn.wallet_name ws

at_nameless :
    (cn : ChangeName) (ws : List Wallet) → map (rename []) (rename_at cn ws) ≡ map (rename []) ws
unfolding rename_at
at_nameless cn ws = nameless-modify _ cn.wallet_name ws

module _ (c : Collection User) where
  abbrev pub all_nameless : c.State → List (Str × List Wallet × List Multisig)
  all_nameless s = map nameless (c.docs s)

  rename_update-nameless :
      (sel : User → Bool) (f : List Wallet → List Wallet) (text : Str) (s : c.State)
      → ((ws : List Wallet) → map (rename []) (f ws) ≡ map (rename []) ws)
      → all_nameless (rename_update c sel f text s).1 ≡ all_nameless s
  unfolding rename_update
  rename_update-nameless sel f text s h =
      let change : User → User = λ u. record u { wallets = f u.wallets } in
      elim (update-cases c sel change s) [
        | inl same ↦ ap (map nameless) same
        | inr changed ↦ ap (map nameless) changed ∙ map-nameless-modify sel f (c.docs s) h
      ]

  change_for-nameless :
      (cn : ChangeName) (a : Answer User) (s : c.State)
      → all_nameless (change_for c cn a s).1 ≡ all_nameless s
  unfolding change_for
  change_for-nameless cn (ok user) s = ground (
    arith,
    rename_update-nameless (has_wallet cn user) (rename_first cn user)
        (codes "changeName:restClient.userStore.Update:AssetTypeMultyAddress ") s
        (first_nameless cn user),
    rename_update-nameless (has_imported cn user) (rename_at cn)
        (codes "changeName:restClient.userStore.Update:AssetTypeImportedAddress ") s
        (at_nameless cn),
    rename_update-nameless (λ u. false) (λ ws. ws)
        (codes "changeName:restClient.userStore.Update:AssetTypeMultisig ") s (λ ws. refl),
  )
  change_for-nameless cn not_found s = refl
  change_for-nameless cn (failed why) s = refl

  never_ok :
      (f : List Wallet → List Wallet) (text : Str) (s : c.State)
      → (rename_update c (λ u. false) f text s).0 ≢ none
  unfolding rename_update prefixed
  never_ok f text s e = answered (c.update (λ u. false) change s).0 refl e
    where
      change : User → User
      change u = record u { wallets = f u.wallets }

      answered :
          (a : Answer (Unit {0}))
          → (c.update (λ u. false) change s).0 ≡ a
          → prefixed text (c.update (λ u. false) change s).0 ≡ none
          → ⊥
      answered (ok u) written e =
          cc (c.update_found (λ u. false) change s written, any_never (c.docs s))
      answered not_found written e = cc (written, e)
      answered (failed why) written e = cc (written, e)

  change_for_multisig :
      (cn : ChangeName) (a : Answer User) (s : c.State)
      → cn.kind ≡ asset_multisig
      → (change_for c cn a s).0 ≢ none
  unfolding change_for
  change_for_multisig cn (ok user) s kind e = ground (
    arith,
    never_ok (λ ws. ws) (codes "changeName:restClient.userStore.Update:AssetTypeMultisig ") s,
  )
  change_for_multisig cn not_found s kind e = cc e
  change_for_multisig cn (failed why) s kind e = cc e

  -- A change of a name, of whatever kind, changes nothing of any user but the names of wallets.
  pub change_name-nameless :
      (cn : ChangeName) (token : Str) (s : c.State)
      → all_nameless (change_name c cn token s).1 ≡ all_nameless s
  unfolding change_name
  change_name-nameless cn token s = change_for-nameless cn (c.find_one (has_jwt token) s) s

  -- A change of a multisig's name never succeeds, since its selector names a field that no document
  -- has.
  pub change_name_multisig :
      (cn : ChangeName) (token : Str) (s : c.State)
      → cn.kind ≡ asset_multisig
      → (change_name c cn token s).0 ≢ none
  unfolding change_name
  change_name_multisig cn token s = change_for_multisig cn (c.find_one (has_jwt token) s) s
