-- ===== src/Wallets/Distinct.antt =====
-- A user's own wallets are told apart by chain, network and index.
use multy_back.Prelude.{
  ◌≡◌, refl, codes, Bool, true, false, List, [], ◌∷◌, ◌++◌, arith, any, All, All-append, Str,
  Bool-cases, inl, inr,
}
use multy_back.Store.Schemas.{Wallet, User}
use multy_back.Store.Collection.{
  Answer, ok, not_found, failed, Collection, modify_found-All, update-cases,
}
use multy_back.Wallets.Params.{
  WalletParams, Clock, has_jwt, is_wallet, Watch, new_address_node, no_index,
}
use multy_back.Wallets.Create.{
  create_wallet, internal_wallet, imported_wallet, push_wallet, create_internal, create_imported,
  create_for, create_custom_wallet,
}

abbrev pub is_twin : Wallet → Wallet → Bool
is_twin w = is_wallet w.currency_id w.network_id w.wallet_index

-- No two wallets that are not imported have one chain, network and index.
abbrev pub IsDistinct : List Wallet → Type 0
IsDistinct [] = Unit
IsDistinct (w ∷ ws) =
    (w.is_imported ≡ false → All (λ v. v.is_imported ≡ false → is_twin w v ≡ false) ws)
    × IsDistinct ws

is_twin_comm : (v w : Wallet) → is_twin v w ≡ false → is_twin w v ≡ false
unfolding is_wallet
is_twin_comm v w h = ground arith

snoc-IsDistinct :
    (ws : List Wallet) (w : Wallet)
    → IsDistinct ws
    → (w.is_imported ≡ false → any (is_twin w) ws ≡ false)
    → IsDistinct (ws ++ w ∷ [])
snoc-IsDistinct [] w h new = (λ own. tt, tt)
snoc-IsDistinct (v ∷ ws) w (apart, h) new = (
  λ own.
      All-append (λ x. x.is_imported ≡ false → is_twin v x ≡ false) ws (w ∷ []) (apart own)
        (λ own_w. is_twin_comm w v (head_apart (new own_w)), tt),
  snoc-IsDistinct ws w h (λ own_w. tail_apart (new own_w)),
)
  where
    head_apart : any (is_twin w) (v ∷ ws) ≡ false → is_twin w v ≡ false
    head_apart e = ground arith

    tail_apart : any (is_twin w) (v ∷ ws) ≡ false → any (is_twin w) ws ≡ false
    tail_apart e = ground arith

abbrev pub UserDistinct : User → Type 0
UserDistinct u = IsDistinct u.wallets

imported_not_own :
    (wp : WalletParams) (clock : Clock) (user : User)
    → wp.is_imported ≡ true
    → (imported_wallet wp clock).is_imported ≡ false
    → any (is_twin (imported_wallet wp clock)) user.wallets ≡ false
unfolding imported_wallet create_wallet
imported_not_own wp clock user imported own = absurd (cc (own, imported))

module _ (c : Collection User) where
  abbrev pub AllDistinct : c.State → Type 0
  AllDistinct s = All UserDistinct (c.docs s)

  push_wallet-AllDistinct :
      (token : Str) (w : Wallet) (watched : List Watch) (user : User) (s : c.State)
      → c.find_one (has_jwt token) s ≡ ok user
      → (w.is_imported ≡ false → any (is_twin w) user.wallets ≡ false)
      → AllDistinct s
      → AllDistinct (push_wallet c token w watched s).state
  unfolding push_wallet
  push_wallet-AllDistinct token w watched user s read new h =
      let f : User → User = λ u. record u { wallets = u.wallets ++ w ∷ [] } in
      elim (update-cases c (has_jwt token) f s) [
        | inl same ↦ rw same h
        | inr changed ↦ rw changed (
            modify_found-All UserDistinct (has_jwt token) f (c.docs s) user
              (c.find_one_ok (has_jwt token) s user read)
              (λ q. snoc-IsDistinct user.wallets w q new) h)
      ]

  create_internal-AllDistinct :
      (wp : WalletParams) (token : Str) (is_empty : Bool) (clock : Clock) (user : User)
      (s : c.State)
      → c.find_one (has_jwt token) s ≡ ok user
      → AllDistinct s
      → AllDistinct (create_internal c wp token is_empty clock user s).state
  unfolding create_internal
  create_internal-AllDistinct wp token is_empty clock user s read h =
      elim (Bool-cases
        (any (is_wallet wp.currency_id wp.network_id wp.wallet_index) user.wallets)) [
          | inl taken ↦ rw taken h
          | inr free ↦ rw free (
              push_wallet-AllDistinct token (internal_wallet wp is_empty clock) _ user s read
                (λ own. unfold internal_wallet create_wallet in free) h)
        ]

  create_imported-AllDistinct :
      (wp : WalletParams) (token : Str) (clock : Clock) (user : User) (s : c.State)
      → wp.is_imported ≡ true
      → c.find_one (has_jwt token) s ≡ ok user
      → AllDistinct s
      → AllDistinct (create_imported c wp token clock user s).state
  unfolding create_imported
  create_imported-AllDistinct wp token clock user s imported read h =
      let told : List Watch =
        new_address_node wp.address (codes "imported") wp.currency_id wp.network_id no_index 0 in
      ground (
        arith,
        push_wallet-AllDistinct token (imported_wallet wp clock) told user s read
            (imported_not_own wp clock user imported) h,
      )

  create_for-AllDistinct :
      (wp : WalletParams) (token : Str) (is_empty : Bool) (clock : Clock) (a : Answer User)
      (s : c.State)
      → c.find_one (has_jwt token) s ≡ a
      → AllDistinct s
      → AllDistinct (create_for c wp token is_empty clock a s).state
  unfolding create_for
  create_for-AllDistinct wp token is_empty clock (ok user) s read h = ground (
    arith,
    λ (imported : wp.is_imported ≡ true).
        create_imported-AllDistinct wp token clock user s imported read h,
    create_internal-AllDistinct wp token is_empty clock user s read h,
  )
  create_for-AllDistinct wp token is_empty clock not_found s read h = h
  create_for-AllDistinct wp token is_empty clock (failed why) s read h = h

  -- The requests that add a wallet, own or imported, keep every user's own wallets apart: no two
  -- have one chain, network and index. So it is on every outcome of the read and the write.
  pub create_custom_wallet-AllDistinct :
      (wp : WalletParams) (token : Str) (is_empty : Bool) (clock : Clock) (s : c.State)
      → AllDistinct s
      → AllDistinct (create_custom_wallet c wp token is_empty clock s).state
  unfolding create_custom_wallet
  create_custom_wallet-AllDistinct wp token is_empty clock s h =
      create_for-AllDistinct wp token is_empty clock (c.find_one (has_jwt token) s) s refl h
