-- ===== src/Wallets/Positions.antt =====
-- The positions at which `DeleteWallet`, `changeName` and `addAddressToWallet` write.
use multy_back.Prelude.{
  ℕ, suc, ◌+◌, ◌≡◌, refl, ap, ◌∙◌, Bool, true, false, List, [], ◌∷◌, arith, any, if◌then◌else◌,
  Bool-cases, inl, inr, str_eq,
}
use multy_back.Store.Schemas.{Wallet}
use multy_back.Store.Collection.{modify}
use multy_back.Wallets.Params.{is_wallet}
use multy_back.Wallets.Update.{at_position, first_position}
use multy_back.Wallets.Delete.{mark_deleted, delete_in, fetch_undeleted_wallets}

first_position-suc :
    (fits : Wallet → Bool) (i : ℕ) (ws : List Wallet)
    → any fits ws ≡ true
    → first_position fits (i + 1) ws ≡ first_position fits i ws + 1
unfolding first_position
first_position-suc fits i [] h = absurd (cc)
first_position-suc fits i (w ∷ ws) h = ground (arith, first_position-suc fits (i + 1) ws)

past_head :
    (fits : Wallet → Bool) (f : Wallet → Wallet) (w : Wallet) (ws : List Wallet)
    → fits w ≡ false
    → any fits ws ≡ true
    → at_position (first_position fits 0 (w ∷ ws)) f (w ∷ ws)
      ≡ w ∷ at_position (first_position fits 0 ws) f ws
unfolding first_position at_position
past_head fits f w ws later h =
    let k = first_position fits 0 ws in
    let e : first_position fits (0 + 1) ws ≡ suc k =
      omega (arith, first_position-suc fits 0 ws h) in
    rw later (ap (λ (n : ℕ). at_position n f (w ∷ ws)) e)

-- Where a wallet fits, the write at the first position is a change of the first wallet that fits.
pub at_position-first_position :
    (fits : Wallet → Bool) (f : Wallet → Wallet) (ws : List Wallet)
    → any fits ws ≡ true
    → at_position (first_position fits 0 ws) f ws ≡ modify fits f ws
unfolding modify
at_position-first_position fits f [] h = absurd (cc)
at_position-first_position fits f (w ∷ ws) h = elim (Bool-cases (fits w)) [
  | inl here ↦ at_head here
  | inr later ↦
      let rest : any fits ws ≡ true = ground arith in
      past_head fits f w ws later rest
      ∙ rw later (ap (λ t. w ∷ t) (at_position-first_position fits f ws rest))
]
  where
    at_head :
        fits w ≡ true
        → at_position (first_position fits 0 (w ∷ ws)) f (w ∷ ws) ≡ modify fits f (w ∷ ws)
    at_head here = unfold first_position in unfold at_position in rw here refl

first_position_none :
    (fits : Wallet → Bool) (i : ℕ) (ws : List Wallet)
    → any fits ws ≡ false
    → first_position fits i ws ≡ 0
unfolding first_position
first_position_none fits i [] h = refl
first_position_none fits i (w ∷ ws) h = ground (arith, first_position_none fits (i + 1) ws)

marked_head :
    (v : Wallet) (vs : List Wallet) → at_position 0 mark_deleted (v ∷ vs) ≡ mark_deleted v ∷ vs
unfolding at_position
marked_head v vs = refl

-- The wallets without the first that fits.
abbrev pub drop_first : (Wallet → Bool) → List Wallet → List Wallet
drop_first fits [] = []
drop_first fits (w ∷ ws) = if fits w then ws else w ∷ drop_first fits ws

undeleted-modify :
    (fits : Wallet → Bool) (ws : List Wallet)
    → fetch_undeleted_wallets (modify fits mark_deleted ws)
      ≡ fetch_undeleted_wallets (drop_first fits ws)
unfolding modify fetch_undeleted_wallets str_eq
undeleted-modify fits [] = refl
undeleted-modify fits (w ∷ ws) = ground (arith, undeleted-modify fits ws)

-- A deletion that writes over the wallets it has read hides the first wallet with the chain, network
-- and index, and no other, where there is one.
pub delete_in_hides :
    (currency network index : ℕ) (ws : List Wallet)
    → any (is_wallet currency network index) ws ≡ true
    → fetch_undeleted_wallets (delete_in currency network index ws ws)
      ≡ fetch_undeleted_wallets (drop_first (is_wallet currency network index) ws)
unfolding delete_in
delete_in_hides currency network index ws h =
    let fits = is_wallet currency network index in
    ap fetch_undeleted_wallets (at_position-first_position fits mark_deleted ws h)
    ∙ undeleted-modify fits ws

-- Where no wallet has the chain, network and index, the user's first wallet is marked as deleted.
pub delete_in_misses :
    (currency network index : ℕ) (v : Wallet) (vs : List Wallet)
    → any (is_wallet currency network index) (v ∷ vs) ≡ false
    → delete_in currency network index (v ∷ vs) (v ∷ vs) ≡ mark_deleted v ∷ vs
unfolding delete_in
delete_in_misses currency network index v vs none_fits =
    rw (first_position_none (is_wallet currency network index) 0 (v ∷ vs) none_fits)
      (marked_head v vs)
