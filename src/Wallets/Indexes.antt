-- ===== src/Wallets/Indexes.antt =====
-- The addresses of a wallet are told apart by their index.
use multy_back.Prelude.{
  ℕ, zero, suc, ◌+◌, ◌≡◌, refl, subst, ◌∙◌, Bool, true, false, ◌&&◌, some, List, [], ◌∷◌, ◌++◌,
  arith, any, find, get_elem?, All, All-append, ◌==◌, if◌then◌else◌, Bool-cases, inl, inr, ◌⊎◌, Str,
}
use multy_back.Store.Schemas.{Address, Wallet, User}
use multy_back.Store.Collection.{ok, Collection, modify_found-All, update-cases}
use multy_back.Wallets.Params.{Clock, has_jwt, is_wallet, has_parts}
use multy_back.Wallets.Update.{
  at_position, last_position, has_index, index_is_taken, push_address, add_for,
  add_address_to_wallet,
}

abbrev pub IsIndexed : List Address → Type 0
IsIndexed [] = Unit
IsIndexed (a ∷ as') =
    All (λ (b : Address). (a.address_index == b.address_index) ≡ false) as' × IsIndexed as'

abbrev pub WalletIndexed : Wallet → Type 0
WalletIndexed w = IsIndexed w.addresses

abbrev pub UserIndexed : User → Type 0
UserIndexed u = All WalletIndexed u.wallets

snoc-IsIndexed :
    (as' : List Address) (a : Address)
    → IsIndexed as'
    → any (λ (b : Address). b.address_index == a.address_index) as' ≡ false
    → IsIndexed (as' ++ a ∷ [])
snoc-IsIndexed [] a h new = (tt, tt)
snoc-IsIndexed (b ∷ as') a (apart, h) new = (
  All-append (λ (x : Address). (b.address_index == x.address_index) ≡ false) as' (a ∷ []) apart
      (ground arith, tt),
  snoc-IsIndexed as' a h (ground arith),
)

push_address-WalletIndexed :
    (a : Address) (w : Wallet)
    → has_index a.address_index w ≡ false
    → WalletIndexed w
    → WalletIndexed (push_address a w)
unfolding push_address has_index
push_address-WalletIndexed a w new h = snoc-IsIndexed w.addresses a h new

-- Where a wallet fits, the loop ends with the position of one that does.
abbrev IsAt : (Wallet → Bool) → ℕ → ℕ → List Wallet → Type 0
IsAt fits i p ws =
    (k : ℕ) × (w : Wallet) × (p ≡ i + k) × (get_elem? ws k ≡ some w) × (fits w ≡ true)

last_position-cases :
    (fits : Wallet → Bool) (i position : ℕ) (ws : List Wallet)
    → ((any fits ws ≡ false) × (last_position fits i position ws ≡ position))
      ⊎ IsAt fits i (last_position fits i position ws) ws
unfolding last_position
last_position-cases fits i position [] = inl (refl, refl)
last_position-cases fits i position (w ∷ ws) =
    elim (last_position-cases fits (i + 1) (if fits w then i else position) ws) [
      | inr (k, v, e, at, ok_v) ↦ inr (suc k, v, omega (arith, e), at, ok_v)
      | inl (none_fits, e) ↦ elim (Bool-cases (fits w)) [
        | inl here ↦ inr (0, w, e ∙ rw here (omega arith), refl, here)
        | inr past ↦ inl (ground arith, e ∙ rw past refl)
      ]
    ]

at_position-All :
    (p : ℕ) (f : Wallet → Wallet) (ws : List Wallet)
    → ((w : Wallet) → get_elem? ws p ≡ some w → WalletIndexed w → WalletIndexed (f w))
    → All WalletIndexed ws
    → All WalletIndexed (at_position p f ws)
unfolding at_position
at_position-All p f [] step h = tt
at_position-All zero f (w ∷ ws) step (q, h) = (step w refl q, h)
at_position-All (suc p) f (w ∷ ws) step (q, h) = (q, at_position-All p f ws step h)

free_at :
    (fits : Wallet → Bool) (i : ℕ) (ws : List Wallet) (k : ℕ) (w : Wallet)
    → index_is_taken fits i ws ≡ false
    → get_elem? ws k ≡ some w
    → fits w ≡ true
    → has_index i w ≡ false
unfolding index_is_taken
free_at fits i [] k w free at fit = absurd (cc)
free_at fits i (v ∷ ws) zero w free at fit =
    let same : v ≡ w = ground (arith, at) in
    let here : fits v ≡ true = cc (same, fit) in
    subst (λ x. has_index i x ≡ false) same (ground arith)
free_at fits i (v ∷ ws) (suc k) w free at fit = free_at fits i ws k w (ground arith) at fit

added-UserIndexed :
    (fits : Wallet → Bool) (a : Address) (ws : List Wallet)
    → any fits ws ≡ true
    → index_is_taken fits a.address_index ws ≡ false
    → All WalletIndexed ws
    → All WalletIndexed (at_position (last_position fits 0 0 ws) (push_address a) ws)
added-UserIndexed fits a ws some_fits free h = elim (last_position-cases fits 0 0 ws) [
  | inl (none_fits, e) ↦ absurd (cc (some_fits, none_fits))
  | inr (k, v, e, at, fit) ↦
      let e' : last_position fits 0 0 ws ≡ k = omega (arith, e) in
      rw e' (
        at_position-All k (push_address a) ws
          (λ w at_k q.
            push_address-WalletIndexed a w
              (free_at fits a.address_index ws k w free at_k (cc (at, at_k, fit))) q)
          h)
]

find-both :
    (p q : User → Bool) (ds : List User) (d : User)
    → find p ds ≡ some d
    → q d ≡ true
    → find (λ u. p u && q u) ds ≡ some d
find-both p q [] d e h = absurd (cc)
find-both p q (x ∷ xs) d e h = ground (arith, find-both p q xs d)

has_parts-any :
    (currency network index : ℕ) (u : User)
    → any (is_wallet currency network index) u.wallets ≡ true
    → has_parts currency network index u ≡ true
unfolding has_parts is_wallet
has_parts-any currency network index u h = parts u.wallets h
  where
    parts :
        (ws : List Wallet)
        → any
            (λ (w : Wallet).
              w.currency_id == currency && w.network_id == network && w.wallet_index == index)
            ws
          ≡ true
        → (any (λ (w : Wallet). w.currency_id == currency) ws
            && any (λ (w : Wallet). w.network_id == network) ws
            && any (λ (w : Wallet). w.wallet_index == index) ws)
          ≡ true
    parts [] h = h
    parts (w ∷ ws) h = ground (arith, parts ws)

module _ (c : Collection User) where
  abbrev pub AllIndexed : c.State → Type 0
  AllIndexed s = All UserIndexed (c.docs s)

  add_for-AllIndexed :
      (a token : Str) (currency network index address_index : ℕ) (clock : Clock) (user : User)
      (s : c.State)
      → c.find_one (has_jwt token) s ≡ ok user
      → any (is_wallet currency network index) user.wallets ≡ true
      → AllIndexed s
      → AllIndexed (add_for c a token currency network index address_index clock (ok user) s).state
  unfolding add_for
  add_for-AllIndexed a token currency network index address_index clock user s read some_fits h =
      elim (Bool-cases
        (index_is_taken (is_wallet currency network index) address_index user.wallets)) [
          | inl taken ↦ rw taken h
          | inr free ↦ rw free (pushed free)
        ]
    where
      addr : Address
      addr = record { address_index = address_index; address = a; last_action_time = clock.seconds }

      sel : User → Bool
      sel u = has_jwt token u && has_parts currency network index u

      change : User → User
      change u = record u {
        wallets =
            at_position (last_position (is_wallet currency network index) 0 0 user.wallets)
              (push_address addr) u.wallets;
      }

      pushed :
          index_is_taken (is_wallet currency network index) address_index user.wallets ≡ false
          → AllIndexed (c.update sel change s).1
      pushed free = elim (update-cases c sel change s) [
        | inl same ↦ rw same h
        | inr changed ↦ rw changed (
            modify_found-All UserIndexed sel change (c.docs s) user
              (find-both (has_jwt token) (has_parts currency network index) (c.docs s) user
                (c.find_one_ok (has_jwt token) s user read)
                (has_parts-any currency network index user some_fits))
              (λ q.
                added-UserIndexed (is_wallet currency network index) addr user.wallets some_fits
                  free q)
              h)
      ]

  -- A request that adds an address to a wallet that the user has keeps the addresses of every wallet
  -- apart by their index, whether the index was free or not, and however the write ends.
  pub add_address_to_wallet-AllIndexed :
      (a token : Str) (currency network index address_index : ℕ) (clock : Clock) (user : User)
      (s : c.State)
      → c.find_one (has_jwt token) s ≡ ok user
      → any (is_wallet currency network index) user.wallets ≡ true
      → AllIndexed s
      → AllIndexed
          (add_address_to_wallet c a token currency network index address_index clock s).state
  unfolding add_address_to_wallet
  add_address_to_wallet-AllIndexed a token currency network index address_index clock user s read
        some_fits h =
      rw read (
        add_for-AllIndexed a token currency network index address_index clock user s read some_fits
          h)
