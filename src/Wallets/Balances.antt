-- ===== src/Wallets/Balances.antt =====
-- Which deletions the balance stops.
use multy_back.Prelude.{ℕ, ◌+◌, Bool, not, ◌&&◌, ◌==◌, if◌then◌else◌, any, List, [], ◌∷◌, Str}
use multy_back.Store.Schemas.{Address, Wallet}
use multy_back.Store.Collection.{Collection}

-- The sum of a wallet's balances, and over the wallets with an index, without overflow.
abbrev pub wallet_sum : (Str → ℕ) → List Address → ℕ
wallet_sum balance [] = 0
wallet_sum balance (x ∷ xs) = balance x.address + wallet_sum balance xs

abbrev pub index_sum : (Str → ℕ) → ℕ → List Wallet → ℕ
index_sum balance index [] = 0
index_sum balance index (w ∷ ws) =
    (if w.wallet_index == index then wallet_sum balance w.addresses else 0)
    + index_sum balance index ws

-- An address of a wallet with the index has a balance.
abbrev pub is_funded : (Str → ℕ) → Address → Bool
is_funded balance x = not (balance x.address == 0)

abbrev pub is_funded_at : (Str → ℕ) → ℕ → Wallet → Bool
is_funded_at balance index w = w.wallet_index == index && any (is_funded balance) w.addresses
