-- ===== src/Currencies.antt =====
-- currencies/: the numbers of the chains and of their networks, the dividers and the seed phrases.
use multy_back.Prelude.{ℕ, Bool, true, false, ◌==◌, if◌then◌else◌}

-- Of the list in currencies.go, the two chains that the back end serves, and Litecoin.
abbrev pub bitcoin : ℕ
bitcoin = 0

abbrev pub litecoin : ℕ
litecoin = 2

abbrev pub ether : ℕ
ether = 60

-- The two networks of Bitcoin, and the two of Ethereum.
abbrev pub main : ℕ
main = 0

abbrev pub test : ℕ
test = 1

abbrev pub eth_main : ℕ
eth_main = 1

abbrev pub eth_test : ℕ
eth_test = 4

abbrev pub satoshi : ℕ
satoshi = 100000000

abbrev pub wei : ℕ
wei = 1000000000000000000

-- A Go map gives the zero value for a missing key.
unfoldable pub dividers : ℕ → ℕ
dividers currency_id =
    if currency_id == bitcoin then satoshi else if currency_id == ether then wei else 0

abbrev pub multy_seed : ℕ
multy_seed = 0

abbrev pub metamask_seed : ℕ
metamask_seed = 1

unfoldable pub is_seed_phrase_type_valid : ℕ → Bool
is_seed_phrase_type_valid t =
    if t == multy_seed then true else if t == metamask_seed then true else false
