-- ===== src/Fees/Defs.antt =====
-- `fetchMempool`, `average`, `fetchQuantile`. The iteration order of the `sync.Map` is the order of
-- the argument.
use multy_back.Prelude.{
  ℕ, zero, suc, ◌+◌, ◌-◌, ◌*◌, ◌/◌, ◌%◌, ◌^◌, ◌&&◌, ◌||◌, Option, none, some, List, [], ◌∷◌, ltb,
  leb, ◌==◌, if◌then◌else◌, length, take, drop, i64_mod, i64_gt, ◌>>=◌,
}

unfoldable pub i64_add : ℕ → ℕ → ℕ
i64_add a b = (a + b) % i64_mod

-- Division by a positive number rounds towards zero.
unfoldable pub i64_div : ℕ → ℕ → ℕ
i64_div a n = if ltb a (2 ^ 63) then a / n else (i64_mod - (i64_mod - a) / n) % i64_mod

-- `sort.Slice` by `>`. Equal numbers are indistinguishable, so every sort gives this list.
unfoldable pub insert_fee : ℕ → List ℕ → List ℕ
insert_fee x [] = x ∷ []
insert_fee x (y ∷ ys) = if i64_gt y x then y ∷ insert_fee x ys else x ∷ y ∷ ys

unfoldable pub sort_fees : List ℕ → List ℕ
sort_fees [] = []
sort_fees (x ∷ xs) = insert_fee x (sort_fees xs)

unfoldable pub total_from : ℕ → List ℕ → ℕ
unfolding i64_add
total_from total [] = total
total_from total (value ∷ fees) = total_from (i64_add total value) fees

-- A division by zero panics.
unfoldable pub average : List ℕ → Option ℕ
unfolding total_from i64_div
average fees = if length fees == 0 then none else some (i64_div (total_from 0 fees) (length fees))

-- `fees[lo:hi]`, where bounds that do not fit panic.
unfoldable pub slice : List ℕ → ℕ → ℕ → Option (List ℕ)
slice fees lo hi =
    if leb lo hi && leb hi (length fees) then some (take (hi - lo) (drop lo fees)) else none

-- The power of two by which a product has to be divided to keep the 24 bits of a float32.
unfoldable pub excess_bits : ℕ → ℕ → ℕ
excess_bits zero p = 0
excess_bits (suc fuel) p =
    let more = suc (excess_bits fuel (p / 2)) in if ltb p (2 ^ 24) then 0 else more

-- Rounding to 24 bits, ties to even.
unfoldable pub round_24 : ℕ → ℕ
unfolding excess_bits
round_24 p =
    let unit = 2 ^ excess_bits 64 p in
    let q = p / unit in
    let r = p % unit in
    if ltb unit (2 * r) || (unit == 2 * r && q % 2 == 1) then (q + 1) * unit else q * unit

-- `int(float32(n) * c)` for `n < 2 ^ 24` and the float32 `c = m / 2 ^ e`.
unfoldable pub scale_f32 : ℕ → ℕ → ℕ → ℕ
unfolding round_24
scale_f32 n m e = round_24 (n * m) / 2 ^ e

-- float32(0.1) is 13421773 / 2 ^ 27, and float32(0.225) is 15099494 / 2 ^ 26.
pub record Quantiles : Type 0 where
  pub q₀ : ℕ
  pub q₁ : ℕ
  pub q₂ : ℕ
  pub q₃ : ℕ
  pub q₄ : ℕ

unfoldable pub fetch_quantile : List ℕ → Quantiles
unfolding scale_f32
fetch_quantile fees =
    let quantile = scale_f32 (length fees) 15099494 26 in
    record {
      q₀ = scale_f32 (length fees) 13421773 27;
      q₁ = quantile;
      q₂ = quantile + quantile;
      q₃ = (quantile + quantile) + (quantile + quantile);
      q₄ = length fees - 1;
    }

pub record EstimationSpeeds : Type 0 where
  pub very_slow : ℕ
  pub slow : ℕ
  pub medium : ℕ
  pub fast : ℕ
  pub very_fast : ℕ

-- `average(fees[lo:hi])`
unfoldable pub average_slice : List ℕ → ℕ → ℕ → Option ℕ
average_slice fees lo hi = do part ← slice fees lo hi; average part

-- The five averages of the slices that the cuts `0 ≤ a ≤ b ≤ c ≤ d ≤ e` delimit.
unfoldable pub speeds_of : List ℕ → ℕ → ℕ → ℕ → ℕ → ℕ → Option EstimationSpeeds
speeds_of fees a b c d e = do
  very_fast ← average_slice fees 0 a
  fast ← average_slice fees a b
  medium ← average_slice fees b c
  slow ← average_slice fees c d
  very_slow ← average_slice fees d e
  some (record {
    very_slow = very_slow;
    slow = slow;
    medium = medium;
    fast = fast;
    very_fast = very_fast;
  })

abbrev pub default_speeds : EstimationSpeeds
default_speeds = record {
  very_slow = 9 * 1000000000;
  slow = 10 * 1000000000;
  medium = 14 * 1000000000;
  fast = 20 * 1000000000;
  very_fast = 25 * 1000000000;
}

-- The cuts of the middle branch.
unfoldable pub quantile_speeds : List ℕ → Option EstimationSpeeds
quantile_speeds fees =
    let q = fetch_quantile fees in speeds_of fees q.q₀ q.q₁ q.q₂ q.q₃ (length fees)

unfoldable pub estimate : List ℕ → Option EstimationSpeeds
estimate fees =
    if ltb 1400 (length fees)
    then speeds_of fees 100 400 700 1000 1300
    else if ltb (length fees) 1400 && ltb 100 (length fees)
    then quantile_speeds fees
    else some default_speeds

unfoldable pub fetch_mempool : List ℕ → Option EstimationSpeeds
fetch_mempool fees = estimate (sort_fees fees)
