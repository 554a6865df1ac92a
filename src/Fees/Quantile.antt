-- ===== src/Fees/Quantile.antt =====
-- The float32 arithmetic of `fetchQuantile`, on every length that reaches it.
use multy_back.Prelude.{
  ℕ, ◌*◌, ◌/◌, ◌<◌, ◌≡◌, refl, Bool, true, ◌&&◌, List, arith, ◌==◌, length, table_holds,
  table_holds-entry,
}
use multy_back.Fees.Defs.{scale_f32, fetch_quantile}

-- Rounding to 24 bits never moves a product across the next integer.
exact_at : ℕ → Bool
exact_at n = (scale_f32 n 13421773 27 == n / 10) && (scale_f32 n 15099494 26 == (9 * n) / 40)

exact_table : table_holds exact_at 1400 ≡ true
unfolding exact_at table_holds scale_f32
exact_table = refl

exact_below : (n : ℕ) → n < 1400 → exact_at n ≡ true
exact_below n h = table_holds-entry exact_at 1400 exact_table n h

pub scale_tenth : (n : ℕ) → n < 1400 → scale_f32 n 13421773 27 ≡ n / 10
unfolding exact_at
scale_tenth n h = ground (arith, exact_below n h)

pub scale_quantile : (n : ℕ) → n < 1400 → scale_f32 n 15099494 26 ≡ (9 * n) / 40
unfolding exact_at
scale_quantile n h = ground (arith, exact_below n h)

-- Up to 1399 fees the cuts are 10 per cent of their number, 22.5 per cent, and twice and four times
-- the latter, each percentage rounded down before it is doubled: the float32 arithmetic loses
-- nothing more.
pub fetch_quantile_exact :
    (fees : List ℕ)
    → length fees < 1400
    → let q = fetch_quantile fees in
      (q.q₀ ≡ length fees / 10)
      × (q.q₁ ≡ (9 * length fees) / 40)
      × (q.q₂ ≡ 2 * ((9 * length fees) / 40))
      × (q.q₃ ≡ 4 * ((9 * length fees) / 40))
unfolding fetch_quantile
fetch_quantile_exact fees h =
    omega (arith, scale_tenth (length fees) h, scale_quantile (length fees) h)

-- Between 101 and 1399 fees the cuts are strictly increasing and inside the list.
pub fetch_quantile_increasing :
    (fees : List ℕ)
    → 100 < length fees
    → length fees < 1400
    → let q = fetch_quantile fees in
      (0 < q.q₀) × (q.q₀ < q.q₁) × (q.q₁ < q.q₂) × (q.q₂ < q.q₃) × (q.q₃ < length fees)
unfolding fetch_quantile
fetch_quantile_increasing fees lo hi =
    omega (arith, scale_tenth (length fees) hi, scale_quantile (length fees) hi)
