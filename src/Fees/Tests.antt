-- ===== src/Fees/Tests.antt =====
-- The fee theorems on small pools, and runs of `fetchMempool`.
use mathlib.Core.List.{Permᴰ}
use multy_back.Prelude.{
  i64_gt, ℕ, ◌*◌, ◌/◌, ◌≡◌, refl, List, [], ◌∷◌, some, arith, length, replicate,
}
use multy_back.Fees.{fetch_quantile, fetch_mempool, sort_fees, average, insert_fee}
use multy_back.Fees.Quantile.{fetch_quantile_exact}
use multy_back.Fees.Estimate.{Ordered, fetch_mempool-IsOrdered, fetch_mempool-perm}

abbrev small_pool : List ℕ
small_pool = 30 ∷ 50 ∷ 10 ∷ []

abbrev hundred_fees : List ℕ
hundred_fees = replicate 101 7

fetch_quantile_exact_example :
    let q = fetch_quantile hundred_fees in
    (q.q₀ ≡ length hundred_fees / 10)
    × (q.q₁ ≡ (9 * length hundred_fees) / 40)
    × (q.q₂ ≡ 2 * ((9 * length hundred_fees) / 40))
    × (q.q₃ ≡ 4 * ((9 * length hundred_fees) / 40))
fetch_quantile_exact_example = fetch_quantile_exact hundred_fees (omega arith)

fetch_mempool-IsOrdered_example : Ordered (fetch_mempool small_pool)
fetch_mempool-IsOrdered_example = fetch_mempool-IsOrdered small_pool (omega arith)

fetch_mempool-perm_example : fetch_mempool (30 ∷ 50 ∷ []) ≡ fetch_mempool (50 ∷ 30 ∷ [])
fetch_mempool-perm_example =
    fetch_mempool-perm (30 ∷ 50 ∷ []) (50 ∷ 30 ∷ []) ∣ Permᴰ.swap refl refl ∣₁ (omega arith)

sort_fees_small : sort_fees small_pool ≡ 50 ∷ 30 ∷ 10 ∷ []
unfolding sort_fees insert_fee i64_gt
sort_fees_small = refl

average_small : average small_pool ≡ some 30
unfolding average
average_small = refl
