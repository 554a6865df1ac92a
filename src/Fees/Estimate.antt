-- ===== src/Fees/Estimate.antt =====
-- `fetchMempool` as a whole: it never panics, its speeds are ordered, and the pool's iteration
-- order does not show.
use mathlib.Core.List.{Perm}
use multy_back.Prelude.{
  ℕ, suc, ◌+◌, ◌-◌, ◌≤◌, ◌<◌, ◌≡◌, refl, subst, ap, List, Option, some, arith, length, get_or, ltb,
  ltb→lt, All, All-imp, ◌⊎◌, inl, inr, Bool-cases, true, false, ◌&&◌, if◌then◌else◌,
}
use multy_back.Fees.Defs.{
  EstimationSpeeds, average_slice, speeds_of, quantile_speeds, fetch_quantile, estimate,
  default_speeds, sort_fees, fetch_mempool,
}
use multy_back.Fees.Quantile.{fetch_quantile_increasing}
use multy_back.Fees.Order.{
  IsFee, IsDescending, sort_fees-All, sort_fees-IsDescending, length-sort_fees, perm-sort_fees,
}
use multy_back.Fees.Average.{IsModest, average_slice_between, get_or-antitone}

-- A faster confirmation never has a lower estimate than a slower one.
pub record IsOrdered (s : EstimationSpeeds) : Type 0 where
  pub slow_above : s.very_slow ≤ s.slow
  pub medium_above : s.slow ≤ s.medium
  pub fast_above : s.medium ≤ s.fast
  pub very_fast_above : s.fast ≤ s.very_fast

abbrev pub Ordered : Option EstimationSpeeds → Type 0
Ordered r = (s : EstimationSpeeds) × (r ≡ some s) × IsOrdered s

-- The average of the non-empty slice between two cuts, within the elements at its ends.
slice_between :
    (xs : List ℕ) (lo hi : ℕ)
    → lo < hi
    → hi ≤ length xs
    → hi - lo ≤ 1400
    → IsDescending xs
    → All IsModest xs
    → (a : ℕ) × (average_slice xs lo hi ≡ some a) × (get_or xs hi 0 ≤ a) × (a ≤ get_or xs lo 0)
slice_between xs lo hi h fits few d small =
    let n = hi - lo - 1 in
    let e : lo + suc n ≡ hi = omega arith in
    let (a, p, above, below) = average_slice_between xs lo n (omega arith) (omega arith) d small in
    let e' : suc (lo + n) ≡ hi = omega arith in
    (
      a,
      subst (λ k. average_slice xs lo k ≡ some a) e p,
      omega (arith, get_or-antitone xs (lo + n) d, ap (λ (k : ℕ). get_or xs k 0) e'),
      below,
    )

pub speeds_of-Ordered :
    (xs : List ℕ) (a b c d e : ℕ)
    → 0 < a
    → a < b
    → b < c
    → c < d
    → d < e
    → e ≤ length xs
    → (a ≤ 1400) × (b - a ≤ 1400) × (c - b ≤ 1400) × (d - c ≤ 1400) × (e - d ≤ 1400)
    → IsDescending xs
    → All IsModest xs
    → Ordered (speeds_of xs a b c d e)
unfolding speeds_of
speeds_of-Ordered xs a b c d e ha hb hc hd he fits few falls small =
    let (vf, p₁, l₁, _) = slice_between xs 0 a ha (omega arith) (omega arith) falls small in
    let (f, p₂, l₂, u₂) = slice_between xs a b hb (omega arith) (omega arith) falls small in
    let (m, p₃, l₃, u₃) = slice_between xs b c hc (omega arith) (omega arith) falls small in
    let (s, p₄, l₄, u₄) = slice_between xs c d hd (omega arith) (omega arith) falls small in
    let (vs, p₅, _, u₅) = slice_between xs d e he fits (omega arith) falls small in
    (
      record { very_slow = vs; slow = s; medium = m; fast = f; very_fast = vf },
      rw (p₁, p₂, p₃, p₄, p₅),
      omega arith,
    )

quantile_speeds-Ordered :
    (xs : List ℕ)
    → 100 < length xs
    → length xs < 1400
    → IsDescending xs
    → All IsModest xs
    → Ordered (quantile_speeds xs)
unfolding quantile_speeds
quantile_speeds-Ordered xs lo hi falls small =
    let q = fetch_quantile xs in
    let (h₀, h₁, h₂, h₃, h₄) = fetch_quantile_increasing xs lo hi in
    speeds_of-Ordered xs q.q₀ q.q₁ q.q₂ q.q₃ (length xs) h₀ h₁ h₂ h₃ h₄ (omega arith) (omega arith)
      falls small

estimate-Ordered : (xs : List ℕ) → IsDescending xs → All IsModest xs → Ordered (estimate xs)
unfolding estimate
estimate-Ordered xs falls small = elim (Bool-cases (ltb 1400 (length xs))) [
  | inl many ↦
      let h : 1400 < length xs = ltb→lt 1400 (length xs) many in
      rw many (
        speeds_of-Ordered xs 100 400 700 1000 1300 (omega arith) (omega arith) (omega arith)
          (omega arith) (omega arith) (omega arith) (omega arith) falls small)
  | inr few ↦ rw few (below_gap (Bool-cases (ltb (length xs) 1400 && ltb 100 (length xs))))
]
  where
    below_gap :
        (ltb (length xs) 1400 && ltb 100 (length xs) ≡ true)
          ⊎ (ltb (length xs) 1400 && ltb 100 (length xs) ≡ false)
        → Ordered (
            if ltb (length xs) 1400 && ltb 100 (length xs)
            then quantile_speeds xs
            else some default_speeds)
    below_gap (inl some_fees) =
        rw some_fees (quantile_speeds-Ordered xs (ground arith) (ground arith) falls small)
    below_gap (inr no_fees) = rw no_fees (default_speeds, refl, omega arith)

-- Whatever the pool holds, the estimate returns (no slice bound or division panics), and the five
-- speeds are ordered from very slow to very fast, if no fee is negative or above 2 ^ 52.
pub fetch_mempool-IsOrdered : (fees : List ℕ) → All IsModest fees → Ordered (fetch_mempool fees)
unfolding fetch_mempool
fetch_mempool-IsOrdered fees small =
    let falls : IsDescending (sort_fees fees) =
      sort_fees-IsDescending fees (All-imp (λ x (h : IsModest x). omega arith) fees small) in
    estimate-Ordered (sort_fees fees) falls (sort_fees-All IsModest fees small)

-- The order in which the map is ranged over does not change the estimate, on any two listings of
-- the same fees none of which is negative.
pub fetch_mempool-perm :
    (fees fees' : List ℕ)
    → Perm fees fees'
    → All IsFee fees
    → fetch_mempool fees ≡ fetch_mempool fees'
unfolding fetch_mempool
fetch_mempool-perm fees fees' p h = ap estimate (perm-sort_fees fees fees' p h)

-- A pool of at most 100 transactions gets the built-in speeds, and so does one of exactly 1400,
-- which both of the other branches leave out.
pub fetch_mempool_defaults :
    (fees : List ℕ)
    → (length fees ≤ 100) ⊎ (length fees ≡ 1400)
    → fetch_mempool fees ≡ some default_speeds
unfolding fetch_mempool estimate
fetch_mempool_defaults fees h = ground (arith, length-sort_fees fees)
