-- ===== src/Fees/Average.antt =====
-- The averages of the slices of a descending list.
use multy_back.Prelude.{
  ℕ, zero, suc, ◌+◌, ◌-◌, ◌*◌, ◌/◌, ◌^◌, ◌≤◌, ◌<◌, ◌≡◌, refl, ◌∙◌, subst, true, List, [], ◌∷◌, some,
  arith, leb, le→leb, length, length-take, length-drop, get_or, take, drop, All, All-take, All-drop,
}
use multy_back.Fees.Defs.{i64_add, total_from, average, slice, average_slice}
use multy_back.Fees.Order.{IsDescending}

-- A fee of at most 2 ^ 52 (4.5 million gwei): the sum of 1400 of them fits an int64.
abbrev pub IsModest : ℕ → Type 0
IsModest x = x ≤ 2 ^ 52

abbrev sum : List ℕ → ℕ
sum [] = 0
sum (x ∷ xs) = x + sum xs

sum-IsModest : (xs : List ℕ) → All IsModest xs → sum xs ≤ length xs * 2 ^ 52
sum-IsModest [] h = omega arith
sum-IsModest (x ∷ xs) (p, h) = omega (arith, sum-IsModest xs h)

sum-ge : (lo : ℕ) (xs : List ℕ) → All (λ x. lo ≤ x) xs → length xs * lo ≤ sum xs
sum-ge lo [] h = omega arith
sum-ge lo (x ∷ xs) (p, h) = omega (arith, sum-ge lo xs h)

sum-le : (hi : ℕ) (xs : List ℕ) → All (λ x. x ≤ hi) xs → sum xs ≤ length xs * hi
sum-le hi [] h = omega arith
sum-le hi (x ∷ xs) (p, h) = omega (arith, sum-le hi xs h)

total_from-sum : (acc : ℕ) (xs : List ℕ) → acc + sum xs < 2 ^ 64 → total_from acc xs ≡ acc + sum xs
unfolding total_from
total_from-sum acc [] h = omega arith
total_from-sum acc (x ∷ xs) h =
    let step : i64_add acc x ≡ acc + x = unfold i64_add in (omega arith) in
    rw step (omega (arith, total_from-sum (acc + x) xs (omega arith)))

-- With no more than 1400 fees nothing wraps around.
average_exact :
    (xs : List ℕ)
    → 0 < length xs
    → length xs ≤ 1400
    → All IsModest xs
    → average xs ≡ some (sum xs / length xs)
unfolding average
average_exact xs h few small = ground (arith, total_from-sum 0 xs, sum-IsModest xs small)

div-ge : (lo s n : ℕ) → 0 < n → n * lo ≤ s → lo ≤ s / n
div-ge lo s n p h = grind arith

div-le : (hi s n : ℕ) → 0 < n → s ≤ n * hi → s / n ≤ hi
div-le hi s n p h = grind arith

-- An average lies between the bounds of what it is taken of.
average_between :
    (lo hi : ℕ) (xs : List ℕ)
    → 0 < length xs
    → length xs ≤ 1400
    → All IsModest xs
    → All (λ x. lo ≤ x) xs
    → All (λ x. x ≤ hi) xs
    → (a : ℕ) × (average xs ≡ some a) × (lo ≤ a) × (a ≤ hi)
average_between lo hi xs h few small above below = (
  sum xs / length xs,
  average_exact xs h few small,
  div-ge lo (sum xs) (length xs) h (sum-ge lo xs above),
  div-le hi (sum xs) (length xs) h (sum-le hi xs below),
)

IsDescending-drop : (n : ℕ) (xs : List ℕ) → IsDescending xs → IsDescending (drop n xs)
IsDescending-drop zero xs d = d
IsDescending-drop (suc n) [] d = tt
IsDescending-drop (suc n) (x ∷ xs) (top, d) = IsDescending-drop n xs d

get_or-le : (x : ℕ) (xs : List ℕ) (n : ℕ) → All (λ y. y ≤ x) xs → get_or xs n 0 ≤ x
get_or-le x [] n h = omega arith
get_or-le x (y ∷ ys) zero (p, h) = p
get_or-le x (y ∷ ys) (suc n) (p, h) = get_or-le x ys n h

-- The head of a descending list is its largest element, and what is taken is above what follows.
below_head : (xs : List ℕ) → IsDescending xs → All (λ y. y ≤ get_or xs 0 0) xs
below_head [] d = tt
below_head (x ∷ xs) (top, d) = (omega arith, top)

take_above :
    (n : ℕ) (xs : List ℕ) → IsDescending xs → All (λ y. get_or xs n 0 ≤ y) (take (suc n) xs)
take_above n [] d = tt
take_above zero (x ∷ xs) (top, d) = (omega arith, tt)
take_above (suc n) (x ∷ xs) (top, d) = (get_or-le x xs n top, take_above n xs d)

pub get_or-antitone : (xs : List ℕ) (i : ℕ) → IsDescending xs → get_or xs (suc i) 0 ≤ get_or xs i 0
get_or-antitone [] i d = omega arith
get_or-antitone (x ∷ xs) zero (top, d) = get_or-le x xs zero top
get_or-antitone (x ∷ xs) (suc i) (top, d) = get_or-antitone xs i d

get_or-drop : (n i : ℕ) (xs : List ℕ) → get_or (drop n xs) i 0 ≡ get_or xs (n + i) 0
get_or-drop zero i xs = let e : 0 + i ≡ i = omega arith in rw e
get_or-drop (suc n) i [] = refl
get_or-drop (suc n) i (x ∷ xs) =
    let e : suc n + i ≡ suc (n + i) = omega arith in rw e (get_or-drop n i xs)

average_slice-average :
    (xs : List ℕ) (lo n : ℕ)
    → lo + n ≤ length xs
    → average_slice xs lo (lo + n) ≡ average (take n (drop lo xs))
unfolding average_slice slice
average_slice-average xs lo n h =
    let e : lo + n - lo ≡ n = omega arith in
    let below : leb lo (lo + n) ≡ true = le→leb lo (lo + n) (omega arith) in
    rw (below, le→leb (lo + n) (length xs) h, e)

-- The average of a slice of a descending list lies between its last and its first element.
pub average_slice_between :
    (xs : List ℕ) (lo n : ℕ)
    → lo + suc n ≤ length xs
    → suc n ≤ 1400
    → IsDescending xs
    → All IsModest xs
    → (a : ℕ) × (average_slice xs lo (lo + suc n) ≡ some a)
      × (get_or xs (lo + n) 0 ≤ a)
      × (a ≤ get_or xs lo 0)
average_slice_between xs lo n fits few d small =
    let rest = drop lo xs in
    let falls : IsDescending rest = IsDescending-drop lo xs d in
    let size : length (take (suc n) rest) ≡ suc n =
      omega (arith, length-take (suc n) rest, length-drop lo xs) in
    let modest : All IsModest (take (suc n) rest) =
      All-take IsModest (suc n) rest (All-drop IsModest lo xs small) in
    let (a, e, above, below) =
      average_between (get_or rest n 0) (get_or rest 0 0) (take (suc n) rest) (omega arith)
        (omega arith) modest (take_above n rest falls)
        (All-take (λ y. y ≤ get_or rest 0 0) (suc n) rest (below_head rest falls)) in
    let first : lo + 0 ≡ lo = omega arith in
    (
      a,
      average_slice-average xs lo (suc n) fits ∙ e,
      rw (← get_or-drop lo n xs) above,
      subst (λ t. a ≤ get_or xs t 0) first (rw (← get_or-drop lo 0 xs) below),
    )
