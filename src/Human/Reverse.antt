-- ===== src/Human/Reverse.antt =====
-- `Reverse` swaps in place, and reverses.
use mathlib.Core.List as L
use multy_back.Prelude.{
  ℕ, zero, suc, ◌+◌, ◌-◌, ◌/◌, ◌*◌, ◌<◌, ◌≡◌, ◌⊎◌, refl, ap, ◌∙◌, [], ◌∷◌, ◌++◌, append-nil,
  append_assoc, arith, length, length-append, Str, set-append, get_or-append, subst,
}
use multy_back.Human.{swap, reverse_loop, reverse}

-- A list that is not empty, taken apart at its end.
unsnoc : (xs : Str) → 0 < length xs → (m : Str) × (y : ℕ) × (xs ≡ m ++ y ∷ [])
unsnoc [] h = absurd (omega arith)
unsnoc (x ∷ []) h = ([], x, refl)
unsnoc (x ∷ z ∷ xs) h =
    let (m, y, e) = unsnoc (z ∷ xs) (omega arith) in (x ∷ m, y, ap (λ t. x ∷ t) e)

swap_head : (x y : ℕ) (m q : Str) → swap 0 (suc (length m)) (x ∷ (m ++ y ∷ q)) ≡ y ∷ (m ++ x ∷ q)
unfolding swap
swap_head x y m q = λ k. get_or-append m y 0 q k ∷ set-append m y x q k

swap-cons : (i j c : ℕ) (r : Str) → swap (suc i) (suc j) (c ∷ r) ≡ c ∷ swap i j r
unfolding swap
swap-cons i j c r = refl

swap_ends :
    (p m q : Str) (x y i j : ℕ)
    → i ≡ length p
    → j ≡ length p + suc (length m)
    → swap i j (p ++ (x ∷ (m ++ y ∷ q))) ≡ (p ++ y ∷ []) ++ (m ++ x ∷ q)
swap_ends [] m q x y i j ei ej =
    let ej' : j ≡ suc (length m) = omega arith in rw (ei, ej') (swap_head x y m q)
swap_ends (c ∷ p) m q x y i j ei ej =
    let ej' : j ≡ suc (length p + suc (length m)) = omega arith in
    rw (ei, ej')
      (swap-cons _ _ c (p ++ (x ∷ (m ++ y ∷ q)))
        ∙ ap (λ t. c ∷ t) (swap_ends p m q x y _ _ refl refl))

halve :
    (n : ℕ) (m : Str) (y : ℕ) (rest : Str)
    → length rest ≡ length m + 1
    → ((suc (length rest) ≡ 2 * suc n) ⊎ (suc (length rest) ≡ 2 * suc n + 1))
    → (length m ≡ 2 * n) ⊎ (length m ≡ 2 * n + 1)
halve n m y rest e size = ground arith

-- One round, from what the rounds after it do.
turn :
    (n : ℕ) (p m rest q : Str) (x y i j : ℕ)
    → rest ≡ m ++ y ∷ []
    → i ≡ length p
    → j ≡ length p + length rest
    → reverse_loop n (i + 1) (j - 1) ((p ++ y ∷ []) ++ (m ++ x ∷ q))
      ≡ (p ++ y ∷ []) ++ (L.reverse m ++ x ∷ q)
    → reverse_loop (suc n) i j (p ++ (x ∷ (rest ++ q))) ≡ p ++ (L.reverse (x ∷ rest) ++ q)
unfolding reverse_loop
turn n p m rest q x y i j e ei ej ih =
    let size : length rest ≡ length m + 1 = omega (arith, ap length e, length-append m (y ∷ [])) in
    let ends : rest ++ q ≡ m ++ y ∷ q = rw e (append_assoc m (y ∷ []) q) in
    let turned : L.reverse (x ∷ rest) ≡ (y ∷ L.reverse m) ++ x ∷ [] =
      rw e (rw (L.reverse-cons x (m ++ y ∷ []), L.reverse-append m (y ∷ []))) in
    rw (ends, turned, swap_ends p m q x y i j ei (omega arith)) (ih ∙ simp append_assoc)

reverse_loop-append :
    (n : ℕ) (p mid q : Str) (i j : ℕ)
    → ((length mid ≡ 2 * n) ⊎ (length mid ≡ 2 * n + 1))
    → i ≡ length p
    → j ≡ length p + length mid - 1
    → reverse_loop n i j (p ++ (mid ++ q)) ≡ p ++ (L.reverse mid ++ q)
unfolding reverse_loop
reverse_loop-append zero p [] q i j size ei ej = refl
reverse_loop-append zero p (x ∷ []) q i j size ei ej = refl
reverse_loop-append zero p (x ∷ z ∷ mid) q i j size ei ej = absurd (omega arith)
reverse_loop-append (suc n) p [] q i j size ei ej = absurd (omega arith)
reverse_loop-append (suc n) p (x ∷ rest) q i j size ei ej =
    let (m, y, e) = unsnoc rest (omega arith) in
    let size' : length rest ≡ length m + 1 = omega (arith, ap length e, length-append m (y ∷ [])) in
    turn n p m rest q x y i j e ei (omega arith) (
      reverse_loop-append n (p ++ y ∷ []) m (x ∷ q) (i + 1) (j - 1) (halve n m y rest size' size)
        (omega (arith, length-append p (y ∷ []))) (omega (arith, length-append p (y ∷ []))))

-- `Reverse` is the reversal of the list.
pub reverse-reverse : (s : Str) → reverse s ≡ L.reverse s
unfolding reverse
reverse-reverse s =
    subst (λ t. reverse_loop (length s / 2) 0 (length s - 1) t ≡ L.reverse s) (append-nil s)
      (reverse_loop-append (length s / 2) [] s [] 0 (length s - 1) (ground arith) refl (omega arith)
        ∙ append-nil (L.reverse s))
