-- ===== src/Human/Trim.antt =====
-- `convertToHuman` trims zeros and points at the end.
use mathlib.Core.List as L
use multy_back.Prelude.{
  ℕ, Bool, true, false, ◌||◌, ◌≡◌, refl, sym, ap, ◌∙◌, [], ◌∷◌, ◌++◌, append-nil, append_assoc, Str,
  ◌==◌, all, arith,
}
use multy_back.Human.{human_loop, convert_to_human}
use multy_back.Human.Reverse.{reverse-reverse}

-- A character that the loop drops at the end of the text.
abbrev pub is_padding : ℕ → Bool
is_padding ch = (ch == b'0') || (ch == b'.')

human_loop-true : (hu s : Str) → human_loop true hu s ≡ hu ++ s
unfolding human_loop
human_loop-true hu [] = sym (append-nil hu)
human_loop-true hu (ch ∷ s) = human_loop-true (hu ++ ch ∷ []) s ∙ append_assoc hu (ch ∷ []) s

human_loop_padding :
    (pad s : Str)
    → all is_padding pad ≡ true
    → human_loop false [] (pad ++ s) ≡ human_loop false [] s
unfolding human_loop
human_loop_padding [] s h = refl
human_loop_padding (ch ∷ pad) s h = ground (arith, human_loop_padding pad s)

human_loop_kept : (ch : ℕ) (s : Str) → is_padding ch ≡ false → human_loop false [] (ch ∷ s) ≡ ch ∷ s
unfolding human_loop
human_loop_kept ch s h = ground (arith, human_loop-true (ch ∷ []) s)

all-append :
    (xs ys : Str)
    → all is_padding xs ≡ true
    → all is_padding ys ≡ true
    → all is_padding (xs ++ ys) ≡ true
all-append [] ys h k = k
all-append (x ∷ xs) ys h k = ground (arith, all-append xs ys)

all-reverse : (xs : Str) → all is_padding xs ≡ true → all is_padding (L.reverse xs) ≡ true
all-reverse [] h = refl
all-reverse (x ∷ xs) h =
    rw (L.reverse-cons x xs)
      (all-append (L.reverse xs) (x ∷ []) (all-reverse xs (ground arith)) (ground arith))

-- From a text whose last character that is neither '0' nor '.' is `ch`, `convertToHuman` drops
-- exactly what follows it.
pub convert_to_human-trims :
    (kept : Str) (ch : ℕ) (pad : Str)
    → is_padding ch ≡ false
    → all is_padding pad ≡ true
    → convert_to_human ((kept ++ ch ∷ []) ++ pad) ≡ kept ++ ch ∷ []
unfolding convert_to_human
convert_to_human-trims kept ch pad h k =
    rw
      (
        reverse-reverse ((kept ++ ch ∷ []) ++ pad),
        L.reverse-append (kept ++ ch ∷ []) pad,
        human_loop_padding (L.reverse pad) (L.reverse (kept ++ ch ∷ [])) (all-reverse pad k),
        L.reverse-append kept (ch ∷ []),
        human_loop_kept ch (L.reverse kept) h,
        reverse-reverse (ch ∷ L.reverse kept),
        L.reverse-cons ch (L.reverse kept),
        L.reverse-reverse kept,
      )
      refl

-- Of a text that has only zeros and points nothing is left: the amount nought is the empty text.
pub convert_to_human_nothing : (pad : Str) → all is_padding pad ≡ true → convert_to_human pad ≡ []
unfolding convert_to_human human_loop
convert_to_human_nothing pad h =
    let shown : human_loop false [] (L.reverse pad) ≡ [] =
      ap (human_loop false []) (sym (append-nil (L.reverse pad)))
      ∙ human_loop_padding (L.reverse pad) [] (all-reverse pad h) in
    rw (reverse-reverse pad, shown) (reverse-reverse [])
