-- ===== src/Human.antt =====
-- The text of an amount in a push message: `Reverse` and the trimming loop of `convertToHuman`, in
-- client/utils.go. The text of the quotient, `n.Quo(n, divider).Text('f', 15)`, is an argument.
pub mod Reverse
pub mod Trim
mod Tests
use multy_back.Prelude.{
  ℕ, zero, suc, ◌+◌, ◌-◌, ◌/◌, Bool, true, false, not, ◌&&◌, ◌||◌, List, [], ◌∷◌, ◌++◌, Str, ◌==◌,
  length, get_or, set, if◌then◌else◌,
}

-- `r[i], r[j] = r[j], r[i]`
unfoldable pub swap : ℕ → ℕ → Str → Str
swap i j r = set (set r i (get_or r j 0)) j (get_or r i 0)

-- The rounds with `i < len(r)/2`.
unfoldable pub reverse_loop : ℕ → ℕ → ℕ → Str → Str
unfolding swap
reverse_loop zero i j r = r
reverse_loop (suc rounds) i j r = reverse_loop rounds (i + 1) (j - 1) (swap i j r)

unfoldable pub reverse : Str → Str
reverse s = reverse_loop (length s / 2) 0 (length s - 1) s

-- The loop over the reversed text: `flag` goes up at the first character that counts.
unfoldable pub human_loop : Bool → Str → Str → Str
human_loop flag hu [] = hu
human_loop flag hu (ch ∷ s) =
    let flag' = flag || (not (ch == b'0') && not (ch == b'.')) in
    human_loop flag' (if flag' then hu ++ ch ∷ [] else hu) s

-- `convertToHuman`, from the text of the quotient.
unfoldable pub convert_to_human : Str → Str
convert_to_human quotient = reverse (human_loop false [] (reverse quotient))
