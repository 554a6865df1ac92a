-- ===== src/Calldata/Blocks.antt =====
-- The split into blocks of 64 characters.
use multy_back.Prelude.{
  ◌+◌, ◌<◌, ◌≡◌, ◌≢◌, [], ◌∷◌, ◌++◌, append_assoc, arith, length, length-append, Str, All,
}
use multy_back.Calldata.Defs.{line_feed, next_match, full_match, blocks_from, blocks}

-- A text on one line.
abbrev pub IsLine : Str → Type 0
IsLine = All (λ c. c ≢ line_feed)

-- The characters that complete a match give one block, and the rest is split anew.
blocks_from-append :
    (cur s rest : Str)
    → IsLine s
    → length cur + length s ≡ 64
    → 0 < length s
    → blocks_from cur (s ++ rest) ≡ (cur ++ s) ∷ blocks_from [] rest
unfolding blocks_from
blocks_from-append cur [] rest line full pos = absurd (omega arith)
blocks_from-append cur (c ∷ []) rest (h, line) full pos = ground arith
blocks_from-append cur (c ∷ d ∷ s) rest (h, line) full pos =
    let next : next_match cur c ≡ cur ++ c ∷ [] = ground arith in
    let none_yet : full_match cur c ≡ [] = ground arith in
    rw (
      next,
      none_yet,
      blocks_from-append (cur ++ c ∷ []) (d ∷ s) rest line
          (omega (arith, length-append cur (c ∷ []))) (omega arith),
      append_assoc,
    )

-- A first block of 64 characters on one line is split off whole.
pub blocks-append : (s rest : Str) → IsLine s → length s ≡ 64 → blocks (s ++ rest) ≡ s ∷ blocks rest
unfolding blocks
blocks-append s rest line full = blocks_from-append [] s rest line (omega arith) (omega arith)
