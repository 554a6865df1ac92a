-- ===== src/Human/Tests.antt =====
-- `convertToHuman` on concrete texts: an amount with decimals, and a round one, which loses its
-- integer zeros.
use multy_back.Prelude.{◌≡◌, refl, [], codes}
use multy_back.Human.{convert_to_human}
use multy_back.Human.Trim.{convert_to_human-trims}

-- A hundred coins are shown as 1.
convert_to_human_round : convert_to_human (codes "100.00") ≡ codes "1"
unfolding convert_to_human
convert_to_human_round = convert_to_human-trims [] b'1' (codes "00.00") refl refl
