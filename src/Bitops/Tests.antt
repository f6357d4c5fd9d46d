-- ===== src/Bitops/Tests.antt =====
-- The bitmask operations on an array of two words.
use qf.Prelude.{ℕ, zero, suc, ◌≡◌, arith, List, [], ◌∷◌, Option, some}
use qf.Bitops.{bitmask_ffz}
use qf.Bitops.First.{IsWords, IsFirstClear, bitmask_ffz-IsFirstClear}

abbrev words : List ℕ
words = 0xffffffff ∷ 0x17 ∷ []

words-IsWords : IsWords words
words-IsWords zero w e = ground (arith, e)
words-IsWords (suc zero) w e = ground (arith, e)
words-IsWords (suc (suc i)) w e = cc e

bitmask_ffz-IsFirstClear_example :
    (r : Option ℕ) × (bitmask_ffz words 40 ≡ some r) × IsFirstClear words 40 r
bitmask_ffz-IsFirstClear_example = bitmask_ffz-IsFirstClear words 40 words-IsWords (omega arith)
