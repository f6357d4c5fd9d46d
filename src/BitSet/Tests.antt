-- ===== src/BitSet/Tests.antt =====
-- The sets of `BitSet32` at concrete words.
use qf.Prelude.{ℕ, ◌+◌, ◌<◌, ◌≡◌, arith, false, ◌==◌, ◌||◌}
use qf.BitSet.{BitSet32, bit_set, has_bit, count, mark_first_unmarked_bit, get_index_of_bit}
use qf.BitSet.Search.{IsFirst, mark_first_unmarked_bit_lem}
use qf.BitSet.Index.{members_before, get_index_of_bit-members_before}

-- Bits 0, 4, 5 and 31.
abbrev word : BitSet32
word = bit_set 0x8c000001

mark_first_unmarked_bit_lem_example :
    let (n, s') = mark_first_unmarked_bit word in
    IsFirst word false n
    × ((m : ℕ) → m < 32 → has_bit s' m ≡ (n == m || has_bit word m))
    × (count s' ≡ count word + 1)
mark_first_unmarked_bit_lem_example = mark_first_unmarked_bit_lem word (omega arith) (omega arith)

get_index_of_bit-members_before_example : get_index_of_bit word 5 ≡ members_before word 5
get_index_of_bit-members_before_example = get_index_of_bit-members_before word 5 (omega arith)
