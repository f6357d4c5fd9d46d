-- ===== src/Bitops.antt =====
-- The bitmask operations of RS485/tl/native_client/jni/cutils/bitops.h. A bitmask is the list of
-- its 32-bit words; `none` is an access outside the array, which C leaves undefined.
pub mod Marks
pub mod First
pub mod Weight
pub mod Tests
use qf.Prelude.{
  ℕ, zero, suc, ◌+◌, ◌-◌, ◌*◌, ◌/◌, ◌%◌, ◌^◌, Bool, true, false, Option, none, some, List, [], ◌∷◌,
  ◌==◌, ◌!=◌, leb, if◌then◌else◌, ◌&&&◌, ◌|||◌, ◌<<<◌, get_elem?, set,
}
use qf.Bits.Count.{ones}
use qf.Bits.Word.{complement}
use qf.Bits.Scan.{ffs}

infixl 5 ◌>>=◌
abbrev pub ◌>>=◌ {ℓ κ} : {A : Type ℓ} {B : Type κ} → Option A → (A → Option B) → Option B
none >>= k = none
some x >>= k = k x

-- `sizeof(unsigned int) * 8`.
abbrev pub bits_per_word : ℕ
bits_per_word = 32

abbrev pub bits_to_words : ℕ → ℕ
bits_to_words x = (x + bits_per_word - 1) / bits_per_word

abbrev pub bit_in_word : ℕ → ℕ
bit_in_word x = x % bits_per_word

abbrev pub bit_word : ℕ → ℕ
bit_word x = x / bits_per_word

abbrev pub bit_mask : ℕ → ℕ
bit_mask x = 1 <<< bit_in_word x

-- `memset` of the first `n` words.
unfoldable pub zero_words : ℕ → List ℕ → Option (List ℕ)
zero_words zero bitmask = some bitmask
zero_words (suc n) [] = none
zero_words (suc n) (w ∷ bitmask) = do rest ← zero_words n bitmask; some (0 ∷ rest)

unfoldable pub bitmask_init : List ℕ → ℕ → Option (List ℕ)
unfolding zero_words
bitmask_init bitmask num_bits = zero_words (bits_to_words num_bits) bitmask

-- The loop at word `i` with `left` words to go; the result `none` is the -1 of the code.
unfoldable pub ffz_loop : List ℕ → ℕ → ℕ → ℕ → Option (Option ℕ)
ffz_loop bitmask num_bits zero i = some none
ffz_loop bitmask num_bits (suc left) i =
    let rest = ffz_loop bitmask num_bits left (i + 1) in
    do
      word ← get_elem? bitmask i
      let bit = ffs 32 (complement 32 word)
      if bit != 0
          then (let result = bits_per_word * i + (bit - 1) in
              if leb num_bits result then some none else some (some result))
          else rest

unfoldable pub bitmask_ffz : List ℕ → ℕ → Option (Option ℕ)
unfolding ffz_loop
bitmask_ffz bitmask num_bits = ffz_loop bitmask num_bits (bits_to_words num_bits) 0

unfoldable pub popcount : ℕ → ℕ
unfolding ones
popcount x = ones 32 x

-- `unsigned long` has 32 bits on the x86 target of the client.
unfoldable pub popcountl : ℕ → ℕ
unfolding ones
popcountl x = ones 32 x

unfoldable pub popcountll : ℕ → ℕ
unfolding ones
popcountll x = ones 64 x

unfoldable pub weight_loop : List ℕ → ℕ → ℕ → ℕ → Option ℕ
unfolding popcount
weight_loop bitmask zero i weight = some weight
weight_loop bitmask (suc left) i weight = do
  word ← get_elem? bitmask i
  weight_loop bitmask left (i + 1) (weight + popcount word)

unfoldable pub bitmask_weight : List ℕ → ℕ → Option ℕ
unfolding weight_loop
bitmask_weight bitmask num_bits = weight_loop bitmask (bits_to_words num_bits) 0 0

unfoldable pub bitmask_set : List ℕ → ℕ → Option (List ℕ)
bitmask_set bitmask bit = do
  word ← get_elem? bitmask (bit_word bit)
  some (set bitmask (bit_word bit) (word ||| bit_mask bit))

unfoldable pub bitmask_clear : List ℕ → ℕ → Option (List ℕ)
unfolding complement
bitmask_clear bitmask bit = do
  word ← get_elem? bitmask (bit_word bit)
  some (set bitmask (bit_word bit) (word &&& complement 32 (bit_mask bit)))

unfoldable pub bitmask_test : List ℕ → ℕ → Option Bool
bitmask_test bitmask bit = do
  word ← get_elem? bitmask (bit_word bit)
  some ((word &&& bit_mask bit) != 0)
