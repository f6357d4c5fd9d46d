-- ===== src/String8/Order.antt =====
-- What the operators of RS485/tl/native_client/jni/utils/String8.h say of two texts.
use qf.Prelude.{
  ℕ, zero, suc, ◌+◌, ◌-◌, ◌%◌, ◌^◌, ◌<◌, ◌≤◌, ◌≡◌, ◌↔◌, refl, sym, ap, ◌∙◌, arith, List, [], ◌∷◌,
  Option, none, some, Bool, true, false, not, ltb, ◌==◌, if◌then◌else◌, ==_iff, Bool-cases,
  Option-cases, inl, inr,
}
use qf.Prelude
use qf.String8.{
  Memory, String8, Sign, negative, zero_sign, positive, is_negative, is_zero, is_positive, size,
  is_empty, size_from_data, buffer_from_data, less, at_most, equals, differs, at_least, greater,
  length,
}
use qf.String8.Dictionary.{Precedes, lex-Precedes}
use qf.String8.Text.{IsString, lex, strcmp-lex, flipped, lex-zero_sign, lex-flipped}

is_zero-zero_sign : (c : Sign) → is_zero c ≡ true → c ≡ zero_sign
is_zero-zero_sign negative e = cc e
is_zero-zero_sign zero_sign e = refl
is_zero-zero_sign positive e = cc e

is_positive-flipped : (c : Sign) → is_positive (flipped c) ≡ is_negative c
is_positive-flipped negative = refl
is_positive-flipped zero_sign = refl
is_positive-flipped positive = refl

module _ (fuel : ℕ) (m : Memory) where
  -- With more fuel than bytes in the first text, `==` and `!=` on two strings without a 0 byte
  -- return: `==` is whether the texts are the same, and `!=` the opposite.
  pub equals-same :
      (s t : String8) (x y : List ℕ)
      → Prelude.length x < fuel
      → IsString m s x
      → IsString m t y
      → (b : Bool) × (equals fuel s t m ≡ some b)
        × (differs fuel s t m ≡ some (not b))
        × ((b ≡ true) ↔ (x ≡ y))
  unfolding equals differs
  equals-same s t x y enough h k =
      let e = strcmp-lex fuel m s.string t.string x y enough h.text k.text in
      (
        is_zero (lex x y),
        rw e refl,
        rw e refl,
        (
          λ on. (lex-zero_sign x y).0 (is_zero-zero_sign (lex x y) on),
          λ same. ap is_zero ((lex-zero_sign x y).1 same),
        ),
      )

  -- With more fuel than bytes in either text, the four other operators on two strings without a 0
  -- byte return: `s < t` and `t > s` are whether the text of `s` stands before that of `t` in a
  -- dictionary, and `s >= t` and `t <= s` are the opposite.
  pub less-Precedes :
      (s t : String8) (x y : List ℕ)
      → Prelude.length x < fuel
      → Prelude.length y < fuel
      → IsString m s x
      → IsString m t y
      → (b : Bool) × (less fuel s t m ≡ some b)
        × (greater fuel t s m ≡ some b)
        × (at_least fuel s t m ≡ some (not b))
        × (at_most fuel t s m ≡ some (not b))
        × ((b ≡ true) ↔ Precedes x y)
  unfolding less greater at_least at_most
  less-Precedes s t x y enough enough' h k =
      let e = strcmp-lex fuel m s.string t.string x y enough h.text k.text in
      let f = strcmp-lex fuel m t.string s.string y x enough' k.text h.text in
      let back = ap is_positive (lex-flipped x y) ∙ is_positive-flipped (lex x y) in
      (
        is_negative (lex x y),
        rw e refl,
        rw f (ap some back),
        rw e refl,
        rw f (ap (λ b. some (not b)) back),
        lex-Precedes x y,
      )

module _ (m : Memory) where
  -- `size` is the number of bytes of the text, and `isEmpty` whether there is none.
  pub size-IsString :
      (s : String8) (x : List ℕ)
      → IsString m s x
      → (size s m ≡ some (Prelude.length x)) × (is_empty s m ≡ some (Prelude.length x == 0))
  unfolding size is_empty length size_from_data buffer_from_data
  size-IsString s x h =
      let set : (s.string == 0) ≡ false = ground (arith, h.address) in
      let back : (suc (Prelude.length x) + (2 ^ 32 - 1)) % 2 ^ 32 ≡ Prelude.length x =
        omega (arith, h.small) in
      (rw set (rw h.header (ap some back)), rw set (rw h.header (ap (λ n. some (n == 0)) back)))
