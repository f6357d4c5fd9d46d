-- ===== src/String8/Tests.antt =====
-- Strings of RS485/tl/native_client/jni/utils/String8.h in a small memory.
use qf.Prelude.{
  ℕ, ◌+◌, ◌≡◌, ◌↔◌, refl, arith, List, [], ◌∷◌, Option, none, some, Bool, true, not, ◌==◌,
  if◌then◌else◌,
}
use qf.String8.{Address, Memory, String8, equals, differs, less, at_most, at_least, greater}
use qf.String8.Text.{IsString}
use qf.String8.Dictionary.{Precedes}
use qf.String8.Order.{equals-same, less-Precedes}

-- The bytes of a text and a 0 byte, from an address on.
abbrev text_at : Address → List ℕ → (Address → Option ℕ) → Address → Option ℕ
text_at p [] rest q = if q == p then some 0 else rest q
text_at p (c ∷ t) rest q =
    let others = text_at (p + 1) t rest q in if q == p then some c else others

-- "ab" at 116, "b" at 216 and "ba" at 316.
abbrev memory : Memory
memory = record {
  buffers = λ p.
      if p == 100
      then some (record { refs = 1; size = 3 })
      else if p == 200
      then some (record { refs = 2; size = 2 })
      else if p == 300
      then some (record { refs = 1; size = 3 })
      else none;
  bytes =
      text_at 116 (97 ∷ 98 ∷ []) (text_at 216 (98 ∷ []) (text_at 316 (98 ∷ 97 ∷ []) (λ q. none)));
}

abbrev at : Address → String8
at p = record { string = p }

ab-IsString : IsString memory (at 116) (97 ∷ 98 ∷ [])
ab-IsString = record {
  refs = 1;
  address = omega arith;
  small = omega arith;
  header = refl;
  text = (refl, omega arith, (refl, omega arith, refl));
}

b-IsString : IsString memory (at 216) (98 ∷ [])
b-IsString = record {
  refs = 2;
  address = omega arith;
  small = omega arith;
  header = refl;
  text = (refl, omega arith, refl);
}

ba-IsString : IsString memory (at 316) (98 ∷ 97 ∷ [])
ba-IsString = record {
  refs = 1;
  address = omega arith;
  small = omega arith;
  header = refl;
  text = (refl, omega arith, (refl, omega arith, refl));
}

equals-same_example :
    (b : Bool) × (equals 5 (at 116) (at 216) memory ≡ some b)
    × (differs 5 (at 116) (at 216) memory ≡ some (not b))
    × ((b ≡ true) ↔ (◌≡◌ {A = List ℕ} (97 ∷ 98 ∷ []) (98 ∷ [])))
equals-same_example =
    equals-same 5 memory (at 116) (at 216) (97 ∷ 98 ∷ []) (98 ∷ []) (omega arith) ab-IsString
      b-IsString

less-Precedes_example :
    (b : Bool) × (less 5 (at 116) (at 316) memory ≡ some b)
    × (greater 5 (at 316) (at 116) memory ≡ some b)
    × (at_least 5 (at 116) (at 316) memory ≡ some (not b))
    × (at_most 5 (at 316) (at 116) memory ≡ some (not b))
    × ((b ≡ true) ↔ Precedes (97 ∷ 98 ∷ []) (98 ∷ 97 ∷ []))
less-Precedes_example =
    less-Precedes 5 memory (at 116) (at 316) (97 ∷ 98 ∷ []) (98 ∷ 97 ∷ []) (omega arith)
      (omega arith) ab-IsString ba-IsString
