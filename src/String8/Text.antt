-- ===== src/String8/Text.antt =====
-- The text of a `String8` of RS485/tl/native_client/jni/utils/String8.h, and the lexicographic order
-- of texts.
use qf.Prelude.{
  ℕ, zero, suc, ◌+◌, ◌-◌, ◌^◌, ◌<◌, ◌≡◌, ◌↔◌, refl, sym, ap, ◌∙◌, arith, List, [], ◌∷◌, some, true,
  false, ltb, ◌==◌, if◌then◌else◌, ==_iff, Bool-cases, inl, inr, length,
}
use qf.String8.{Address, Memory, String8, Sign, negative, zero_sign, positive, sign_of, strcmp}

-- At `p` are the bytes of `t`, none of them 0, and a 0 behind them.
abbrev pub Holds : Memory → Address → List ℕ → Type 0
Holds m p [] = m.bytes p ≡ some 0
Holds m p (c ∷ t) = (m.bytes p ≡ some c) × (0 < c) × Holds m (p + 1) t

-- `s` is the text `t`, in a buffer for it.
pub record IsString (m : Memory) (s : String8) (t : List ℕ) : Type 0 where
  pub refs : ℕ
  pub address : 16 < s.string
  pub small : length t < 2 ^ 32 - 1
  pub header : m.buffers (s.string - 16) ≡ some (record { refs = refs; size = suc (length t) })
  pub text : Holds m s.string t

-- The order of a dictionary.
abbrev pub lex : List ℕ → List ℕ → Sign
lex [] [] = zero_sign
lex [] (b ∷ u) = negative
lex (a ∷ t) [] = positive
lex (a ∷ t) (b ∷ u) = let rest = lex t u in if a == b then rest else sign_of a b

-- With more fuel than bytes in the first text, `strcmp` compares as a dictionary does.
pub strcmp-lex :
    (fuel : ℕ) (m : Memory) (p q : Address) (t u : List ℕ)
    → length t < fuel
    → Holds m p t
    → Holds m q u
    → strcmp fuel p q m ≡ some (lex t u)
strcmp-lex zero m p q t u enough h k = absurd (omega (arith, enough))
strcmp-lex (suc fuel) m p q [] [] enough h k = rw (h, k) refl
strcmp-lex (suc fuel) m p q [] (b ∷ u) enough h (k, more, rest) =
    let apart : (0 == b) ≡ false = ground (arith, more) in
    let less : ltb 0 b ≡ true = ground (arith, more) in rw (h, k) (rw (apart, less) refl)
strcmp-lex (suc fuel) m p q (a ∷ t) [] enough (h, more, rest) k =
    let apart : (a == 0) ≡ false = ground (arith, more) in
    let more : ltb a 0 ≡ false = ground arith in rw (h, k) (rw (apart, more) refl)
strcmp-lex (suc fuel) m p q (a ∷ t) (b ∷ u) enough (h, more, rest) (k, more', rest') =
    elim (Bool-cases (a == b)) [
      | inl same ↦
          let apart : (a == 0) ≡ false = ground (arith, more) in
          rw (h, k)
            (rw (same, apart)
              (strcmp-lex fuel m (p + 1) (q + 1) t u (omega (arith, enough)) rest rest'))
      | inr other ↦ rw (h, k) (rw other refl)
    ]

abbrev pub flipped : Sign → Sign
flipped negative = positive
flipped zero_sign = zero_sign
flipped positive = negative

lex-equal : (t u : List ℕ) → (lex t u ≡ zero_sign) → t ≡ u
lex-equal [] [] e = refl
lex-equal [] (b ∷ u) e = cc e
lex-equal (a ∷ t) [] e = cc e
lex-equal (a ∷ t) (b ∷ u) e = elim (Bool-cases (a == b)) [
  | inl same ↦ let e' = lex-equal t u (rw same at e) in cc (e', (==_iff a b).0 same)
  | inr other ↦ absurd (sign_of_apart a b (rw other at e))
]
  where
    sign_of_apart : (a b : ℕ) → sign_of a b ≡ zero_sign → ⊥
    sign_of_apart a b e = elim (Bool-cases (ltb a b)) [
      | inl on ↦ let e' : negative ≡ zero_sign = rw on at e in cc e'
      | inr off ↦ let e' : positive ≡ zero_sign = rw off at e in cc e'
    ]

lex-same : (t : List ℕ) → lex t t ≡ zero_sign
lex-same [] = refl
lex-same (a ∷ t) = let same : (a == a) ≡ true = ground arith in rw same (lex-same t)

-- Two texts compare as equal when they are the same.
pub lex-zero_sign : (t u : List ℕ) → (lex t u ≡ zero_sign) ↔ (t ≡ u)
lex-zero_sign t u = (lex-equal t u, λ e. ap (lex t) (sym e) ∙ lex-same t)

-- The other way round.
pub lex-flipped : (t u : List ℕ) → lex u t ≡ flipped (lex t u)
lex-flipped [] [] = refl
lex-flipped [] (b ∷ u) = refl
lex-flipped (a ∷ t) [] = refl
lex-flipped (a ∷ t) (b ∷ u) = elim (Bool-cases (a == b)) [
  | inl same ↦
      let back : (b == a) ≡ true = (==_iff b a).1 (sym ((==_iff a b).0 same)) in
      rw (same, back) (lex-flipped t u)
  | inr other ↦
      let back : (b == a) ≡ false = ground (arith, other) in
      elim (Bool-cases (ltb a b)) [
        | inl on ↦
            let off : ltb b a ≡ false = ground (arith, on) in rw (other, back) (rw (on, off) refl)
        | inr off ↦
            let on : ltb b a ≡ true = ground (arith, off, other) in
            rw (other, back) (rw (on, off) refl)
      ]
]
