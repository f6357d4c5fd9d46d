-- ===== src/String8/Dictionary.antt =====
-- The order of texts in a dictionary, for RS485/tl/native_client/jni/utils/String8.h.
use qf.Prelude.{
  ℕ, ◌<◌, ◌≡◌, ◌↔◌, refl, sym, ap, arith, List, [], ◌∷◌, ◌++◌, true, false, ltb, ◌==◌, ==_iff,
  Bool-cases, inl, inr,
}
use qf.String8.{negative, is_negative}
use qf.String8.Text.{lex}

-- `x` stands before `y`: `y` goes on where `x` ends, or the first byte in which they differ is the
-- smaller one in `x`.
pub data Precedes (x y : List ℕ) : Type 0 where
  shorter : (b : ℕ) (v : List ℕ) → y ≡ x ++ b ∷ v → Precedes x y
  smaller :
      (p : List ℕ) (a b : ℕ) (u v : List ℕ) → x ≡ p ++ a ∷ u → y ≡ p ++ b ∷ v → a < b → Precedes x y

lex-shorter : (x : List ℕ) (b : ℕ) (v : List ℕ) → lex x (x ++ b ∷ v) ≡ negative
lex-shorter [] b v = refl
lex-shorter (c ∷ x) b v = let same : (c == c) ≡ true = ground arith in rw same (lex-shorter x b v)

lex-smaller :
    (p : List ℕ) (a b : ℕ) (u v : List ℕ) → a < b → lex (p ++ a ∷ u) (p ++ b ∷ v) ≡ negative
lex-smaller [] a b u v less =
    let other : (a == b) ≡ false = ground (arith, less) in
    let on : ltb a b ≡ true = ground (arith, less) in rw (other, on) refl
lex-smaller (c ∷ p) a b u v less =
    let same : (c == c) ≡ true = ground arith in rw same (lex-smaller p a b u v less)

Precedes-cons : (a : ℕ) (t u : List ℕ) → Precedes t u → Precedes (a ∷ t) (a ∷ u)
Precedes-cons a t u (shorter b v e) = shorter b v (ap (λ l. a ∷ l) e)
Precedes-cons a t u (smaller p c b w v e f less) =
    smaller (a ∷ p) c b w v (ap (λ l. a ∷ l) e) (ap (λ l. a ∷ l) f) less

negative-Precedes : (x y : List ℕ) → is_negative (lex x y) ≡ true → Precedes x y
negative-Precedes [] [] e = cc e
negative-Precedes [] (b ∷ u) e = shorter b u refl
negative-Precedes (a ∷ t) [] e = cc e
negative-Precedes (a ∷ t) (b ∷ u) e = elim (Bool-cases (a == b)) [
  | inl same ↦
      let rest = Precedes-cons a t u (negative-Precedes t u (rw same at e)) in
      let head : a ≡ b = (==_iff a b).0 same in rw (sym head) rest
  | inr other ↦ elim (Bool-cases (ltb a b)) [
    | inl on ↦ smaller [] a b t u refl refl (ground (arith, on))
    | inr off ↦ let e' : false ≡ true = rw (other, off) at e in cc e'
  ]
]

Precedes-negative : (x y : List ℕ) → Precedes x y → is_negative (lex x y) ≡ true
Precedes-negative x y (shorter b v e) = rw e (ap is_negative (lex-shorter x b v))
Precedes-negative x y (smaller p a b u v e f less) =
    rw (e, f) (ap is_negative (lex-smaller p a b u v less))

-- The comparison of two texts is negative when the first stands before the second.
pub lex-Precedes : (x y : List ℕ) → (is_negative (lex x y) ≡ true) ↔ Precedes x y
lex-Precedes x y = (negative-Precedes x y, Precedes-negative x y)
