-- ===== src/Bits/Table.antt =====
-- Facts about words with a single one, by evaluation at the powers of two.
use qf.Prelude.{
  ℕ, zero, suc, ◌^◌, ◌≤◌, ◌<◌, ◌≡◌, refl, sym, ◌∙◌, arith, Bool, true, false, ◌&&◌, ◌||◌, ◌==◌,
  List, [], ◌∷◌, Bool-cases, inl, inr, ==_iff,
}
use native.Mathlib.Nat.{pow-le-pow_right, le_trans}
use native.Mathlib.Decide.{dec_lt}
use qf.Bits.Count.{ones, ones-eq-one}

-- `p` holds below `n`.
unfoldable pub holds_below : ℕ → (ℕ → Bool) → Bool
holds_below zero p = true
holds_below (suc n) p = p n && holds_below n p

pub holds_below_at : (n : ℕ) (p : ℕ → Bool) (x : ℕ) → holds_below n p ≡ true → x < n → p x ≡ true
unfolding holds_below
holds_below_at zero p x h below = absurd (omega arith)
holds_below_at (suc n) p x h below = ground (arith, holds_below_at n p x)

-- Both tests agree.
abbrev pub agree : Bool → Bool → Bool
agree true b = b
agree false true = false
agree false false = true

agree→eq : (a b : Bool) → agree a b ≡ true → a ≡ b
agree→eq true true h = refl
agree→eq true false h = cc
agree→eq false true h = cc
agree→eq false false h = refl

unfoldable pub elem : ℕ → List ℕ → Bool
elem x [] = false
elem x (y ∷ ys) = x == y || elem x ys

unfoldable pub all_of : (ℕ → Bool) → List ℕ → Bool
all_of p [] = true
all_of p (x ∷ xs) = p x && all_of p xs

pub all_of-elem :
    (p : ℕ → Bool) (xs : List ℕ) (x : ℕ) → all_of p xs ≡ true → elem x xs ≡ true → p x ≡ true
unfolding all_of elem
all_of-elem p [] x h k = cc
all_of-elem p (y ∷ ys) x h k = ground (arith, all_of-elem p ys x, ==_iff x y)

exponent-lt : (k v : ℕ) → 2 ^ k < 2 ^ v → k < v
exponent-lt k v h = elim (dec_lt k v) [
  | yes below ↦ below
  | no above ↦
      absurd (omega (arith, pow-le-pow_right {n = 2} (omega arith) {i = v} {j = k} (omega arith)))
]

-- Two tests that fail at every word whose population count is not one, and agree at the powers
-- of two below `2 ^ v`, agree at every word below `2 ^ v`.
pub eq_of_single_bits :
    (w v : ℕ) (f g : ℕ → Bool)
    → v ≤ w
    → ((x : ℕ) → (ones w x == 1) ≡ false → f x ≡ false)
    → ((x : ℕ) → (ones w x == 1) ≡ false → g x ≡ false)
    → holds_below v (λ k. agree (f (2 ^ k)) (g (2 ^ k))) ≡ true
    → (x : ℕ) → x < 2 ^ v
    → f x ≡ g x
eq_of_single_bits w v f g fits none_f none_g table x hx = elim (Bool-cases (ones w x == 1)) [
  | inl single ↦
      let (k, below, power) =
        ones-eq-one w x (le_trans hx (pow-le-pow_right {n = 2} (omega arith) fits))
          ((==_iff _ _).0 single) in
      let small : k < v = exponent-lt k v (rw power at hx) in
      rw power (agree→eq _ _ (holds_below_at v _ k table small))
  | inr other ↦ none_f x other ∙ sym (none_g x other)
]

-- A word of a list of powers of two has population count one.
pub elem-false :
    (w : ℕ) (xs : List ℕ) (x : ℕ)
    → all_of (λ y. ones w y == 1) xs ≡ true
    → (ones w x == 1) ≡ false
    → elem x xs ≡ false
elem-false w xs x all other = elim (Bool-cases (elem x xs)) [
  | inl found ↦ cc (all_of-elem (λ y. ones w y == 1) xs x all found)
  | inr missing ↦ missing
]
