-- ===== src/LinkedList/Chain.antt =====
-- Which nodes a list of RS485/tl/native_client/jni/utils/List.h holds.
use qf.Prelude.{◌≡◌, ◌≢◌, refl, ap, ◌∙◌, arith, true, false, List, [], ◌∷◌, ◌++◌, ◌||◌}
use qf.Bits.Table.{elem}
use qf.LinkedList.{Address, Memory}

abbrev pub ◌∈◌ : Address → List Address → Type 0
p ∈ ps = elem p ps ≡ true

abbrev pub ◌∉◌ : Address → List Address → Type 0
p ∉ ps = elem p ps ≡ false

infix 40 ◌∈◌ ◌∉◌
abbrev pub Distinct : List Address → Type 0
Distinct [] = Unit {0}
Distinct (p ∷ ps) = (p ∉ ps) × Distinct ps

pub elem-append :
    (q : Address) (xs ys : List Address) → elem q (xs ++ ys) ≡ (elem q xs || elem q ys)
unfolding elem
elem-append q [] ys = refl
elem-append q (x ∷ xs) ys = ground (arith, elem-append q xs ys)

-- The first of `ps`, or `b`; the last of `a` and `ps`.
abbrev pub first_of : List Address → Address → Address
first_of [] b = b
first_of (p ∷ ps) b = p

abbrev pub last_of : Address → List Address → Address
last_of a [] = a
last_of a (p ∷ ps) = last_of p ps

pub last_of-mem : (a : Address) (ps : List Address) → last_of a ps ∈ a ∷ ps
unfolding elem
last_of-mem a [] = ground arith
last_of-mem a (p ∷ ps) = ground (arith, last_of-mem p ps)

pub ne_of_mem : {a q : Address} (ps : List Address) → a ∉ ps → q ∈ ps → a ≢ q
ne_of_mem {a} {q} ps out mem e = cc (ap (λ x. elem x ps) e)

module _ {T : Type 0} where
  -- The nodes `ps` lead from `a` to `b` by `mpNext`, and back by `mpPrev`.
  unfoldable pub Chain : Memory T → Address → List Address → Address → Type 0
  Chain m a [] b = (m.next a ≡ b) × (m.prev b ≡ a)
  Chain m a (p ∷ ps) b = (m.next a ≡ p) × (m.prev p ≡ a) × Chain m p ps b

  module _ (m : Memory T) where
    pub Chain-split :
        (a : Address) (xs : List Address) (p : Address) (ys : List Address) (b : Address)
        → Chain m a (xs ++ p ∷ ys) b
        → Chain m a xs p × Chain m p ys b
    unfolding Chain
    Chain-split a [] p ys b (n, e, rest) = ((n, e), rest)
    Chain-split a (x ∷ xs) p ys b (n, e, rest) =
        let (left, right) = Chain-split x xs p ys b rest in ((n, e, left), right)

    pub Chain-join :
        (a : Address) (xs : List Address) (p : Address) (ys : List Address) (b : Address)
        → Chain m a xs p
        → Chain m p ys b
        → Chain m a (xs ++ p ∷ ys) b
    unfolding Chain
    Chain-join a [] p ys b (n, e) right = (n, e, right)
    Chain-join a (x ∷ xs) p ys b (n, e, left) right = (n, e, Chain-join x xs p ys b left right)

    pub Chain-uncons :
        (a p : Address) (ps : List Address) (b : Address)
        → Chain m a (p ∷ ps) b
        → (m.next a ≡ p) × (m.prev p ≡ a) × Chain m p ps b
    unfolding Chain
    Chain-uncons a p ps b c = c

    pub next-first_of :
        (a : Address) (ps : List Address) (b : Address) → Chain m a ps b → m.next a ≡ first_of ps b
    unfolding Chain
    next-first_of a [] b c = c.0
    next-first_of a (p ∷ ps) b c = c.0

    pub prev-last_of :
        (a : Address) (ps : List Address) (b : Address) → Chain m a ps b → m.prev b ≡ last_of a ps
    unfolding Chain
    prev-last_of a [] b c = c.1
    prev-last_of a (p ∷ ps) b c = prev-last_of p ps b c.2

  -- A chain stays when the links that it is made of stay.
  pub Chain-frame :
      (m k : Memory T) (a : Address) (ps : List Address) (b : Address)
      → ((q : Address) → q ∈ a ∷ ps → k.next q ≡ m.next q)
      → ((q : Address) → q ∈ ps ++ b ∷ [] → k.prev q ≡ m.prev q)
      → Chain m a ps b
      → Chain k a ps b
  unfolding Chain elem
  Chain-frame m k a [] b nexts prevs (n, e) =
      (nexts a (ground arith) ∙ n, prevs b (ground arith) ∙ e)
  Chain-frame m k a (p ∷ ps) b nexts prevs (n, e, rest) = (
    nexts a (ground arith) ∙ n,
    prevs p (ground arith) ∙ e,
    Chain-frame m k p ps b (λ q i. nexts q (ground (arith, i))) (λ q i. prevs q (ground (arith, i)))
        rest,
  )

  -- A chain of distinct nodes leads elsewhere once its last link is changed.
  pub Chain-redirect :
      (m k : Memory T) (a : Address) (ps : List Address) (b c : Address)
      → Distinct (a ∷ ps)
      → ((q : Address) → q ∈ a ∷ ps → q ≢ last_of a ps → k.next q ≡ m.next q)
      → ((q : Address) → q ∈ ps → k.prev q ≡ m.prev q)
      → k.next (last_of a ps) ≡ c
      → k.prev c ≡ last_of a ps
      → Chain m a ps b
      → Chain k a ps c
  unfolding Chain elem
  Chain-redirect m k a [] b c distinct nexts prevs to back (n, e) = (to, back)
  Chain-redirect m k a (p ∷ ps) b c distinct nexts prevs to back (n, e, rest) = (
    nexts a (ground arith) (ne_of_mem (p ∷ ps) distinct.0 (last_of-mem p ps)) ∙ n,
    prevs p (ground arith) ∙ e,
    Chain-redirect m k p ps b c distinct.1 (λ q i. nexts q (ground (arith, i)))
        (λ q i. prevs q (ground (arith, i))) to back rest,
  )

  -- The list around `middle` holds the nodes `ps`.
  pub record Ring (m : Memory T) (middle : Address) (ps : List Address) : Type 0 where
    pub linked : Chain m middle ps middle
    pub distinct : Distinct (middle ∷ ps)
    pub alive : (q : Address) → q ∈ middle ∷ ps → m.live q ≡ true
