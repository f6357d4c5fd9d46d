-- ===== src/LinkedList/Apart.antt =====
-- Lists of RS485/tl/native_client/jni/utils/List.h that share no node.
use mathlib.Core.Path.{subst}
use qf.Prelude.{
  ◌≡◌, sym, ap, ◌∙◌, arith, true, false, List, [], ◌∷◌, ◌++◌, ◌==◌, ==_iff, Bool-cases, inl, inr,
}
use qf.Bits.Table.{elem}
use qf.LinkedList.{Address, Memory}
use qf.LinkedList.Chain.{◌∈◌, ◌∉◌, elem-append, Chain, Ring}

module _ {T : Type 0} (m : Memory T) where
  -- The nodes of a chain are followed by nodes of the chain, and by its end.
  next-mem :
      (a : Address) (ps : List Address) (b q : Address)
      → Chain m a ps b
      → q ∈ a ∷ ps
      → m.next q ∈ ps ++ b ∷ []
  unfolding Chain elem
  next-mem a [] b q (n, e) i =
      let same : q ≡ a = ground (arith, i) in
      let next : m.next q ≡ b = ap m.next same ∙ n in ground (arith, next)
  next-mem a (p ∷ ps) b q (n, e, rest) i = elim (Bool-cases (q == a)) [
    | inl on ↦ let next : m.next q ≡ p = ap m.next ((==_iff q a).0 on) ∙ n in ground (arith, next)
    | inr off ↦ let there = next-mem p ps b q rest (ground (arith, i, off)) in ground (arith, there)
  ]

  -- What is closed under `mpNext` and holds at a node of a chain holds at its end.
  reaches :
      (P : Address → Type 0)
      → ((q : Address) → P q → P (m.next q))
      → (a : Address) (ps : List Address) (b q : Address) → Chain m a ps b
      → q ∈ a ∷ ps
      → P q
      → P b
  unfolding Chain elem
  reaches P closed a [] b q (n, e) i holds =
      let same : q ≡ a = ground (arith, i) in subst P (ap m.next same ∙ n) (closed q holds)
  reaches P closed a (p ∷ ps) b q (n, e, rest) i holds = elim (Bool-cases (q == a)) [
    | inl on ↦
        let next : m.next q ≡ p = ap m.next ((==_iff q a).0 on) ∙ n in
        reaches P closed p ps b p rest (ground arith) (subst P next (closed q holds))
    | inr off ↦ reaches P closed p ps b q rest (ground (arith, i, off)) holds
  ]

  -- Two lists share no node when the middle node of one is none of the other's.
  pub Ring-apart :
      (src : Address) (ps : List Address) (middle : Address) (ns : List Address)
      → Ring m src ps
      → Ring m middle ns
      → middle ∉ src ∷ ps
      → (q : Address) → q ∈ middle ∷ ns
      → q ∉ src ∷ ps
  unfolding elem
  Ring-apart src ps middle ns r r' out q i = elim (Bool-cases (elem q (src ∷ ps))) [
    | inl shared ↦
        let closed : (x : Address) → x ∈ src ∷ ps → m.next x ∈ src ∷ ps = λ x there.
          let next = next-mem src ps src x r.linked there in
          ground (arith, next, elem-append (m.next x) ps (src ∷ [])) in
        let inside : middle ∈ src ∷ ps =
          reaches (λ x. x ∈ src ∷ ps) closed middle ns middle q r'.linked i shared in
        absurd (true-false (sym inside ∙ out))
    | inr apart ↦ apart
  ]
    where
      true-false : true ≡ false → ⊥
      true-false e = cc e
