-- ===== src/LinkedList/EraseRange.antt =====
-- `erase` of a range of RS485/tl/native_client/jni/utils/List.h, up to the end of the list.
use mathlib.Core.List.{append-nil}
use qf.Prelude.{
  ℕ, zero, suc, ◌<◌, ◌≡◌, refl, ap, ◌∙◌, arith, true, false, List, [], ◌∷◌, ◌++◌, ◌==◌, length,
}
use qf.Bits.Table.{elem}
use qf.LinkedList.{Address, Memory, ok, get_next, erase_range}
use qf.LinkedList.Chain.{
  ◌∈◌, ◌∉◌, elem-append, first_of, last_of, last_of-mem, Chain-split, next-first_of, prev-last_of,
  Ring,
}
use qf.LinkedList.Nodes.{==-mem, mem-left, mem-right}
use qf.LinkedList.Change.{erased}
use qf.LinkedList.Erase.{erase-Ring, first_in}
use qf.LinkedList.Range.{get_next-ok}

module _ {T : Type 0} where
  -- `k` is as `m` outside of `nodes`, and has its values everywhere.
  pub record Outside (m k : Memory T) (nodes : List Address) : Type 0 where
    pub val : (q : Address) → k.val q ≡ m.val q
    pub live : (q : Address) → q ∉ nodes → k.live q ≡ m.live q
    pub next : (q : Address) → q ∉ nodes → k.next q ≡ m.next q
    pub prev : (q : Address) → q ∉ nodes → k.prev q ≡ m.prev q

module _ {T : Type 0} (middle : Address) where
  erased-Outside :
      (m : Memory T) (x : Address) (front ds : List Address)
      → Ring m middle (front ++ x ∷ ds)
      → Outside m (erased m x) (middle ∷ front ++ x ∷ ds)
  erased-Outside m x front ds r =
      let nodes = middle ∷ front ++ x ∷ ds in
      let (left, right) = Chain-split m middle front x ds middle r.linked in
      let before : m.prev x ∈ nodes =
        rw (prev-last_of m middle front x left)
          (mem-left (last_of middle front) (middle ∷ front) (x ∷ ds) (last_of-mem middle front)) in
      let after : m.next x ∈ nodes =
        rw (next-first_of m x ds middle right) (first_in m middle x front ds) in
      let here : x ∈ nodes = mem-right x (middle ∷ front) (x ∷ ds) (unfold elem in ground arith) in
      let flip : (p q : Address) → p ∈ nodes → q ∉ nodes → (q == p) ≡ false =
        λ p q i o. let e = ==-mem p q nodes i o in ground arith in
      record {
        val = λ q. refl;
        live = λ q o. rw (flip x q here o);
        next = λ q o. rw (flip (m.prev x) q before o);
        prev = λ q o. rw (flip (m.next x) q after o);
      }

  -- With more fuel than nodes the nodes `ds` at the end of a list are taken out.
  pub erase_range-Ring :
      (fuel : ℕ) (m : Memory T) (front ds : List Address)
      → Ring m middle (front ++ ds)
      → length ds < fuel
      → (k : Memory T) × (erase_range fuel (first_of ds middle) middle m ≡ ok middle k)
        × Ring k middle front
        × Outside m k (middle ∷ front ++ ds)
  unfolding erase_range
  erase_range-Ring zero m front ds r enough = absurd (omega arith)
  erase_range-Ring (suc fuel) m front [] r enough =
      let same : (middle == middle) ≡ true = ground arith in
      (
        m,
        rw same,
        rw (append-nil front) at r,
        record { val = λ q. refl; live = λ q o. refl; next = λ q o. refl; prev = λ q o. refl },
      )
  erase_range-Ring (suc fuel) m front (x ∷ ds) r enough =
      let nodes = middle ∷ front ++ x ∷ ds in
      let here : x ∈ nodes = mem-right x (middle ∷ front) (x ∷ ds) (unfold elem in ground arith) in
      let out : middle ∉ front ++ x ∷ ds = r.distinct.0 in
      let apart : (x == middle) ≡ false =
        ==-mem x middle (front ++ x ∷ ds) (mem-right x front (x ∷ ds) (unfold elem in ground arith))
          out in
      let next : m.next x ≡ first_of ds middle =
        next-first_of m x ds middle (Chain-split m middle front x ds middle r.linked).1 in
      let got : get_next x m ≡ ok (first_of ds middle) m =
        get_next-ok middle m x (r.alive x here) ∙ ap (λ q. ok q m) next in
      let (returns, r1) = erase-Ring m middle x front ds r in
      let o1 = erased-Outside m x front ds r in
      let (k, runs, ring, o2) = erase_range-Ring fuel (erased m x) front ds r1 (omega arith) in
      let less : (q : Address) → q ∉ nodes → q ∉ middle ∷ front ++ ds = λ q o.
        unfold elem in ground (arith, elem-append q front (x ∷ ds), elem-append q front ds) in
      (
        k,
        rw (apart, got) (rw returns runs),
        ring,
        record {
          val = o2.val;
          live = λ q o. o2.live q (less q o) ∙ o1.live q o;
          next = λ q o. o2.next q (less q o) ∙ o1.next q o;
          prev = λ q o. o2.prev q (less q o) ∙ o1.prev q o;
        },
      )
