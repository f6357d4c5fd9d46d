-- ===== src/LinkedList/Erase.antt =====
-- `erase` of RS485/tl/native_client/jni/utils/List.h on a list.
use mathlib.Core.List.{append-nil}
use qf.Prelude.{◌≡◌, ap, ◌∙◌, arith, true, false, List, [], ◌∷◌, ◌++◌, ◌==◌}
use qf.Bits.Table.{elem}
use qf.LinkedList.{Address, Memory, ok, erase}
use qf.LinkedList.Chain.{
  ◌∈◌, ◌∉◌, Distinct, elem-append, first_of, last_of, last_of-mem, Chain, Chain-split, Chain-join,
  next-first_of, prev-last_of, Chain-frame, Chain-redirect, Chain-uncons, Ring,
}
use qf.LinkedList.Nodes.{
  ==-mem, mem-left, mem-right, Distinct-left, Distinct-right, apart_of_distinct, apart_of_distinct',
  Distinct-erase, not-mem_of_distinct,
}
use qf.LinkedList.Change.{erased, erase-erased}

-- The node `posn` between `xs` and `ys` is taken out.
module _ {T : Type 0} (m : Memory T) (middle posn : Address) where
  left_erased :
      (xs : List Address) (after : Address)
      → Distinct (middle ∷ xs)
      → after ∉ xs
      → m.next posn ≡ after
      → Chain m middle xs posn
      → Chain (erased m posn) middle xs after
  left_erased xs after distinct out next c =
      let before : m.prev posn ≡ last_of middle xs = prev-last_of m middle xs posn c in
      let same : (last_of middle xs == last_of middle xs) ≡ true = ground arith in
      let same' : (after == after) ≡ true = ground arith in
      Chain-redirect m (erased m posn) middle xs posn after distinct
        (λ q i ne. let off : (q == last_of middle xs) ≡ false = ground arith in rw (before, off))
        (λ q i. rw (next, ==-mem q after xs i out)) (rw (before, same, next))
        (rw (next, same', before)) c

  right_erased :
      (xs : List Address) (y : Address) (ys : List Address)
      → Distinct (middle ∷ xs ++ y ∷ ys)
      → m.prev posn ≡ last_of middle xs
      → m.next posn ≡ y
      → Chain m y ys middle
      → Chain (erased m posn) y ys middle
  right_erased xs y ys distinct before next c =
      let last = last_of middle xs in
      let last_out : last ∉ y ∷ ys =
        apart_of_distinct last (middle ∷ xs) (y ∷ ys) distinct (last_of-mem middle xs) in
      let y_out : y ∉ middle ∷ xs =
        apart_of_distinct' y (middle ∷ xs) (y ∷ ys) distinct (unfold elem in ground arith) in
      let once : y ∉ ys = (Distinct-right (middle ∷ xs) (y ∷ ys) distinct).0 in
      Chain-frame m (erased m posn) y ys middle
        (λ q i. rw (before, ==-mem q last (y ∷ ys) i last_out))
        (λ q i.
          let out : y ∉ ys ++ middle ∷ [] =
            unfold elem in ground (arith, elem-append y ys (middle ∷ [])) in
          rw (next, ==-mem q y (ys ++ middle ∷ []) i out))
        c

  alive_erased :
      (xs ys : List Address)
      → Ring m middle (xs ++ posn ∷ ys)
      → (q : Address) → q ∈ middle ∷ xs ++ ys
      → (erased m posn).live q ≡ true
  unfolding elem
  alive_erased xs ys r q i =
      let out = not-mem_of_distinct posn (middle ∷ xs) ys r.distinct in
      rw (==-mem q posn (middle ∷ xs ++ ys) i out)
        (r.alive q (ground (arith, elem-append q xs ys, elem-append q xs (posn ∷ ys))))

  pub first_in : (xs ys : List Address) → first_of ys middle ∈ middle ∷ xs ++ posn ∷ ys
  unfolding elem
  first_in xs [] = ground arith
  first_in xs (y ∷ ys) = ground (arith, elem-append y xs (posn ∷ y ∷ ys))

  -- What a list that holds `posn` says of its neighbours.
  erase_runs :
      (xs ys : List Address)
      → Ring m middle (xs ++ posn ∷ ys)
      → erase posn m ≡ ok (first_of ys middle) (erased m posn)
  erase_runs xs ys r =
      let (left, right) = Chain-split m middle xs posn ys middle r.linked in
      let next : m.next posn ≡ first_of ys middle = next-first_of m posn ys middle right in
      let before : m.prev posn ≡ last_of middle xs = prev-last_of m middle xs posn left in
      let last_in =
        mem-left (last_of middle xs) (middle ∷ xs) (posn ∷ ys) (last_of-mem middle xs) in
      let posn_in = mem-right posn (middle ∷ xs) (posn ∷ ys) (unfold elem in ground arith) in
      erase-erased m posn (r.alive posn posn_in) (rw before (r.alive _ last_in))
        (rw next (r.alive (first_of ys middle) (first_in xs ys)))
      ∙ ap (λ q. ok q (erased m posn)) next

  pub erase-Ring :
      (xs ys : List Address)
      → Ring m middle (xs ++ posn ∷ ys)
      → (erase posn m ≡ ok (first_of ys middle) (erased m posn))
        × Ring (erased m posn) middle (xs ++ ys)
  erase-Ring xs [] r =
      let (left, right) = Chain-split m middle xs posn [] middle r.linked in
      let next : m.next posn ≡ middle = next-first_of m posn [] middle right in
      let distinct = Distinct-erase posn (middle ∷ xs) [] r.distinct in
      let distinct' : Distinct (middle ∷ xs) = rw (append-nil xs) at distinct in
      (
        erase_runs xs [] r,
        record {
          linked = rw (append-nil xs) (left_erased xs middle distinct' distinct'.0 next left);
          distinct = distinct;
          alive = alive_erased xs [] r;
        },
      )
  erase-Ring xs (y ∷ ys) r =
      let (left, right) = Chain-split m middle xs posn (y ∷ ys) middle r.linked in
      let (next, back, rest) = Chain-uncons m posn y ys middle right in
      let before : m.prev posn ≡ last_of middle xs = prev-last_of m middle xs posn left in
      let distinct = Distinct-erase posn (middle ∷ xs) (y ∷ ys) r.distinct in
      let y_out : y ∉ middle ∷ xs =
        apart_of_distinct' y (middle ∷ xs) (y ∷ ys) distinct (unfold elem in ground arith) in
      (
        erase_runs xs (y ∷ ys) r,
        record {
          linked =
              Chain-join (erased m posn) middle xs y ys middle
                (left_erased xs y (Distinct-left (middle ∷ xs) (y ∷ ys) distinct)
                  (unfold elem in ground arith) next left)
                (right_erased xs y ys distinct before next rest);
          distinct = distinct;
          alive = alive_erased xs (y ∷ ys) r;
        },
      )
