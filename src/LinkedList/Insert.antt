-- ===== src/LinkedList/Insert.antt =====
-- `insert` of RS485/tl/native_client/jni/utils/List.h on a list.
use mathlib.Core.List.{append-nil}
use qf.Prelude.{◌≡◌, arith, Bool-cases, inl, inr, true, false, List, [], ◌∷◌, ◌++◌, ◌==◌}
use qf.Bits.Table.{elem}
use qf.LinkedList.{Address, Memory, ok, insert}
use qf.LinkedList.Chain.{
  ◌∈◌, ◌∉◌, Distinct, elem-append, first_of, last_of, last_of-mem, Chain, Chain-split, Chain-join,
  prev-last_of, Chain-frame, Chain-redirect, Ring,
}
use qf.LinkedList.Nodes.{
  apart_of_live, not-mem_of_live, ==-mem, mem-left, mem-right, Distinct-left, Distinct-right,
  apart_of_distinct, apart_of_distinct', Distinct-insert,
}
use qf.LinkedList.Change.{inserted, insert-inserted}

-- A node is inserted between `xs` and `ys`.
module _ {T : Type 0} (m : Memory T) (middle : Address) (v : T) (node : Address)
    (rest : List Address) (supply : m.supply ≡ node ∷ rest) (fresh : m.live node ≡ false) where
  -- The chain up to the new node.
  left_inserted :
      (xs : List Address) (posn : Address)
      → Distinct (middle ∷ xs)
      → ((q : Address) → q ∈ middle ∷ xs → m.live q ≡ true)
      → posn ∉ xs
      → m.live posn ≡ true
      → Chain m middle xs posn
      → Chain (inserted m posn v node rest) middle xs node
  left_inserted xs posn distinct alive out at c =
      let before : m.prev posn ≡ last_of middle xs = prev-last_of m middle xs posn c in
      let there : last_of middle xs ∈ middle ∷ xs = last_of-mem middle xs in
      let not_node =
        λ (q : Address) (i : q ∈ middle ∷ xs). apart_of_live m.live (alive q i) fresh in
      let node_posn : (node == posn) ≡ false =
        let flip = apart_of_live m.live at fresh in ground arith in
      Chain-redirect m (inserted m posn v node rest) middle xs posn node distinct
        (λ q i ne.
          let off : (q == last_of middle xs) ≡ false = ground arith in
          rw (before, off, not_node q i))
        (λ q i.
          let off : (q == posn) ≡ false = ==-mem q posn xs i out in
          rw (off, not_node q (unfold elem in ground arith)))
        (let same : (last_of middle xs == last_of middle xs) ≡ true = ground arith in
          rw (before, same))
        (let same : (node == node) ≡ true = ground arith in rw (node_posn, same, before)) c

  -- The links of the new node.
  links_inserted :
      (xs : List Address) (posn : Address)
      → ((q : Address) → q ∈ middle ∷ xs → m.live q ≡ true)
      → Chain m middle xs posn
      → ((inserted m posn v node rest).next node ≡ posn)
        × ((inserted m posn v node rest).prev posn ≡ node)
  links_inserted xs posn alive c =
      let before : m.prev posn ≡ last_of middle xs = prev-last_of m middle xs posn c in
      let last = apart_of_live m.live (alive (last_of middle xs) (last_of-mem middle xs)) fresh in
      let off : (node == last_of middle xs) ≡ false = ground arith in
      let same : (node == node) ≡ true = ground arith in
      let same' : (posn == posn) ≡ true = ground arith in (rw (before, off, same), rw same')

  alive_inserted :
      (xs ys : List Address) (posn : Address)
      → ((q : Address) → q ∈ middle ∷ xs ++ ys → m.live q ≡ true)
      → (q : Address) → q ∈ middle ∷ xs ++ node ∷ ys
      → (inserted m posn v node rest).live q ≡ true
  unfolding elem
  alive_inserted xs ys posn alive q i = elim (Bool-cases (q == node)) [
    | inl same ↦ rw same
    | inr other ↦
        rw other (alive q (ground (arith, elem-append q xs ys, elem-append q xs (node ∷ ys))))
  ]

  -- The chain behind the new node.
  right_inserted :
      (xs : List Address) (y : Address) (ys : List Address)
      → Distinct (middle ∷ xs ++ y ∷ ys)
      → ((q : Address) → q ∈ middle ∷ xs ++ y ∷ ys → m.live q ≡ true)
      → m.prev y ≡ last_of middle xs
      → Chain m y ys middle
      → Chain (inserted m y v node rest) y ys middle
  right_inserted xs y ys distinct alive before c =
      let last = last_of middle xs in
      let last_out : last ∉ y ∷ ys =
        apart_of_distinct last (middle ∷ xs) (y ∷ ys) distinct (last_of-mem middle xs) in
      let y_out : y ∉ middle ∷ xs =
        apart_of_distinct' y (middle ∷ xs) (y ∷ ys) distinct (unfold elem in ground arith) in
      let once : y ∉ ys = (Distinct-right (middle ∷ xs) (y ∷ ys) distinct).0 in
      Chain-frame m (inserted m y v node rest) y ys middle
        (λ q i. rw (
          before,
          ==-mem q last (y ∷ ys) i last_out,
          apart_of_live m.live (alive q (mem-right q (middle ∷ xs) (y ∷ ys) i)) fresh,
        ))
        (λ q i.
          let there : q ∈ middle ∷ xs ++ y ∷ ys =
            unfold elem in
            ground (arith, elem-append q xs (y ∷ ys), elem-append q ys (middle ∷ [])) in
          let out : y ∉ ys ++ middle ∷ [] =
            unfold elem in ground (arith, elem-append y ys (middle ∷ [])) in
          rw (==-mem q y (ys ++ middle ∷ []) i out, apart_of_live m.live (alive q there) fresh))
        c

  pub insert-Ring :
      (xs ys : List Address)
      → Ring m middle (xs ++ ys)
      → let posn = first_of ys middle in
        (insert posn v m ≡ ok node (inserted m posn v node rest))
        × Ring (inserted m posn v node rest) middle (xs ++ node ∷ ys)
  insert-Ring xs [] r =
      let r' : Ring m middle xs = rw (append-nil xs) at r in
      let at : m.live middle ≡ true = r'.alive middle (unfold elem in ground arith) in
      let before : m.prev middle ≡ last_of middle xs = prev-last_of m middle xs middle r'.linked in
      let (to, back) = links_inserted xs middle r'.alive r'.linked in
      (
        insert-inserted m middle v node rest supply fresh at
            (rw before (r'.alive (last_of middle xs) (last_of-mem middle xs))),
        record {
          linked =
              Chain-join (inserted m middle v node rest) middle xs node [] middle
                (left_inserted xs middle r'.distinct r'.alive r'.distinct.0 at r'.linked)
                (unfold Chain in (to, back));
          distinct =
              Distinct-insert node (middle ∷ xs) [] r.distinct
                (not-mem_of_live m.live node (middle ∷ xs ++ []) r.alive fresh);
          alive = alive_inserted xs [] middle r.alive;
        },
      )
  insert-Ring xs (y ∷ ys) r =
      let alive = r.alive in
      let in_left = λ (q : Address) (i : q ∈ middle ∷ xs). mem-left q (middle ∷ xs) (y ∷ ys) i in
      let y_there : y ∈ y ∷ ys = unfold elem in ground arith in
      let at : m.live y ≡ true = alive y (mem-right y (middle ∷ xs) (y ∷ ys) y_there) in
      let (left, right) = Chain-split m middle xs y ys middle r.linked in
      let before : m.prev y ≡ last_of middle xs = prev-last_of m middle xs y left in
      let last_in = in_left (last_of middle xs) (last_of-mem middle xs) in
      let out : y ∉ middle ∷ xs = apart_of_distinct' y (middle ∷ xs) (y ∷ ys) r.distinct y_there in
      let (to, back) = links_inserted xs y (λ q i. alive q (in_left q i)) left in
      (
        insert-inserted m y v node rest supply fresh at (rw before (alive _ last_in)),
        record {
          linked =
              Chain-join (inserted m y v node rest) middle xs node (y ∷ ys) middle
                (left_inserted xs y (Distinct-left (middle ∷ xs) (y ∷ ys) r.distinct)
                  (λ q i. alive q (in_left q i)) (unfold elem in ground arith) at left)
                (unfold Chain in (to, back, right_inserted xs y ys r.distinct alive before right));
          distinct =
              Distinct-insert node (middle ∷ xs) (y ∷ ys) r.distinct
                (not-mem_of_live m.live node (middle ∷ xs ++ y ∷ ys) alive fresh);
          alive = alive_inserted xs (y ∷ ys) y alive;
        },
      )
