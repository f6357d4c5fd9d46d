-- ===== src/LinkedList/Assign.antt =====
-- `operator=` of RS485/tl/native_client/jni/utils/List.h.
use mathlib.Core.List.{append-nil}
use mathlib.Core.Path.{subst}
use qf.Prelude.{
  ℕ, ◌<◌, ◌≤◌, ◌≡◌, ◌⊎◌, sym, ◌∙◌, arith, inl, inr, true, false, List, [], ◌∷◌, ◌++◌, ◌==◌, length,
}
use qf.Bits.Table.{elem}
use qf.LinkedList.{Address, Memory, Run, ok, begin, assign_rest, assign}
use qf.LinkedList.Chain.{◌∈◌, ◌∉◌, elem-append, first_of, Chain-frame, next-first_of, Ring}
use qf.LinkedList.Contents.{Stores, Stores-frame, Stores-join, length-Stores, IsList, IsFresh}
use qf.LinkedList.Range.{Walks, Walks-Chain, range_core, get_next-ok}
use qf.LinkedList.Copy.{IsList-Spares}
use qf.LinkedList.Overwrite.{with_val, Ring-val, Copied, assign_loop-Copied}
use qf.LinkedList.EraseRange.{Outside, erase_range-Ring}

length-right : {A : Type 0} (xs ys : List A) → length ys ≤ length (xs ++ ys)
length-right [] ys = omega arith
length-right (x ∷ xs) ys = omega (arith, length-right xs ys)

module _ {T : Type 0} where
  -- A list outside of the nodes that change stays.
  IsList-Outside :
      (m k : Memory T) (nodes : List Address) (middle : Address) {vs : List T}
      (l : IsList m middle vs)
      → Outside m k nodes
      → ((q : Address) → q ∈ middle ∷ l.nodes → q ∉ nodes)
      → IsList k middle vs
  unfolding elem
  IsList-Outside m k nodes middle {vs} l o apart = record {
    nodes = l.nodes;
    ring = record {
      linked =
          Chain-frame m k middle l.nodes middle (λ q i. o.next q (apart q i))
            (λ q i. o.prev q (apart q (ground (arith, elem-append q l.nodes (middle ∷ []), i))))
            l.ring.linked;
      distinct = l.ring.distinct;
      alive = λ q i. o.live q (apart q i) ∙ l.ring.alive q i;
    };
    stores = Stores-frame m k l.nodes vs (λ q i. o.val q) l.stores;
  }

  -- What follows the loop: the nodes that are left over are erased, or the values that are left
  -- over are inserted.
  rest-IsList :
      (fuel : ℕ) (m : Memory T) (this right : Address) (used left todo_nodes : List Address)
      (done todo : List T) {us : List T}
      → Ring m this (used ++ left)
      → Stores m used done
      → Walks m todo_nodes todo right
      → right ∉ todo_nodes
      → ((q : Address) → q ∈ todo_nodes → q ∉ this ∷ used ++ left)
      → IsFresh m
      → (left ≡ []) ⊎ (todo_nodes ≡ [])
      → length left < fuel
      → length todo_nodes < fuel
      → length todo ≤ length m.supply
      → (s : IsList m right us) → ((q : Address) → q ∈ right ∷ s.nodes → q ∉ this ∷ used ++ left)
      → (k : Memory T) × (assign_rest fuel
            (first_of todo_nodes right == right)
            (first_of left this)
            (first_of todo_nodes right)
            this
            right
            m
          ≡ ok tt k)
        × IsList k this (done ++ todo)
        × IsList k right us
  unfolding elem
  rest-IsList fuel m this right used left [] done [] r st w os ap1 f e1 enough enough' room s
        apart =
      let same : (right == right) ≡ true = ground arith in
      let (k, runs, ring, o) = erase_range-Ring this fuel m used left r enough in
      (
        k,
        rw same (rw runs),
        record {
          nodes = used;
          ring = ring;
          stores = rw (append-nil done) (Stores-frame m k used done (λ q i. o.val q) st);
        },
        IsList-Outside m k (this ∷ used ++ left) right s o apart,
      )
  rest-IsList fuel m this right used left [] done (u ∷ todo) r st w os ap1 f e1 enough enough' room
        s apart =
      absurd w
  rest-IsList fuel m this right used (x ∷ left) (p ∷ ps) done todo r st w os ap1 f e1 enough enough'
        room s apart =
      elim e1 [ inl e ↦ cc e | inr e ↦ cc e ]
  rest-IsList fuel m this right used [] (p ∷ ps) done todo r st w os ap1 f e1 enough enough' room s
        apart =
      let other : (p == right) ≡ false = ground arith in
      let (k, ns, runs, ring, stores, spares, f') =
        range_core this fuel m used [] (p ∷ ps) todo right r f w os ap1 enough' room in
      (
        k,
        rw other runs,
        record {
          nodes = used ++ ns;
          ring = rw (append-nil (used ++ ns)) at ring;
          stores =
              Stores-join k used done ns todo
                (Stores-frame m k used done
                  (λ q i. spares.val q (r.alive q (ground (arith, elem-append q used [], i)))) st)
                stores;
        },
        IsList-Spares m k (this ∷ used ++ []) right s spares apart,
      )

  Copied-IsList :
      (fuel : ℕ) (m : Memory T) (this right : Address) {vs us : List T}
      {run : Run T (Address × Address)} (l : IsList m this vs) (s : IsList m right us)
      → ((q : Address) → q ∈ right ∷ s.nodes → q ∉ this ∷ l.nodes)
      → IsFresh m
      → length vs < fuel
      → length us < fuel
      → length us ≤ length m.supply
      → (c : Copied m l.nodes s.nodes us this right run)
      → (k : Memory T) × (assign_rest fuel
            (first_of c.todo_nodes right == right)
            (first_of c.left this)
            (first_of c.todo_nodes right)
            this
            right
            (with_val m c.val)
          ≡ ok tt k)
        × IsList k this us
        × IsList k right us
  unfolding elem
  Copied-IsList fuel m this right {vs} {us} l s apart f enough enough' room c =
      let ps = s.nodes in
      let m1 = with_val m c.val in
      let r1 : Ring m1 this (c.used ++ c.left) =
        rw c.nodes at (Ring-val m c.val this l.nodes l.ring) in
      let s1 : IsList m1 right us = record {
        nodes = ps;
        ring = Ring-val m c.val right ps s.ring;
        stores = Stores-frame m m1 ps us (λ q i. c.others q (ground (arith, apart q))) s.stores;
      } in
      let apart1 : (q : Address) → q ∈ right ∷ ps → q ∉ this ∷ c.used ++ c.left =
        λ q i. rw c.nodes at (apart q i) in
      let f1 : IsFresh m1 = record { once = f.once; unused = f.unused } in
      let left_le : length c.left ≤ length l.nodes = rw c.nodes (length-right c.used c.left) in
      let todo_le : length c.todo ≤ length us = rw c.values (length-right c.done c.todo) in
      let (k, runs, mine, kept) =
        rest-IsList fuel m1 this right c.used c.left c.todo_nodes c.done c.todo r1 c.stored c.walk
          c.stops (λ q i. apart1 q (ground (arith, c.subset q i))) f1 c.one_ends
          (omega (arith, length-Stores m l.nodes vs l.stores))
          (omega (arith, c.shorter, length-Stores m ps us s.stores)) (omega arith) s1 apart1 in
      (k, runs, subst (λ v. IsList k this v) (sym c.values) mine, kept)

  -- With more fuel than values in either list and a node in store for each value of `right`,
  -- assigning from a list that shares no node leaves both lists with the values of `right`.
  pub assign-IsList :
      (fuel : ℕ) (m : Memory T) (this right : Address) {vs us : List T} (l : IsList m this vs)
      (s : IsList m right us)
      → ((q : Address) → q ∈ right ∷ s.nodes → q ∉ this ∷ l.nodes)
      → IsFresh m
      → length vs < fuel
      → length us < fuel
      → length us ≤ length m.supply
      → (k : Memory T) × (assign fuel this right m ≡ ok tt k) × IsList k this us × IsList k right us
  unfolding assign begin elem
  assign-IsList fuel m this right {vs} {us} l s apart f enough enough' room =
      let ds = l.nodes in
      let ps = s.nodes in
      let other : (this == right) ≡ false = ground (arith, apart right) in
      let walk : Walks m ps us right =
        Walks-Chain m right ps us right s.ring.linked (λ q i. s.ring.alive q (ground (arith, i)))
          s.stores in
      let c =
        assign_loop-Copied fuel m this ds ps us this right l.ring.linked l.ring.distinct.0
          l.ring.distinct.1 (λ q i. l.ring.alive q (ground (arith, i))) walk s.ring.distinct.0
          (λ q i. ground (arith, apart q)) (omega (arith, length-Stores m ps us s.stores)) in
      let (k, runs, mine, kept) =
        Copied-IsList fuel m this right l s apart f enough enough' room c in
      let first_dst : m.next this ≡ first_of ds this = next-first_of m this ds this l.ring.linked in
      let first_src : m.next right ≡ first_of ps right =
        next-first_of m right ps right s.ring.linked in
      (
        k,
        rw (other, get_next-ok this m this (l.ring.alive this (ground arith)))
            (rw (get_next-ok this m right (s.ring.alive right (ground arith)))
              (rw (first_dst, first_src) (rw c.returns runs))),
        mine,
        kept,
      )
