-- ===== src/LinkedList/Copy.antt =====
-- The copy constructor of RS485/tl/native_client/jni/utils/List.h.
use mathlib.Core.List.{append-nil}
use qf.Prelude.{
  ℕ, suc, ◌<◌, ◌≤◌, ◌≡◌, refl, sym, ◌∙◌, arith, Bool, Bool-cases, inl, inr, true, false, List, [],
  ◌∷◌, ◌==◌, none, length,
}
use qf.Bits.Table.{elem}
use qf.LinkedList.{Address, Memory, update, ok, new_node, set_prev, set_next, begin, prep, copy}
use qf.LinkedList.Chain.{
  ◌∈◌, ◌∉◌, Distinct, elem-append, first_of, Chain, Chain-frame, next-first_of, Ring,
}
use qf.LinkedList.Nodes.{apart_of_live, ==-mem}
use qf.LinkedList.Apart.{Ring-apart}
use qf.LinkedList.Contents.{Stores-frame, length-Stores, IsList, IsFresh}
use qf.LinkedList.Range.{Walks-Chain, Spares, uncons, range_core, get_next-ok}

-- A node that is not live is none of the live ones.
none_live :
    (live : Address → Bool) (node : Address) (ps : List Address)
    → live node ≡ false
    → ((q : Address) → q ∈ ps → live q ≡ true)
    → node ∉ ps
none_live live node ps off alive = elim (Bool-cases (elem node ps)) [
  | inl on ↦ let e : true ≡ false = sym (alive node on) ∙ off in cc e
  | inr out ↦ out
]

module _ {T : Type 0} where
  -- A list that is spared stays.
  pub Ring-Spares :
      (m k : Memory T) (nodes : List Address) (middle : Address) (ps : List Address)
      → Spares m k nodes
      → ((q : Address) → q ∈ middle ∷ ps → q ∉ nodes)
      → Ring m middle ps
      → Ring k middle ps
  unfolding elem
  Ring-Spares m k nodes middle ps s apart r = record {
    linked =
        Chain-frame m k middle ps middle (λ q i. s.next q (r.alive q i) (apart q i))
          (λ q i.
            let there : q ∈ middle ∷ ps = ground (arith, elem-append q ps (middle ∷ []), i) in
            s.prev q (r.alive q there) (apart q there))
          r.linked;
    distinct = r.distinct;
    alive = λ q i. s.live q (r.alive q i);
  }

  pub IsList-Spares :
      (m k : Memory T) (nodes : List Address) (middle : Address) {vs : List T}
      (l : IsList m middle vs)
      → Spares m k nodes
      → ((q : Address) → q ∈ middle ∷ l.nodes → q ∉ nodes)
      → IsList k middle vs
  unfolding elem
  IsList-Spares m k nodes middle {vs} l s apart = record {
    nodes = l.nodes;
    ring = Ring-Spares m k nodes middle l.nodes s apart l.ring;
    stores =
        Stores-frame m k l.nodes vs (λ q i. s.val q (l.ring.alive q (ground (arith, i)))) l.stores;
  }

  -- Memory with a new empty list.
  abbrev prepared : Memory T → Address → List Address → Memory T
  prepared m node rest = record {
    live = update node true m.live;
    val = update node none m.val;
    prev = update node node m.prev;
    next = update node node m.next;
    supply = rest;
  }

  module _ (m : Memory T) (node : Address) (rest : List Address) (supply : m.supply ≡ node ∷ rest)
      (f : IsFresh m) where
    node_same : (node == node) ≡ true
    node_same = ground arith

    node_unused : m.live node ≡ false
    unfolding elem
    node_unused = f.unused node (rw supply (ground arith))

    prep-prepared : prep m ≡ ok node (prepared m node rest)
    unfolding prep new_node set_prev set_next
    prep-prepared = rw supply (rw node_same (rw node_same refl))

    prepared-Spares : Spares m (prepared m node rest) []
    prepared-Spares = record {
      live = λ q on. rw (apart_of_live m.live on node_unused) on;
      val = λ q on. rw (apart_of_live m.live on node_unused);
      next = λ q on o. rw (apart_of_live m.live on node_unused);
      prev = λ q on o. rw (apart_of_live m.live on node_unused);
    }

    prepared-Ring : Ring (prepared m node rest) node []
    unfolding Chain elem
    prepared-Ring = record {
      linked = (rw node_same, rw node_same);
      distinct = (refl, tt);
      alive = λ q i. let e : (q == node) ≡ true = ground (arith, i) in rw e;
    }

    prepared-IsFresh : IsFresh (prepared m node rest)
    unfolding elem
    prepared-IsFresh =
        let once : Distinct (node ∷ rest) = rw supply at f.once in
        record {
          once = once.1;
          unused = λ q i.
              let there : q ∈ m.supply = rw supply (ground (arith, i)) in
              rw (==-mem q node rest i once.0) (f.unused q there);
        }

  -- With more fuel than values and enough unused nodes, the copy constructor makes a list with the
  -- values of its source, in order; the source keeps its values, the middle
  -- node of the copy was unused, and no node is in both lists.
  pub copy-IsList :
      (fuel : ℕ) (m : Memory T) (src : Address) {us : List T}
      → IsList m src us
      → IsFresh m
      → length us < fuel
      → suc (length us) ≤ length m.supply
      → (k : Memory T) × (middle : Address) × (copy fuel src m ≡ ok middle k)
        × (copied : IsList k middle us) × (source : IsList k src us) × (m.live middle ≡ false)
        × ((q : Address) → q ∈ middle ∷ copied.nodes → q ∉ src ∷ source.nodes)
  unfolding copy begin elem IsList-Spares
  copy-IsList fuel m src {us} l f enough room =
      let (node, rest, supply, left) = uncons (length us) m.supply room in
      let m0 = prepared m node rest in
      let unused = node_unused m node rest supply f in
      let spares = prepared-Spares m node rest supply f in
      let r0 = prepared-Ring m node rest supply f in
      let ps = l.nodes in
      let fresh =
        λ (q : Address) (i : q ∈ src ∷ ps). apart_of_live m.live (l.ring.alive q i) unused in
      let ring0 = Ring-Spares m m0 [] src ps spares (λ q i. refl) l.ring in
      let stores0 =
        Stores-frame m m0 ps us (λ q i. spares.val q (l.ring.alive q (ground (arith, i))))
          l.stores in
      let walk =
        Walks-Chain m0 src ps us src ring0.linked (λ q i. ring0.alive q (ground (arith, i)))
          stores0 in
      let (k, ns, runs, ring, stores, spares', f') =
        range_core node fuel m0 [] [] ps us src r0 (prepared-IsFresh m node rest supply f) walk
          ring0.distinct.0 (λ q i. rw (fresh q (ground (arith, i))))
          (omega (arith, length-Stores m ps us l.stores)) left in
      let l0 : IsList m0 src us = record { nodes = ps; ring = ring0; stores = stores0 } in
      let same = node_same m node rest supply f in
      let first : m0.next src ≡ first_of ps src = next-first_of m0 src ps src ring0.linked in
      let copied : IsList k node us = record {
        nodes = ns;
        ring = rw (append-nil ns) at ring;
        stores = stores;
      } in
      let source : IsList k src us =
        IsList-Spares m0 k (node ∷ []) src l0 spares' (λ q i. rw (fresh q i)) in
      let out : node ∉ src ∷ ps = none_live m.live node (src ∷ ps) unused l.ring.alive in
      (
        k,
        node,
        rw (prep-prepared m node rest supply f) (
            rw (get_next-ok node m0 node (rw same)) (
              rw same (
                rw (get_next-ok node m0 src (ring0.alive src (ground arith)))
                  (rw first (rw runs))))),
        copied,
        source,
        unused,
        Ring-apart k src source.nodes node copied.nodes source.ring copied.ring out,
      )
