-- ===== src/LinkedList/Change.antt =====
-- `insert` and `erase` of RS485/tl/native_client/jni/utils/List.h.
use qf.Prelude.{◌≡◌, arith, true, false, List, ◌∷◌, ◌==◌, some}
use qf.LinkedList.{Address, Memory, update, ok, new_node, insert, erase}
use qf.LinkedList.Nodes.{apart_of_live}

module _ {T : Type 0} where
  -- Memory with a new node before `posn`, and without the node at `posn`.
  abbrev pub inserted : Memory T → Address → T → Address → List Address → Memory T
  inserted m posn v node rest = record {
    live = update node true m.live;
    val = update node (some v) m.val;
    prev = update posn node (update node (m.prev posn) m.prev);
    next = update (m.prev posn) node (update node posn m.next);
    supply = rest;
  }

  abbrev pub erased : Memory T → Address → Memory T
  erased m posn = record m {
    live = update posn false m.live;
    prev = update (m.next posn) (m.prev posn) m.prev;
    next = update (m.prev posn) (m.next posn) m.next;
  }

  pub insert-inserted :
      (m : Memory T) (posn : Address) (v : T) (node : Address) (rest : List Address)
      → m.supply ≡ node ∷ rest
      → m.live node ≡ false
      → m.live posn ≡ true
      → m.live (m.prev posn) ≡ true
      → insert posn v m ≡ ok node (inserted m posn v node rest)
  unfolding insert new_node
  insert-inserted m posn v node rest supply fresh at before =
      let same : (node == node) ≡ true = ground arith in
      let ne = apart_of_live m.live at fresh in
      let ne' = apart_of_live m.live before fresh in
      rw supply (rw same (rw (ne, at) (rw same (rw at (rw ne (rw (ne', before) (rw ne (rw at))))))))

  pub erase-erased :
      (m : Memory T) (posn : Address)
      → m.live posn ≡ true
      → m.live (m.prev posn) ≡ true
      → m.live (m.next posn) ≡ true
      → erase posn m ≡ ok (m.next posn) (erased m posn)
  unfolding erase
  erase-erased m posn at before after = rw at (rw at (rw before (rw after (rw at))))
