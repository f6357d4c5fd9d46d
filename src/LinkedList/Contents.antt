-- ===== src/LinkedList/Contents.antt =====
-- A list of RS485/tl/native_client/jni/utils/List.h as the sequence of its values.
use qf.Prelude.{
  suc, ◌≡◌, refl, ap, ◌∙◌, arith, true, false, List, [], ◌∷◌, ◌++◌, ◌==◌, some, length,
}
use qf.Bits.Table.{elem}
use qf.LinkedList.{Address, Memory, ok, insert, erase}
use qf.LinkedList.Chain.{◌∈◌, Distinct, elem-append, first_of, Ring}
use qf.LinkedList.Nodes.{apart_of_live, ==-mem}
use qf.LinkedList.Change.{inserted, erased}
use qf.LinkedList.Insert.{insert-Ring}
use qf.LinkedList.Erase.{erase-Ring}

module _ {T : Type 0} where
  -- The nodes `ps` hold the values `vs`, in order.
  abbrev pub Stores : Memory T → List Address → List T → Type 0
  Stores m [] [] = Unit {0}
  Stores m [] (v ∷ vs) = ⊥
  Stores m (p ∷ ps) [] = ⊥
  Stores m (p ∷ ps) (v ∷ vs) = (m.val p ≡ some v) × Stores m ps vs

  pub Stores-frame :
      (m k : Memory T) (ps : List Address) (vs : List T)
      → ((q : Address) → q ∈ ps → k.val q ≡ m.val q)
      → Stores m ps vs
      → Stores k ps vs
  unfolding elem
  Stores-frame m k [] [] same s = tt
  Stores-frame m k [] (v ∷ vs) same s = s
  Stores-frame m k (p ∷ ps) [] same s = s
  Stores-frame m k (p ∷ ps) (v ∷ vs) same (e, s) =
      (same p (ground arith) ∙ e, Stores-frame m k ps vs (λ q i. same q (ground (arith, i))) s)

  pub Stores-join :
      (m : Memory T) (ps : List Address) (vs : List T) (qs : List Address) (ws : List T)
      → Stores m ps vs
      → Stores m qs ws
      → Stores m (ps ++ qs) (vs ++ ws)
  Stores-join m [] [] qs ws s t = t
  Stores-join m [] (v ∷ vs) qs ws s t = absurd s
  Stores-join m (p ∷ ps) [] qs ws s t = absurd s
  Stores-join m (p ∷ ps) (v ∷ vs) qs ws (e, s) t = (e, Stores-join m ps vs qs ws s t)

  -- The nodes of a sequence in two parts.
  pub Stores-split :
      (m : Memory T) (ps : List Address) (vs ws : List T)
      → Stores m ps (vs ++ ws)
      → (xs : List Address) × (ys : List Address) × (ps ≡ xs ++ ys)
        × Stores m xs vs
        × Stores m ys ws
  Stores-split m ps [] ws s = ([], ps, refl, tt, s)
  Stores-split m [] (v ∷ vs) ws s = absurd s
  Stores-split m (p ∷ ps) (v ∷ vs) ws (e, s) =
      let (xs, ys, parts, front, back) = Stores-split m ps vs ws s in
      (p ∷ xs, ys, ap (λ l. p ∷ l) parts, (e, front), back)

  pub length-Stores :
      (m : Memory T) (ps : List Address) (vs : List T) → Stores m ps vs → length ps ≡ length vs
  length-Stores m [] [] s = refl
  length-Stores m [] (v ∷ vs) s = absurd s
  length-Stores m (p ∷ ps) [] s = absurd s
  length-Stores m (p ∷ ps) (v ∷ vs) (e, s) = ap suc (length-Stores m ps vs s)

  -- The list around `middle` is the sequence `vs`.
  pub record IsList (m : Memory T) (middle : Address) (vs : List T) : Type 0 where
    pub nodes : List Address
    pub ring : Ring m middle nodes
    pub stores : Stores m nodes vs

  -- An iterator of the list: it stands behind `vs` and before `ws`.
  pub record Stands (m : Memory T) (middle posn : Address) (vs ws : List T) : Type 0 where
    pub front : List Address
    pub back : List Address
    pub ring : Ring m middle (front ++ back)
    pub at : posn ≡ first_of back middle
    pub stores_front : Stores m front vs
    pub stores_back : Stores m back ws

  -- The addresses that `new` has left are distinct, and none is in use.
  pub record IsFresh (m : Memory T) : Type 0 where
    pub once : Distinct m.supply
    pub unused : (q : Address) → q ∈ m.supply → m.live q ≡ false

  pub IsList-Stands :
      {m : Memory T} {middle posn : Address} {vs ws : List T}
      → Stands m middle posn vs ws
      → IsList m middle (vs ++ ws)
  IsList-Stands {m} {vs} {ws} s = record {
    nodes = s.front ++ s.back;
    ring = s.ring;
    stores = Stores-join m s.front vs s.back ws s.stores_front s.stores_back;
  }

module _ {T : Type 0} (m : Memory T) (middle posn : Address) where
  -- The nodes of a list keep their values when a node is added.
  inserted-keeps :
      (v : T) (node : Address) (rest ps : List Address) (vs : List T)
      → m.live node ≡ false
      → ((q : Address) → q ∈ ps → m.live q ≡ true)
      → Stores m ps vs
      → Stores (inserted m posn v node rest) ps vs
  inserted-keeps v node rest ps vs fresh alive =
      Stores-frame m (inserted m posn v node rest) ps vs
        λ q i. rw (apart_of_live m.live (alive q i) fresh)

  pub IsFresh-inserted :
      (v : T) (node : Address) (rest : List Address)
      → m.supply ≡ node ∷ rest
      → IsFresh m
      → IsFresh (inserted m posn v node rest)
  unfolding elem
  IsFresh-inserted v node rest supply f =
      let once : Distinct (node ∷ rest) = rw supply at f.once in
      record {
        once = once.1;
        unused = λ q i.
            let there : q ∈ m.supply = rw supply (ground (arith, i)) in
            rw (==-mem q node rest i once.0) (f.unused q there);
      }

  -- With an unused node left, `insert` at an iterator puts the value there and returns an iterator
  -- that stands before it.
  pub insert-Stands :
      (v : T) (node : Address) (rest : List Address) {vs ws : List T}
      → m.supply ≡ node ∷ rest
      → IsFresh m
      → Stands m middle posn vs ws
      → (k : Memory T) × (insert posn v m ≡ ok node k)
        × Stands k middle node vs (v ∷ ws)
        × IsFresh k
  unfolding elem
  insert-Stands v node rest {vs} {ws} supply f s =
      let unused : m.live node ≡ false = f.unused node (rw supply (ground arith)) in
      let k = inserted m posn v node rest in
      let (returns, ring) = insert-Ring m middle v node rest supply unused s.front s.back s.ring in
      (
        k,
        rw s.at returns,
        record {
          front = s.front;
          back = node ∷ s.back;
          ring = rw s.at ring;
          at = refl;
          stores_front =
              inserted-keeps v node rest s.front vs unused
                (λ q i. s.ring.alive q (ground (arith, i, elem-append q s.front s.back)))
                s.stores_front;
          stores_back =
              let same : (node == node) ≡ true = ground arith in
              (
                rw same,
                inserted-keeps v node rest s.back ws unused
                    (λ q i. s.ring.alive q (ground (arith, i, elem-append q s.front s.back)))
                    s.stores_back,
              );
        },
        IsFresh-inserted v node rest supply f,
      )

module _ {T : Type 0} (m : Memory T) (middle : Address) where
  -- `erase` at an iterator that stands before `v` takes `v` out, deletes its node, and returns an
  -- iterator that stands where `v` was.
  pub erase-Stands :
      {posn : Address} {vs ws : List T} {v : T}
      → Stands m middle posn vs (v ∷ ws)
      → (k : Memory T) × (after : Address) × (erase posn m ≡ ok after k)
        × Stands k middle after vs ws
        × (k.live posn ≡ false)
  erase-Stands {posn} {vs} {ws} {v} s = go s.front s.back s.ring s.at s.stores_front s.stores_back
    where
      go :
          (front back : List Address)
          → Ring m middle (front ++ back)
          → posn ≡ first_of back middle
          → Stores m front vs
          → Stores m back (v ∷ ws)
          → (k : Memory T) × (after : Address) × (erase posn m ≡ ok after k)
            × Stands k middle after vs ws
            × (k.live posn ≡ false)
      go front [] ring at sf sb = absurd sb
      go front (p ∷ back) ring at sf (e, sb) =
          let (returns, ring') = erase-Ring m middle p front back ring in
          let same : (p == p) ≡ true = ground arith in
          (
            erased m p,
            first_of back middle,
            rw at returns,
            record {
              front = front;
              back = back;
              ring = ring';
              at = refl;
              stores_front = sf;
              stores_back = sb;
            },
            rw (at, same),
          )
