-- ===== src/LinkedList/Range.antt =====
-- `insert` of a range of RS485/tl/native_client/jni/utils/List.h, from one list into another.
use mathlib.Core.List.{append-nil, append_assoc}
use qf.Prelude.{
  ℕ, zero, suc, ◌<◌, ◌≤◌, ◌≡◌, refl, ◌∙◌, arith, ==_iff, Bool-cases, inl, inr, true, false, List,
  [], ◌∷◌, ◌++◌, ◌==◌, some, length,
}
use qf.Bits.Table.{elem}
use qf.LinkedList.{Address, Memory, ok, get_ref, get_next, insert_range}
use qf.LinkedList.Chain.{
  ◌∈◌, ◌∉◌, elem-append, first_of, last_of, last_of-mem, Chain, Chain-uncons, next-first_of,
  Chain-split, prev-last_of, Ring,
}
use qf.LinkedList.Nodes.{apart_of_live, ==-mem, mem-left}
use qf.LinkedList.Change.{inserted}
use qf.LinkedList.Insert.{insert-Ring}
use qf.LinkedList.Contents.{Stores, IsFresh, IsFresh-inserted}

module _ {T : Type 0} where
  -- From the first of `ps` the nodes lead by `mpNext` to `stop`, and hold the values `us`.
  abbrev pub Walks : Memory T → List Address → List T → Address → Type 0
  Walks m [] [] stop = Unit {0}
  Walks m [] (u ∷ us) stop = ⊥
  Walks m (p ∷ ps) [] stop = ⊥
  Walks m (p ∷ ps) (u ∷ us) stop =
      (m.live p ≡ true) × (m.val p ≡ some u) × (m.next p ≡ first_of ps stop) × Walks m ps us stop

  pub Walks-Chain :
      (m : Memory T) (a : Address) (ps : List Address) (us : List T) (stop : Address)
      → Chain m a ps stop
      → ((q : Address) → q ∈ ps → m.live q ≡ true)
      → Stores m ps us
      → Walks m ps us stop
  unfolding elem
  Walks-Chain m a [] [] stop c alive s = tt
  Walks-Chain m a [] (u ∷ us) stop c alive s = s
  Walks-Chain m a (p ∷ ps) [] stop c alive s = s
  Walks-Chain m a (p ∷ ps) (u ∷ us) stop c alive (e, s) =
      let (to, back, rest) = Chain-uncons m a p ps stop c in
      (
        alive p (ground arith),
        e,
        next-first_of m p ps stop rest,
        Walks-Chain m p ps us stop rest (λ q i. alive q (ground (arith, i))) s,
      )

  -- A walk stays when its nodes stay.
  pub Walks-frame :
      (m k : Memory T) (ps : List Address) (us : List T) (stop : Address)
      → ((q : Address)
          → q ∈ ps
          → m.live q ≡ true
          → (k.live q ≡ true) × (k.val q ≡ m.val q) × (k.next q ≡ m.next q))
      → Walks m ps us stop
      → Walks k ps us stop
  unfolding elem
  Walks-frame m k [] [] stop same w = tt
  Walks-frame m k [] (u ∷ us) stop same w = w
  Walks-frame m k (p ∷ ps) [] stop same w = w
  Walks-frame m k (p ∷ ps) (u ∷ us) stop same (on, val, next, w) =
      let (on', val', next') = same p (ground arith) on in
      (
        on',
        val' ∙ val,
        next' ∙ next,
        Walks-frame m k ps us stop (λ q i. same q (ground (arith, i))) w,
      )

  pub live_of_Walks :
      (m : Memory T) (ps : List Address) (us : List T) (stop q : Address)
      → Walks m ps us stop
      → q ∈ ps
      → m.live q ≡ true
  unfolding elem
  live_of_Walks m [] us stop q w i = cc i
  live_of_Walks m (p ∷ ps) [] stop q w i = absurd w
  live_of_Walks m (p ∷ ps) (u ∷ us) stop q (on, val, next, w) i = elim (Bool-cases (q == p)) [
    | inl same ↦ let e : q ≡ p = (==_iff q p).0 same in rw e on
    | inr other ↦ live_of_Walks m ps us stop q w (ground (arith, i))
  ]

  -- A live node outside of `nodes` is in `k` as in `m`; no live node loses its value.
  pub record Spares (m k : Memory T) (nodes : List Address) : Type 0 where
    pub live : (q : Address) → m.live q ≡ true → k.live q ≡ true
    pub val : (q : Address) → m.live q ≡ true → k.val q ≡ m.val q
    pub next : (q : Address) → m.live q ≡ true → q ∉ nodes → k.next q ≡ m.next q
    pub prev : (q : Address) → m.live q ≡ true → q ∉ nodes → k.prev q ≡ m.prev q

pub uncons :
    (n : ℕ) (xs : List Address)
    → suc n ≤ length xs
    → (a : Address) × (rest : List Address) × (xs ≡ a ∷ rest) × (n ≤ length rest)
uncons n [] h = absurd (omega arith)
uncons n (x ∷ xs) h = (x, xs, refl, omega arith)

pub first_of-mem :
    (middle : Address) (front back : List Address) → first_of back middle ∈ middle ∷ front ++ back
unfolding elem
first_of-mem middle front [] = ground arith
first_of-mem middle front (p ∷ back) = ground (arith, elem-append p front (p ∷ back))

module _ {T : Type 0} (middle : Address) where
  prev-first_of :
      (m : Memory T) (front back : List Address)
      → Chain m middle (front ++ back) middle
      → m.prev (first_of back middle) ≡ last_of middle front
  prev-first_of m front [] c =
      let c' : Chain m middle front middle = rw (append-nil front) at c in
      prev-last_of m middle front middle c'
  prev-first_of m front (p ∷ back) c =
      prev-last_of m middle front p (Chain-split m middle front p back middle c).0

  inserted-Spares :
      (m : Memory T) (v : T) (node : Address) (rest front back : List Address)
      → m.live node ≡ false
      → Ring m middle (front ++ back)
      → Spares m (inserted m (first_of back middle) v node rest) (middle ∷ front ++ back)
  inserted-Spares m v node rest front back unused r =
      let posn = first_of back middle in
      let nodes = middle ∷ front ++ back in
      let before : m.prev posn ∈ nodes =
        rw (prev-first_of m front back r.linked)
          (mem-left (last_of middle front) (middle ∷ front) back (last_of-mem middle front)) in
      let fresh = λ (q : Address) (on : m.live q ≡ true). apart_of_live m.live on unused in
      record {
        live = λ q on. rw (fresh q on) on;
        val = λ q on. rw (fresh q on);
        next = λ q on out.
            let off : (m.prev posn == q) ≡ false = ==-mem (m.prev posn) q nodes before out in
            let off' : (q == m.prev posn) ≡ false = ground arith in rw (off', fresh q on);
        prev = λ q on out.
            let off : (posn == q) ≡ false =
              ==-mem posn q nodes (first_of-mem middle front back) out in
            let off' : (q == posn) ≡ false = ground arith in rw (off', fresh q on);
      }

  pub get_ref-ok :
      (m : Memory T) (p : Address) (v : T)
      → m.live p ≡ true
      → m.val p ≡ some v
      → get_ref p m ≡ ok v m
  unfolding get_ref
  get_ref-ok m p v on val = rw (on, val, get_ref)

  pub get_next-ok : (m : Memory T) (p : Address) → m.live p ≡ true → get_next p m ≡ ok (m.next p) m
  unfolding get_next
  get_next-ok m p on = rw on

  -- The rounds of the loop, at a list in two parts.
  pub range_core :
      (fuel : ℕ) (m : Memory T) (front back ps : List Address) (us : List T) (stop : Address)
      → Ring m middle (front ++ back)
      → IsFresh m
      → Walks m ps us stop
      → stop ∉ ps
      → ((q : Address) → q ∈ ps → q ∉ middle ∷ front ++ back)
      → length ps < fuel
      → length us ≤ length m.supply
      → (k : Memory T) × (ns : List Address) × (insert_range fuel
            (first_of back middle)
            (first_of ps stop)
            stop
            m
          ≡ ok tt k)
        × Ring k middle ((front ++ ns) ++ back)
        × Stores k ns us
        × Spares m k (middle ∷ front ++ back)
        × IsFresh k
  unfolding insert_range elem
  range_core zero m front back ps us stop r f w out apart enough room = absurd (omega arith)
  range_core (suc fuel) m front back [] [] stop r f w out apart enough room =
      let same : (stop == stop) ≡ true = ground arith in
      (
        m,
        [],
        rw same,
        rw (append-nil front) r,
        tt,
        record {
          live = λ q on. on;
          val = λ q on. refl;
          next = λ q on o. refl;
          prev = λ q on o. refl;
        },
        f,
      )
  range_core (suc fuel) m front back [] (u ∷ us) stop r f w out apart enough room = absurd w
  range_core (suc fuel) m front back (p ∷ ps) [] stop r f w out apart enough room = absurd w
  range_core (suc fuel) m front back (p ∷ ps) (u ∷ us) stop r f (on, val, next, w) out apart enough
        room =
      let (node, rest, supply, left) = uncons (length us) m.supply room in
      let unused : m.live node ≡ false = f.unused node (rw supply (ground arith)) in
      let m1 = inserted m (first_of back middle) u node rest in
      let (returns, ring) = insert-Ring m middle u node rest supply unused front back r in
      let spares = inserted-Spares m u node rest front back unused r in
      let assoc : (front ++ node ∷ []) ++ back ≡ front ++ node ∷ back =
        append_assoc front (node ∷ []) back in
      let ring1 : Ring m1 middle ((front ++ node ∷ []) ++ back) = rw assoc ring in
      let f1 = IsFresh-inserted m middle (first_of back middle) u node rest supply f in
      let w1 =
        Walks-frame m m1 ps us stop
          (λ q i live. (
            spares.live q live,
            spares.val q live,
            spares.next q live (apart q (ground (arith, i))),
          ))
          w in
      let wider : (q : Address)
          → m.live q ≡ true
          → q ∉ middle ∷ front ++ back
          → q ∉ middle ∷ (front ++ node ∷ []) ++ back =
        λ q live o.
          let other : (q == node) ≡ false = apart_of_live m.live live unused in
          ground (
            arith,
            elem-append q (front ++ node ∷ []) back,
            elem-append q front (node ∷ []),
            elem-append q front back,
          ) in
      let other : (p == stop) ≡ false = ground arith in
      let on1 : m1.live p ≡ true = spares.live p on in
      let next1 : m1.next p ≡ first_of ps stop = spares.next p on (apart p (ground arith)) ∙ next in
      let same : (node == node) ≡ true = ground arith in
      let (k, ns, runs, ring', stores, spares', f') =
        range_core fuel m1 (front ++ node ∷ []) back ps us stop ring1 f1 w1 (ground arith)
          (λ q i. wider q (live_of_Walks m ps us stop q w i) (apart q (ground (arith, i))))
          (omega arith) left in
      (
        k,
        node ∷ ns,
        rw (other, get_ref-ok m p u on val)
            (rw returns (rw (get_next-ok m1 p on1) (rw next1 runs))),
        rw (append_assoc front (node ∷ []) ns) at ring',
        (spares'.val node (rw same) ∙ rw same, stores),
        record {
          live = λ q live. spares'.live q (spares.live q live);
          val = λ q live. spares'.val q (spares.live q live) ∙ spares.val q live;
          next = λ q live o.
              spares'.next q (spares.live q live) (wider q live o) ∙ spares.next q live o;
          prev = λ q live o.
              spares'.prev q (spares.live q live) (wider q live o) ∙ spares.prev q live o;
        },
        f',
      )
