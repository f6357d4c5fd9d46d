-- ===== src/LinkedList/Overwrite.antt =====
-- The two loops of `operator=` of RS485/tl/native_client/jni/utils/List.h that run over the nodes
-- of the target: the one that copies values, and `erase` of a range.
use qf.Prelude.{
  ℕ, zero, suc, ◌<◌, ◌≤◌, ◌≡◌, ◌⊎◌, refl, ap, ◌∙◌, arith, inl, inr, true, false, List, [], ◌∷◌,
  ◌++◌, ◌==◌, Option, some, length,
}
use qf.Bits.Table.{elem}
use qf.LinkedList.{Address, Memory, update, Run, ok, set_val, assign_loop}
use qf.LinkedList.Chain.{
  ◌∈◌, ◌∉◌, Distinct, first_of, Chain, Chain-uncons, Chain-frame, next-first_of, Ring,
}
use qf.LinkedList.Contents.{Stores}
use qf.LinkedList.Range.{Walks, Walks-frame, get_ref-ok, get_next-ok}

module _ {T : Type 0} where
  abbrev pub with_val : Memory T → (Address → Option T) → Memory T
  with_val m val = record m { val = val }

  pub Ring-val :
      (m : Memory T) (val : Address → Option T) (middle : Address) (ps : List Address)
      → Ring m middle ps
      → Ring (with_val m val) middle ps
  Ring-val m val middle ps r = record {
    linked = Chain-frame m (with_val m val) middle ps middle (λ q i. refl) (λ q i. refl) r.linked;
    distinct = r.distinct;
    alive = r.alive;
  }

  set_val-ok :
      (m : Memory T) (p : Address) (v : T)
      → m.live p ≡ true
      → set_val p v m ≡ ok tt (with_val m (update p (some v) m.val))
  unfolding set_val
  set_val-ok m p v on = rw on

  -- Where the loop stops: the nodes `used` hold the values `done`; one of the two lists is at its
  -- end, and no other value has changed.
  pub record Copied (m : Memory T) (ds ps : List Address) (us : List T)
      (last_dst last_src : Address) (r : Run T (Address × Address)) : Type 0 where
    pub val : Address → Option T
    pub used : List Address
    pub left : List Address
    pub done : List T
    pub todo_nodes : List Address
    pub todo : List T
    pub returns : r ≡ ok (first_of left last_dst, first_of todo_nodes last_src) (with_val m val)
    pub nodes : ds ≡ used ++ left
    pub values : us ≡ done ++ todo
    pub stored : Stores (with_val m val) used done
    pub walk : Walks (with_val m val) todo_nodes todo last_src
    pub stops : last_src ∉ todo_nodes
    pub shorter : length todo_nodes ≤ length ps
    pub subset : (q : Address) → q ∈ todo_nodes → q ∈ ps
    pub one_ends : (left ≡ []) ⊎ (todo_nodes ≡ [])
    pub others : (q : Address) → q ∉ ds → val q ≡ m.val q

  pub assign_loop-Copied :
      (fuel : ℕ) (m : Memory T) (a : Address) (ds ps : List Address) (us : List T)
      (last_dst last_src : Address)
      → Chain m a ds last_dst
      → last_dst ∉ ds
      → Distinct ds
      → ((q : Address) → q ∈ ds → m.live q ≡ true)
      → Walks m ps us last_src
      → last_src ∉ ps
      → ((q : Address) → q ∈ ps → q ∉ ds)
      → length ps < fuel
      → Copied m ds ps us last_dst last_src
          (assign_loop fuel (first_of ds last_dst) (first_of ps last_src) last_dst last_src m)
  unfolding assign_loop elem
  assign_loop-Copied zero m a ds ps us last_dst last_src c od dd al w os apart enough =
      absurd (omega arith)
  assign_loop-Copied (suc fuel) m a ds [] [] last_dst last_src c od dd al w os apart enough =
      let same : (last_src == last_src) ≡ true = ground arith in
      record {
        val = m.val;
        used = [];
        left = ds;
        done = [];
        todo_nodes = [];
        todo = [];
        returns = rw same;
        nodes = refl;
        values = refl;
        stored = tt;
        walk = tt;
        stops = refl;
        shorter = omega arith;
        subset = λ q i. i;
        one_ends = inr refl;
        others = λ q o. refl;
      }
  assign_loop-Copied (suc fuel) m a ds [] (u ∷ us) last_dst last_src c od dd al w os apart enough =
      absurd w
  assign_loop-Copied (suc fuel) m a ds (p ∷ ps) [] last_dst last_src c od dd al w os apart enough =
      absurd w
  assign_loop-Copied (suc fuel) m a [] (p ∷ ps) (u ∷ us) last_dst last_src c od dd al w os apart
        enough =
      let same : (last_dst == last_dst) ≡ true = ground arith in
      let other : (p == last_src) ≡ false = ground arith in
      record {
        val = m.val;
        used = [];
        left = [];
        done = [];
        todo_nodes = p ∷ ps;
        todo = u ∷ us;
        returns = rw (other, same);
        nodes = refl;
        values = refl;
        stored = tt;
        walk = w;
        stops = os;
        shorter = omega arith;
        subset = λ q i. i;
        one_ends = inl refl;
        others = λ q o. refl;
      }
  assign_loop-Copied (suc fuel) m a (d ∷ ds) (p ∷ ps) (u ∷ us) last_dst last_src c od dd al
        (on, val, next, w) os apart enough =
      let (to, back, rest) = Chain-uncons m a d ds last_dst c in
      let next_d : m.next d ≡ first_of ds last_dst = next-first_of m d ds last_dst rest in
      let other : (p == last_src) ≡ false = ground arith in
      let other_d : (d == last_dst) ≡ false = ground arith in
      let on_d : m.live d ≡ true = al d (ground arith) in
      let m1 = with_val m (update d (some u) m.val) in
      let rest1 : Chain m1 d ds last_dst =
        Chain-frame m m1 d ds last_dst (λ q i. refl) (λ q i. refl) rest in
      let w1 : Walks m1 ps us last_src =
        Walks-frame m m1 ps us last_src
          (λ q i live. let off : (q == d) ≡ false = ground (arith, apart q) in (live, rw off, refl))
          w in
      let ih =
        assign_loop-Copied fuel m1 d ds ps us last_dst last_src rest1 (ground arith) dd.1
          (λ q i. al q (ground (arith, i))) w1 (ground arith) (λ q i. ground (arith, apart q))
          (omega arith) in
      let same : (d == d) ≡ true = ground arith in
      record {
        val = ih.val;
        used = d ∷ ih.used;
        left = ih.left;
        done = u ∷ ih.done;
        todo_nodes = ih.todo_nodes;
        todo = ih.todo;
        returns =
            rw (other, other_d, get_ref-ok last_dst m p u on val)
              (rw (set_val-ok m d u on_d) (
                rw (get_next-ok last_dst m1 d on_d)
                  (rw (next_d, get_next-ok last_dst m1 p on) (rw next ih.returns))));
        nodes = ap (λ l. d ∷ l) ih.nodes;
        values = ap (λ l. u ∷ l) ih.values;
        stored = (ih.others d dd.0 ∙ rw same, ih.stored);
        walk = ih.walk;
        stops = ih.stops;
        shorter = omega (arith, ih.shorter);
        subset = λ q i. ground (arith, ih.subset q i);
        one_ends = ih.one_ends;
        others =
            λ q o. let off : (q == d) ≡ false = ground arith in ih.others q (ground arith) ∙ rw off;
      }
