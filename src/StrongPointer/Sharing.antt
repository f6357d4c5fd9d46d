-- ===== src/StrongPointer/Sharing.antt =====
-- Every operation of `sp` keeps each count the number of handles.
use qf.Prelude.{
  ℕ, zero, suc, ◌+◌, ◌-◌, ◌<◌, ◌^◌, ◌≡◌, refl, sym, arith, true, List, [], ◌∷◌, ◌++◌, Option, none,
  some, ◌==◌, length, get_elem?, set, ap, ◌∙◌, Bool-cases, inl, inr, ==_iff,
}
use qf.StrongPointer.{
  ◌>>=◌, Object, Handle, holds, gone, World, update, new_object, inc_strong, acquire, pointer_of,
  sp_of_pointer, sp_copy, sp_destroy, sp_assign_pointer, sp_assign, sp_clear, sp_of_new,
}
use qf.StrongPointer.Refs.{
  points, refs, points-le, refs-append, refs-length, refs-set, refs_of_held, exact, IsCounted,
}
use qf.StrongPointer.Counting.{
  AtLeast, with_counts, Exact-congr, acquire-Exact, release-Exact, exact_of_zero, dec_strong-Exact,
}

-- A run of an operation that succeeds, with these handles afterwards and every count right.
abbrev pub Leaves : Option World → List Handle → Type 0
Leaves r hs = (w : World) × (r ≡ some w) × (w.handles ≡ hs) × IsCounted w

-- The object that `p` points to, if any, has a handle.
abbrev pub IsLive : World → Option Object → Type 0
IsLive w = AtLeast 1 (λ q. refs q w.handles)

-- There is room for one more handle.
abbrev pub HasRoom : World → Type 0
HasRoom w = length w.handles < 2 ^ 32 - 1

held :
    (h : Option Handle) (p : Option Object)
    → (h >>= λ k. elim k [ holds m ↦ some m | gone ↦ none ]) ≡ some p
    → h ≡ some (holds p)
held none p e = cc e
held (some (holds m)) p e = cc e
held (some gone) p e = cc e

pub pointer_of-get :
    (i : ℕ) (w : World) (p : Option Object)
    → pointer_of i w ≡ some p
    → get_elem? w.handles i ≡ some (holds p)
unfolding pointer_of
pointer_of-get i w p e = held (get_elem? w.handles i) p e

points_self : (o : Object) → points (holds (some o)) o ≡ 1
points_self o = ground arith

module _ (w : World) (counted : IsCounted w) where
  refs_small : (o : Object) → HasRoom w → refs o w.handles < 2 ^ 32 - 1
  refs_small o room = omega (arith, refs-length o w.handles)

  pub IsLive-of_held : (i : ℕ) (p : Option Object) → pointer_of i w ≡ some p → IsLive w p
  IsLive-of_held i p at o e =
      let same : points (holds p) o ≡ 1 = rw e (points_self o) in
      omega (arith, refs_of_held o w.handles i (holds p) (pointer_of-get i w p at))

  -- With right counts and fewer than 2 ^ 32 - 1 handles, a handle that is made from a pointer
  -- to a live object, or from the null pointer, becomes the last handle, and every count is right.
  pub sp_of_pointer-Leaves :
      (other : Option Object)
      → IsLive w other
      → HasRoom w
      → Leaves (sp_of_pointer other w) (w.handles ++ holds other ∷ [])
  unfolding sp_of_pointer
  sp_of_pointer-Leaves other live room =
      let w1 : World = record w { handles = w.handles ++ holds other ∷ [] } in
      let (c, returns, right) =
        acquire-Exact w1 (λ q. refs q w.handles) counted other live (λ o. refs_small o room) in
      (
        with_counts w1 c,
        returns,
        refl,
        Exact-congr right (λ q. sym (refs-append q w.handles (holds other))),
      )

  -- With right counts and fewer than 2 ^ 32 - 1 handles, a copy of a handle points where the
  -- handle points, and every count is right.
  pub sp_copy-Leaves :
      (j : ℕ) (other : Option Object)
      → pointer_of j w ≡ some other
      → HasRoom w
      → Leaves (sp_copy j w) (w.handles ++ holds other ∷ [])
  unfolding sp_copy sp_of_pointer
  sp_copy-Leaves j other at room =
      rw at (sp_of_pointer-Leaves other (IsLive-of_held j other at) room)

  -- With right counts and fewer than 2 ^ 32 - 1 handles, destroying an existing handle frees
  -- its object when that was the last handle, and else takes one off the count; every other count
  -- stays right.
  pub sp_destroy-Leaves :
      (i : ℕ) (p : Option Object)
      → pointer_of i w ≡ some p
      → HasRoom w
      → Leaves (sp_destroy i w) (set w.handles i gone)
  unfolding sp_destroy
  sp_destroy-Leaves i p at room =
      let (c, returns, right) =
        release-Exact w (λ q. refs q w.handles) counted p (IsLive-of_held i p at)
          (λ o. omega (arith, refs_small o room)) in
      (
        record w { counts = c; handles = set w.handles i gone },
        rw (at, returns),
        refl,
        Exact-congr right
            (λ q. omega (arith, refs-set q w.handles i (holds p) gone (pointer_of-get i w p at))),
      )

  -- With right counts and fewer than 2 ^ 32 - 1 handles, assigning a pointer to a live object,
  -- or the null pointer, to an existing handle makes it point there, and every count is right
  -- afterwards. So the object that it pointed to is freed when that was its last handle and the
  -- pointer is another one.
  pub sp_assign_pointer-Leaves :
      (i : ℕ) (p other : Option Object)
      → pointer_of i w ≡ some p
      → IsLive w other
      → HasRoom w
      → Leaves (sp_assign_pointer i other w) (set w.handles i (holds other))
  unfolding sp_assign_pointer pointer_of
  sp_assign_pointer-Leaves i p other at live room =
      let (c1, acquired, right1) =
        acquire-Exact w (λ q. refs q w.handles) counted other live (λ o. refs_small o room) in
      let (c2, released, right2) =
        release-Exact (with_counts w c1) (λ q. refs q w.handles + points (holds other) q) right1 p
          (λ o e. omega (arith, IsLive-of_held i p at o e))
          (λ o. omega (arith, refs_small o room, points-le (holds other) o)) in
      (
        record w { counts = c2; handles = set w.handles i (holds other) },
        rw (acquired, at, released),
        refl,
        Exact-congr right2 (λ q.
            omega
              (arith, refs-set q w.handles i (holds p) (holds other) (pointer_of-get i w p at))),
      )

  -- With right counts and fewer than 2 ^ 32 - 1 handles, assigning an existing handle `j` to an
  -- existing handle `i`, the same one included, makes `i` point where `j` points, and every count
  -- is right afterwards. So the object that `i` pointed to is freed when that was its last handle and
  -- `j` points elsewhere, and an assignment of a handle to itself frees nothing.
  pub sp_assign-Leaves :
      (i j : ℕ) (p other : Option Object)
      → pointer_of i w ≡ some p
      → pointer_of j w ≡ some other
      → HasRoom w
      → Leaves (sp_assign i j w) (set w.handles i (holds other))
  unfolding sp_assign sp_assign_pointer
  sp_assign-Leaves i j p other at from room =
      rw from (sp_assign_pointer-Leaves i p other at (IsLive-of_held j other from) room)

set-same {ℓ} :
    {A : Type ℓ} (xs : List A) (i : ℕ) (v : A) → get_elem? xs i ≡ some v → set xs i v ≡ xs
set-same [] i v e = refl
set-same (x ∷ xs) zero v e = cc e
set-same (x ∷ xs) (suc i) v e = ap (λ ys. x ∷ ys) (set-same xs i v e)

module _ (w : World) (counted : IsCounted w) where
  -- With right counts and fewer than 2 ^ 32 - 1 handles, an existing handle is null after
  -- `clear`; the object that it pointed to is freed when that was its last handle, and every count
  -- is right.
  pub sp_clear-Leaves :
      (i : ℕ) (p : Option Object)
      → pointer_of i w ≡ some p
      → HasRoom w
      → Leaves (sp_clear i w) (set w.handles i (holds none))
  unfolding sp_clear
  sp_clear-Leaves i none at room =
      (w, rw at, sym (set-same w.handles i (holds none) (pointer_of-get i w none at)), counted)
  sp_clear-Leaves i (some o) at room =
      let (c, returns, right) =
        dec_strong-Exact w (λ q. refs q w.handles) counted o
          (IsLive-of_held w counted i (some o) at o refl)
          (omega (arith, refs_small w counted o room)) in
      (
        record w { counts = c; handles = set w.handles i (holds none) },
        rw (at, returns),
        refl,
        Exact-congr right (λ q. omega (
          arith,
          refs-set q w.handles i (holds (some o)) (holds none) (pointer_of-get i w (some o) at),
        )),
      )

  new_object-free :
      (o : Object)
      → w.counts o ≡ none
      → new_object o w ≡ some (with_counts w (update o (some 0) w.counts))
  unfolding new_object
  new_object-free o free = rw free

  inc_strong-first :
      (o : Object) (hs : List Handle)
      → inc_strong o (record { counts = update o (some 0) w.counts; handles = hs })
        ≡ some (record { counts = update o (some 1) (update o (some 0) w.counts); handles = hs })
  unfolding inc_strong
  inc_strong-first o hs = let same : (o == o) ≡ true = ground arith in rw same

  -- With right counts, a handle for a new object, at a place that no handle refers to, becomes the
  -- last handle; the object has count 1, and every other count is right.
  pub sp_of_new-Leaves :
      (o : Object)
      → refs o w.handles ≡ 0
      → Leaves (sp_of_new o w) (w.handles ++ holds (some o) ∷ [])
  unfolding sp_of_new sp_of_pointer acquire
  sp_of_new-Leaves o unused =
      let free : w.counts o ≡ none = counted o ∙ exact_of_zero (refs o w.handles) unused in
      let hs = w.handles ++ holds (some o) ∷ [] in
      let all = λ (q : Object). refs-append q w.handles (holds (some o)) in
      (
        record { counts = update o (some 1) (update o (some 0) w.counts); handles = hs },
        rw (new_object-free o free) (inc_strong-first o hs),
        refl,
        λ q. elim (Bool-cases (q == o)) [
          | inl same ↦
              let here : q ≡ o = (==_iff q o).0 same in
              let one : refs q hs ≡ 1 = rw here (ground (arith, all o)) in rw (same, one)
          | inr apart ↦
              let kept : refs q w.handles ≡ refs q hs = ground (arith, all q) in
              rw apart (counted q ∙ ap exact kept)
        ],
      )
