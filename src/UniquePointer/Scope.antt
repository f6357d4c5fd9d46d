-- ===== src/UniquePointer/Scope.antt =====
-- The life of one `UniquePtr` of RS485/tl/native_client/jni/utils/UniquePtr.h: what is done to it
-- between its constructor and its destructor.
use qf.Prelude.{
  ◌≡◌, refl, sym, ap, ◌∙◌, arith, List, [], ◌∷◌, Option, none, some, Bool, true, false, not, ◌||◌,
  ◌==◌, ==_iff, Bool-cases, inl, inr,
}
use qf.StrongPointer.{◌>>=◌}
use qf.Bits.Table.{elem}
use qf.UniquePointer.{
  Address, Heap, set_block, is_null, default_delete, same_pointer, UniquePtr, unique, get, release,
  reset, destroy,
}

-- The pointer, the heap, and the addresses that were released to the program.
pub record State (A : Type 0) : Type 0 where
  pub pointer : UniquePtr
  pub heap : Heap A
  pub kept : List Address

-- `reset_new` is `reset(new T(v))`, at an address that is free.
pub data Step (A : Type 0) : Type 0 where
  reset_new : Address → A → Step A
  reset_null : Step A
  reset_self : Step A
  release_it : Step A

abbrev pub keep : Option Address → List Address → List Address
keep none kept = kept
keep (some a) kept = a ∷ kept

abbrev pub owns : Option Address → Address → Bool
owns none q = false
owns (some a) q = q == a

same_self : (p : Option Address) → same_pointer p p ≡ true
same_self none = refl
same_self (some a) = ground arith

same_pointer-owns : (p : Option Address) (a : Address) → same_pointer (some a) p ≡ owns p a
same_pointer-owns none a = refl
same_pointer-owns (some b) a = refl

module _ {A : Type 0} where
  abbrev with_reset : Option Address → State A → Option (State A)
  with_reset p s = do
    (u, h) ← reset default_delete p s.pointer s.heap
    some (record { pointer = u; heap = h; kept = s.kept })

  unfoldable pub step : Step A → State A → Option (State A)
  unfolding reset default_delete release
  step (reset_new a v) s =
      with_reset (some a) (record s { heap = set_block a (some (v ∷ [])) s.heap })
  step reset_null s = with_reset none s
  step reset_self s = with_reset (get s.pointer) s
  step release_it s =
      let (p, u) = release s.pointer in
      some (record { pointer = u; heap = s.heap; kept = keep p s.kept })

  unfoldable pub steps : List (Step A) → State A → Option (State A)
  unfolding step
  steps [] s = some s
  steps (op ∷ ops) s = do s ← step op s; steps ops s

  -- The steps, and the destructor.
  unfoldable pub scope : List (Step A) → State A → Option (State A)
  unfolding steps destroy default_delete
  scope ops s = do
    s ← steps ops s
    h ← destroy default_delete s.pointer s.heap
    some (record s { heap = h })

  -- What is allocated is what the pointer owns, and apart from that what was released.
  pub record IsOwned (s : State A) : Type 0 where
    pub allocated :
        (q : Address) → not (is_null (s.heap q)) ≡ (owns s.pointer.m_ptr q || elem q s.kept)
    pub apart : (q : Address) → owns s.pointer.m_ptr q ≡ true → elem q s.kept ≡ false

  -- Where `new` puts an object nothing is allocated.
  abbrev pub Fits : Step A → State A → Type 0
  Fits (reset_new a v) s = s.heap a ≡ none
  Fits reset_null s = Unit {0}
  Fits reset_self s = Unit {0}
  Fits release_it s = Unit {0}

  abbrev pub IsProper : List (Step A) → State A → Type 0
  IsProper [] s = Unit {0}
  IsProper (op ∷ ops) s = Fits op s × ((s' : State A) → step op s ≡ some s' → IsProper ops s')

  abbrev Keeps : Option (State A) → Type 0
  Keeps r = (s : State A) × (r ≡ some s) × IsOwned s

  block_of : (b : Option (List A)) → not (is_null b) ≡ true → (v : List A) × (b ≡ some v)
  block_of none e = cc e
  block_of (some v) e = (v, refl)

  -- The block that the pointer owns is freed.
  delete-allocated :
      (p : Option Address) (kept : List Address) (h : Heap A)
      → ((q : Address) → not (is_null (h q)) ≡ (owns p q || elem q kept))
      → ((q : Address) → owns p q ≡ true → elem q kept ≡ false)
      → (k : Heap A) × (default_delete p h ≡ some k)
        × ((q : Address) → not (is_null (k q)) ≡ elem q kept)
  unfolding default_delete
  delete-allocated none kept h allocated apart = (h, refl, allocated)
  delete-allocated (some a) kept h allocated apart =
      let same : (a == a) ≡ true = ground arith in
      let (v, full) = block_of (h a) (allocated a ∙ rw same refl) in
      (
        set_block a none h,
        rw full refl,
        λ q. elim (Bool-cases (q == a)) [
          | inl here ↦ rw here (sym (apart q here))
          | inr other ↦ rw other (allocated q ∙ rw other refl)
        ],
      )

  reset_null-Keeps : (s : State A) → IsOwned s → Keeps (with_reset none s)
  unfolding reset
  reset_null-Keeps s o = go s.pointer.m_ptr o.allocated o.apart
    where
      go :
          (p : Option Address)
          → ((q : Address) → not (is_null (s.heap q)) ≡ (owns p q || elem q s.kept))
          → ((q : Address) → owns p q ≡ true → elem q s.kept ≡ false)
          → Keeps (with_reset none (record s { pointer = unique p }))
      go none allocated apart = (
        record s { pointer = unique none },
        refl,
        record { allocated = allocated; apart = apart },
      )
      go (some a) allocated apart =
          let (k, runs, left) = delete-allocated (some a) s.kept s.heap allocated apart in
          (
            record { pointer = unique none; heap = k; kept = s.kept },
            rw runs refl,
            record { allocated = left; apart = λ q e. cc e },
          )

  reset_new-Keeps :
      (a : Address) (v : A) (s : State A)
      → IsOwned s
      → s.heap a ≡ none
      → Keeps (with_reset (some a) (record s { heap = set_block a (some (v ∷ [])) s.heap }))
  unfolding reset elem
  reset_new-Keeps a v s o free =
      let p = s.pointer.m_ptr in
      let none_at : false ≡ (owns p a || elem a s.kept) =
        sym (ap (λ b. not (is_null b)) free) ∙ o.allocated a in
      let off : owns p a ≡ false = ground arith in
      let heap = set_block a (some (v ∷ [])) s.heap in
      let (k, runs, left) =
        delete-allocated p (a ∷ s.kept) heap
          (λ q. elim (Bool-cases (q == a)) [
            | inl here ↦ rw here (ground arith)
            | inr other ↦ rw other (o.allocated q)
          ])
          (λ q e. elim (Bool-cases (q == a)) [
            | inl here ↦ let same : q ≡ a = (==_iff q a).0 here in cc (ap (owns p) same, e, off)
            | inr other ↦ rw other (o.apart q e)
          ]) in
      (
        record { pointer = unique (some a); heap = k; kept = s.kept },
        rw (same_pointer-owns p a, off) (rw runs refl),
        record {
          allocated = left;
          apart = λ q e.
              let same : q ≡ a = (==_iff q a).0 e in
              let clear : elem a s.kept ≡ false = ground arith in rw same clear;
        },
      )

  release-Keeps :
      (p : Option Address) (s : State A)
      → s.pointer.m_ptr ≡ p
      → IsOwned s
      → IsOwned (record { pointer = unique none; heap = s.heap; kept = keep p s.kept })
  unfolding elem
  release-Keeps none s at o = record {
    allocated = λ q. o.allocated q ∙ rw at refl;
    apart = λ q e. cc e;
  }
  release-Keeps (some a) s at o = record {
    allocated = λ q. o.allocated q ∙ rw at refl;
    apart = λ q e. cc e;
  }

  step-Keeps : (op : Step A) (s : State A) → IsOwned s → Fits op s → Keeps (step op s)
  unfolding step release reset
  step-Keeps (reset_new a v) s o fits = reset_new-Keeps a v s o fits
  step-Keeps reset_null s o fits = reset_null-Keeps s o
  step-Keeps reset_self s o fits = (s, rw (same_self s.pointer.m_ptr) refl, o)
  step-Keeps release_it s o fits = (_, refl, release-Keeps s.pointer.m_ptr s refl o)

  steps-Keeps :
      (ops : List (Step A)) (s : State A) → IsOwned s → IsProper ops s → Keeps (steps ops s)
  unfolding steps
  steps-Keeps [] s o proper = (s, refl, o)
  steps-Keeps (op ∷ ops) s o (fits, rest) =
      let (s', returns, o') = step-Keeps op s o fits in
      rw returns (steps-Keeps ops s' o' (rest s' returns))

  destroy-Frees :
      (p : Option Address) (s : State A)
      → s.pointer.m_ptr ≡ p
      → IsOwned s
      → (h : Heap A) × (destroy default_delete (unique p) s.heap ≡ some h)
        × ((q : Address) → not (is_null (h q)) ≡ elem q s.kept)
  unfolding destroy reset
  destroy-Frees none s at o = (s.heap, refl, λ q. o.allocated q ∙ rw at refl)
  destroy-Frees (some a) s at o =
      let (k, runs, left) =
        delete-allocated (some a) s.kept s.heap (λ q. o.allocated q ∙ rw at refl)
          (λ q e. o.apart q (rw at e)) in
      (k, rw runs refl, left)

  -- Where all that is allocated is owned by the pointer or was released, and `new` takes free
  -- addresses, no step and no destructor deletes twice or what was released, and at the end what is
  -- allocated is what was released.
  pub scope-allocated :
      (ops : List (Step A)) (s : State A)
      → IsOwned s
      → IsProper ops s
      → (s' : State A) × (scope ops s ≡ some s')
        × ((q : Address) → not (is_null (s'.heap q)) ≡ elem q s'.kept)
  unfolding scope
  scope-allocated ops s o proper =
      let (t, returns, o') = steps-Keeps ops s o proper in
      let (h, frees, left) = destroy-Frees t.pointer.m_ptr t refl o' in
      (record t { heap = h }, rw returns (rw frees refl), left)
