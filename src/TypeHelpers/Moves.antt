-- ===== src/TypeHelpers/Moves.antt =====
-- `move_forward_type` and `move_backward_type` of RS485/tl/native_client/jni/utils/TypeHelpers.h, on
-- ranges that may overlap.
use qf.Prelude.{
  ℕ, zero, suc, ◌+◌, ◌-◌, ◌<◌, ◌≤◌, ◌≡◌, ◌≢◌, ◌⊎◌, inl, inr, refl, ◌∙◌, arith, Bool, true, false,
  not, ◌&&◌, ◌||◌, Option, none, some, ◌==◌, ltb, leb, if◌then◌else◌, Bool-cases,
}
use qf.TypeHelpers.{
  is_some, Traits, Pointer, Slots, write_slot, place_at, move_one, forward_loop, backward_loop,
}

-- A slot that an object can be placed in.
abbrev pub IsFree : {A : Type 0} → Traits → Option A → Type 0
IsFree t v = (t.trivial_dtor ≡ true) ⊎ (v ≡ none)

abbrev pub inside : Pointer → ℕ → Pointer → Bool
inside p n q = leb p q && ltb q (p + n)

no_slots : (p q : Pointer) → inside p 0 q ≡ false
no_slots p q = ground arith

module _ {A : Type 0} (t : Traits) where
  placed :
      (d : Pointer) (v : A) (m : Slots A)
      → IsFree t (m d)
      → place_at t d v m ≡ some (write_slot d (some v) m)
  placed d v m free = elim (Bool-cases t.trivial_copy) [
    | inl copied ↦ rw copied refl
    | inr other ↦ elim free [
      | inl dtor ↦
          let no : (is_some (m d) && false) ≡ false = ground arith in rw (other, dtor, no) refl
      | inr raw ↦ rw (other, raw) refl
    ]
  ]

  -- The slots after one object was moved.
  abbrev OneMoved : Pointer → Pointer → A → Slots A → Slots A → Type 0
  OneMoved d s v m k =
      (q : Pointer)
      → k q ≡ (if q == d then some v else if (q == s) && not t.trivial_dtor then none else m q)

  move_one_lem :
      (d s : Pointer) (v : A) (m : Slots A)
      → d ≢ s
      → m s ≡ some v
      → IsFree t (m d)
      → (k : Slots A) × (move_one t d s m ≡ some k) × OneMoved d s v m k
  move_one_lem d s v m apart full free =
      let other : (s == d) ≡ false = ground arith in
      elim (Bool-cases t.trivial_dtor) [
        | inl dtor ↦ (
          write_slot d (some v) m,
          rw full (rw (placed d v m free) (rw dtor refl)),
          λ q. rw dtor (elim (Bool-cases (q == d)) [
            | inl e ↦ rw e
            | inr e ↦ rw e (elim (Bool-cases (q == s)) [ inl f ↦ rw f | inr f ↦ rw f ])
          ]),
        )
        | inr dtor ↦ (
          write_slot s none (write_slot d (some v) m),
          rw full (rw (placed d v m free) (rw (dtor, other, full) refl)),
          λ q. rw dtor (elim (Bool-cases (q == d)) [
            | inl e ↦ let f : (q == s) ≡ false = ground arith in rw (e, f)
            | inr e ↦ rw e (elim (Bool-cases (q == s)) [ inl f ↦ rw f | inr f ↦ rw f ])
          ]),
        )
      ]

  -- The slots after `n` objects were moved from `s` to `d`: a slot that they leave is empty, unless
  -- the type has no destructor.
  abbrev pub moved : Pointer → Pointer → ℕ → Slots A → Slots A
  moved d s n m q =
      if inside d n q
      then m (s + (q - d))
      else if inside s n q && not t.trivial_dtor
      then none
      else m q

  abbrev pub Moves : Option (Slots A) → Pointer → Pointer → ℕ → Slots A → Type 0
  Moves r d s n m = (k : Slots A) × (r ≡ some k) × ((q : Pointer) → k q ≡ moved d s n m q)

  -- There is an object in each of the `n` slots at `s`.
  abbrev pub IsFilled : Pointer → ℕ → Slots A → Type 0
  IsFilled s n m = (q : Pointer) → s ≤ q → q < s + n → (v : A) × (m q ≡ some v)

  -- The slots at `d` that are not among those at `s` can take an object.
  abbrev pub HasSpace : Pointer → Pointer → ℕ → Slots A → Type 0
  HasSpace d s n m = (q : Pointer) → inside d n q ≡ true → inside s n q ≡ false → IsFree t (m q)

  -- A slot `e` more is left: what `u` was made of `w` by that.
  left_one :
      (b e c : Bool) (u w : Option A)
      → u ≡ (if e && not c then none else w)
      → (if b && not c then none else u) ≡ (if (b || e) && not c then none else w)
  left_one true e false u w h = refl
  left_one true true true u w h = h
  left_one true false true u w h = h
  left_one false true false u w h = h
  left_one false false false u w h = h
  left_one false true true u w h = h
  left_one false false true u w h = h

  module _ (n : ℕ) (d s : Pointer) (v : A) (m k : Slots A) (after : s < d)
      (step : OneMoved (d + n) (s + n) v m k) where
    forward-HasSpace : HasSpace d s (suc n) m → HasSpace d s n k
    forward-HasSpace space q there off =
        let apart : (q == d + n) ≡ false = ground arith in
        elim (Bool-cases (q == s + n)) [
          | inl here ↦ elim (Bool-cases t.trivial_dtor) [
            | inl e ↦ inl e
            | inr e ↦ inr (step q ∙ rw (apart, here, e) refl)
          ]
          | inr other ↦ rw (step q, apart, other) (space q (ground arith) (ground arith))
        ]

    forward-moved : m (s + n) ≡ some v → (q : Pointer) → moved d s n k q ≡ moved d s (suc n) m q
    forward-moved full q = elim (Bool-cases (inside d n q)) [
      | inl there ↦
          let there' : inside d (suc n) q ≡ true = ground arith in
          let e : (s + (q - d) == d + n) ≡ false = ground arith in
          let f : (s + (q - d) == s + n) ≡ false = ground arith in
          rw (there, there') (step (s + (q - d)) ∙ rw (e, f) refl)
      | inr out ↦ elim (Bool-cases (q == d + n)) [
        | inl here ↦
            let there : inside d (suc n) q ≡ true = ground arith in
            let off : inside s n q ≡ false = ground arith in
            let from : s + (q - d) ≡ s + n = ground arith in
            rw (out, there, off) (step q ∙ rw here (rw (from, full) refl))
        | inr apart ↦
            let out' : inside d (suc n) q ≡ false = ground arith in
            let more : inside s (suc n) q ≡ (inside s n q || q == s + n) = ground arith in
            let there : k q ≡ (if (q == s + n) && not t.trivial_dtor then none else m q) =
              step q ∙ rw apart refl in
            rw (out, out', more)
              (left_one (inside s n q) (q == s + n) t.trivial_dtor (k q) (m q) there)
      ]
    ]

  pub forward_loop-Moves :
      (n : ℕ) (d s : Pointer) (m : Slots A)
      → s < d
      → IsFilled s n m
      → HasSpace d s n m
      → Moves (forward_loop t d s n m) d s n m
  forward_loop-Moves zero d s m after filled space = (m, refl, λ q. rw (no_slots d q, no_slots s q))
  forward_loop-Moves (suc n) d s m after filled space =
      let (v, full) = filled (s + n) (omega arith) (omega arith) in
      let (k, returns, step) =
        move_one_lem (d + n) (s + n) v m (λ e. absurd (omega (arith, e))) full
          (space (d + n) (ground arith) (ground arith)) in
      let (l, runs, at) =
        forward_loop-Moves n d s k after
          (λ q le lt.
            let (u, e) = filled q le (omega arith) in
            let off : (q == d + n) ≡ false = ground arith in
            let off' : (q == s + n) ≡ false = ground arith in (u, step q ∙ rw (off, off') e))
          (forward-HasSpace n d s v m k after step space) in
      (l, rw returns runs, λ q. at q ∙ forward-moved n d s v m k after step full q)

  module _ (n : ℕ) (d s : Pointer) (v : A) (m k : Slots A) (before : d < s)
      (step : OneMoved d s v m k) where
    backward-HasSpace : HasSpace d s (suc n) m → HasSpace (d + 1) (s + 1) n k
    backward-HasSpace space q there off =
        let apart : (q == d) ≡ false = ground arith in
        elim (Bool-cases (q == s)) [
          | inl here ↦ elim (Bool-cases t.trivial_dtor) [
            | inl e ↦ inl e
            | inr e ↦ inr (step q ∙ rw (apart, here, e) refl)
          ]
          | inr other ↦ rw (step q, apart, other) (space q (ground arith) (ground arith))
        ]

    backward-moved :
        m s ≡ some v → (q : Pointer) → moved (d + 1) (s + 1) n k q ≡ moved d s (suc n) m q
    backward-moved full q = elim (Bool-cases (inside (d + 1) n q)) [
      | inl there ↦
          let there' : inside d (suc n) q ≡ true = ground arith in
          let from : s + 1 + (q - (d + 1)) ≡ s + (q - d) = ground arith in
          let e : (s + (q - d) == d) ≡ false = ground arith in
          let f : (s + (q - d) == s) ≡ false = ground arith in
          rw (there, there', from) (step (s + (q - d)) ∙ rw (e, f) refl)
      | inr out ↦ elim (Bool-cases (q == d)) [
        | inl here ↦
            let there : inside d (suc n) q ≡ true = ground arith in
            let off : inside (s + 1) n q ≡ false = ground arith in
            let from : s + (q - d) ≡ s = ground arith in
            rw (out, there, off) (step q ∙ rw here (rw (from, full) refl))
        | inr apart ↦
            let out' : inside d (suc n) q ≡ false = ground arith in
            let more : inside s (suc n) q ≡ (inside (s + 1) n q || q == s) = ground arith in
            let there : k q ≡ (if (q == s) && not t.trivial_dtor then none else m q) =
              step q ∙ rw apart refl in
            rw (out, out', more)
              (left_one (inside (s + 1) n q) (q == s) t.trivial_dtor (k q) (m q) there)
      ]
    ]

  pub backward_loop-Moves :
      (n : ℕ) (d s : Pointer) (m : Slots A)
      → d < s
      → IsFilled s n m
      → HasSpace d s n m
      → Moves (backward_loop t d s n m) d s n m
  backward_loop-Moves zero d s m before filled space =
      (m, refl, λ q. rw (no_slots d q, no_slots s q))
  backward_loop-Moves (suc n) d s m before filled space =
      let (v, full) = filled s (omega arith) (omega arith) in
      let (k, returns, step) =
        move_one_lem d s v m (λ e. absurd (omega (arith, e))) full
          (space d (ground arith) (ground arith)) in
      let (l, runs, at) =
        backward_loop-Moves n (d + 1) (s + 1) k (omega arith)
          (λ q le lt.
            let (u, e) = filled q (omega arith) (omega arith) in
            let off : (q == d) ≡ false = ground arith in
            let off' : (q == s) ≡ false = ground arith in (u, step q ∙ rw (off, off') e))
          (backward-HasSpace n d s v m k before step space) in
      (l, rw returns runs, λ q. at q ∙ backward-moved n d s v m k before step full q)
