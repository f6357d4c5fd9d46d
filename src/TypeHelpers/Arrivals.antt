-- ===== src/TypeHelpers/Arrivals.antt =====
-- Where `move_forward_type` and `move_backward_type` of
-- RS485/tl/native_client/jni/utils/TypeHelpers.h leave the objects.
use qf.Prelude.{
  ℕ, ◌+◌, ◌-◌, ◌<◌, ◌≡◌, inl, inr, refl, ◌∙◌, true, false, Option, none, some, Bool-cases,
}
use qf.TypeHelpers.{
  Traits, Pointer, Slots, copy_bytes, forward_loop, backward_loop, is_bytewise, move_forward_type,
  move_backward_type,
}
use qf.TypeHelpers.Moves.{
  inside, Moves, IsFilled, HasSpace, forward_loop-Moves, backward_loop-Moves,
}

module _ {A : Type 0} (t : Traits) where
  -- The `n` objects at `s` stand at `d`, what is outside of both ranges is as it was, and a slot
  -- that was left is empty, unless objects are moved byte by byte or have no destructor.
  abbrev pub Arrives : Option (Slots A) → Pointer → Pointer → ℕ → Slots A → Type 0
  Arrives r d s n m =
      (k : Slots A) × (r ≡ some k)
      × ((q : Pointer) → inside d n q ≡ true → k q ≡ m (s + (q - d)))
      × ((q : Pointer) → inside d n q ≡ false → inside s n q ≡ false → k q ≡ m q)
      × ((q : Pointer)
          → is_bytewise t ≡ false
          → t.trivial_dtor ≡ false
          → inside d n q ≡ false
          → inside s n q ≡ true
          → k q ≡ none)

  bytes-Arrives :
      (d s : Pointer) (n : ℕ) (m : Slots A)
      → is_bytewise t ≡ true
      → Arrives (some (copy_bytes d s n m)) d s n m
  bytes-Arrives d s n m bytes =
      (copy_bytes d s n m, refl, (λ q i. rw i refl), (λ q o o'. rw o refl), λ q no. cc (bytes, no))

  Moves-Arrives :
      (r : Option (Slots A)) (d s : Pointer) (n : ℕ) (m : Slots A)
      → Moves t r d s n m
      → Arrives r d s n m
  Moves-Arrives r d s n m (k, runs, at) = (
    k,
    runs,
    (λ q i. at q ∙ rw i refl),
    (λ q o o'. at q ∙ rw (o, o') refl),
    λ q no dtor o i. at q ∙ rw (o, i, dtor) refl,
  )

  -- Where `n` objects stand at `s`, and the slots at `d` that are not among theirs can take an
  -- object, `move_forward_type` moves them to a higher `d`, also when the ranges overlap.
  pub move_forward_type-Arrives :
      (n : ℕ) (d s : Pointer) (m : Slots A)
      → s < d
      → IsFilled t s n m
      → HasSpace t d s n m
      → Arrives (move_forward_type t d s n m) d s n m
  unfolding move_forward_type
  move_forward_type-Arrives n d s m after filled space = elim (Bool-cases (is_bytewise t)) [
    | inl bytes ↦
        let (k, runs, there, outside, left) = bytes-Arrives d s n m bytes in
        (k, rw bytes runs, there, outside, left)
    | inr loop ↦
        let (k, runs, there, outside, left) =
          Moves-Arrives (forward_loop t d s n m) d s n m
            (forward_loop-Moves t n d s m after filled space) in
        (k, rw loop runs, there, outside, left)
  ]

  -- Where `n` objects stand at `s`, and the slots at `d` that are not among theirs can take an
  -- object, `move_backward_type` moves them to a lower `d`, also when the ranges overlap.
  pub move_backward_type-Arrives :
      (n : ℕ) (d s : Pointer) (m : Slots A)
      → d < s
      → IsFilled t s n m
      → HasSpace t d s n m
      → Arrives (move_backward_type t d s n m) d s n m
  unfolding move_backward_type
  move_backward_type-Arrives n d s m before filled space = elim (Bool-cases (is_bytewise t)) [
    | inl bytes ↦
        let (k, runs, there, outside, left) = bytes-Arrives d s n m bytes in
        (k, rw bytes runs, there, outside, left)
    | inr loop ↦
        let (k, runs, there, outside, left) =
          Moves-Arrives (backward_loop t d s n m) d s n m
            (backward_loop-Moves t n d s m before filled space) in
        (k, rw loop runs, there, outside, left)
  ]
