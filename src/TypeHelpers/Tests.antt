-- ===== src/TypeHelpers/Tests.antt =====
-- RS485/tl/native_client/jni/utils/TypeHelpers.h on concrete memories.
use qf.Prelude.{
  ℕ, ◌≡◌, refl, arith, true, false, Option, none, some, inl, inr, ltb, ◌==◌, Bool-cases,
  if◌then◌else◌,
}
use qf.TypeHelpers.{
  Traits, Pointer, Slots, traits_of, aggregate_traits, basic_traits, construct_type, destroy_type,
  copy_type, splat_type, move_forward_type, pair_less, hash_int32, hash_int64,
}
use qf.TypeHelpers.Moves.{IsFilled, HasSpace}
use qf.TypeHelpers.Arrivals.{Arrives, move_forward_type-Arrives}

-- A class with constructors and a destructor.
abbrev class_traits : Traits
class_traits = record {
  trivial_ctor = false;
  trivial_dtor = false;
  trivial_copy = false;
  trivial_move = false;
}

-- Objects in the slots 4, 5 and 6.
abbrev three_objects : Slots ℕ
three_objects q =
    if q == 4 then some 10 else if q == 5 then some 20 else if q == 6 then some 30 else none

three_objects-IsFilled : IsFilled class_traits 4 3 three_objects
three_objects-IsFilled q le lt = elim (Bool-cases (q == 4)) [
  | inl e ↦ (10, rw e)
  | inr e ↦ elim (Bool-cases (q == 5)) [
    | inl f ↦ (20, rw (e, f))
    | inr f ↦ let g : (q == 6) ≡ true = ground arith in (30, rw (e, f, g))
  ]
]

three_objects-HasSpace : (d : Pointer) → HasSpace class_traits d 4 3 three_objects
three_objects-HasSpace d q there off = inr (ground arith)

move_forward_type-Arrives_example :
    Arrives class_traits (move_forward_type class_traits 5 4 3 three_objects) 5 4 3 three_objects
move_forward_type-Arrives_example =
    move_forward_type-Arrives class_traits 3 5 4 three_objects (omega arith) three_objects-IsFilled
      (three_objects-HasSpace 5)

-- What slot `q` holds after a run.
abbrev slot : Option (Slots ℕ) → Pointer → Option (Option ℕ)
slot none q = none
slot (some m) q = some (m q)

forward_run : slot (move_forward_type class_traits 5 4 3 three_objects) 7 ≡ some (some 30)
unfolding move_forward_type
forward_run = refl

-- From the last object down, a move to a lower place runs over objects that are still there.
forward_low_run : slot (move_forward_type class_traits 3 4 3 three_objects) 3 ≡ none
unfolding move_forward_type
forward_low_run = refl

construct_run : slot (construct_type class_traits 1 8 2 three_objects) 9 ≡ some (some 1)
unfolding construct_type
construct_run = refl

destroy_run : slot (destroy_type class_traits 4 3 three_objects) 6 ≡ some none
unfolding destroy_type
destroy_run = refl

-- A destructor where there is no object.
destroy_fault : slot (destroy_type class_traits 3 2 three_objects) 3 ≡ none
unfolding destroy_type
destroy_fault = refl

copy_run : slot (copy_type class_traits 8 4 3 three_objects) 9 ≡ some (some 20)
unfolding copy_type
copy_run = refl

splat_run : slot (splat_type class_traits 8 5 2 three_objects) 9 ≡ some (some 20)
unfolding splat_type
splat_run = refl

basic_run : (traits_of true class_traits).trivial_move ≡ true
unfolding traits_of
basic_run = refl

aggregate_run : (aggregate_traits basic_traits class_traits).trivial_copy ≡ false
unfolding aggregate_traits
aggregate_run = refl

pair_run :
    pair_less ltb (record { key = 1; value = true }) (record { key = 2; value = false }) ≡ true
unfolding pair_less
pair_run = refl

hash_run : hash_int64 0x100000003 ≡ 2
unfolding hash_int64
hash_run = refl

hash_small_run : hash_int32 7 ≡ 7
unfolding hash_int32
hash_small_run = refl
