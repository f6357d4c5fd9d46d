-- ===== src/TypeHelpers.antt =====
-- RS485/tl/native_client/jni/utils/TypeHelpers.h: traits, comparisons, hashes, and the functions that
-- construct, destroy, copy and move arrays. Memory is an array of slots, where `none` is a slot
-- without an object; a pointer is the index of a slot. `none` as a result is a destructor or a
-- copy of an object that is not there, or a constructor on top of an object that has a destructor.
pub mod Moves
pub mod Arrivals
pub mod Compare
pub mod Tests
use qf.Prelude.{
  ℕ, zero, suc, ◌+◌, ◌-◌, ◌*◌, ◌%◌, ◌/◌, ◌^◌, ◌>>>◌, Bool, true, false, not, ◌&&◌, ◌||◌, Option,
  none, some, ◌==◌, ltb, leb, if◌then◌else◌,
}
use qf.StrongPointer.{◌>>=◌}
use Prim.Native.Nat.{bit_xor}

-- `traits`, for a type that is or is not a pointer.
pub record Traits : Type 0 where
  pub trivial_ctor : Bool
  pub trivial_dtor : Bool
  pub trivial_copy : Bool
  pub trivial_move : Bool

unfoldable pub traits_of : Bool → Traits → Traits
traits_of is_pointer t = record {
  trivial_ctor = is_pointer || t.trivial_ctor;
  trivial_dtor = is_pointer || t.trivial_dtor;
  trivial_copy = is_pointer || t.trivial_copy;
  trivial_move = is_pointer || t.trivial_move;
}

unfoldable pub aggregate_traits : Traits → Traits → Traits
aggregate_traits t u = record {
  trivial_ctor = t.trivial_ctor && u.trivial_ctor;
  trivial_dtor = t.trivial_dtor && u.trivial_dtor;
  trivial_copy = t.trivial_copy && u.trivial_copy;
  trivial_move = t.trivial_move && u.trivial_move;
}

-- The traits of `void`, `bool`, the integers and the floating point numbers.
abbrev pub basic_traits : Traits
basic_traits = record {
  trivial_ctor = true;
  trivial_dtor = true;
  trivial_copy = true;
  trivial_move = true;
}

-- The traits of a pair.
abbrev pub pair_traits : Traits → Traits → Traits
pair_traits k v = aggregate_traits k v

abbrev pub Pointer : Type 0
Pointer = ℕ

abbrev pub Slots : Type 0 → Type 0
Slots A = Pointer → Option A

abbrev pub is_some : {A : Type 0} → Option A → Bool
is_some none = false
is_some (some a) = true

-- Whether objects are moved by `memmove`.
abbrev pub is_bytewise : Traits → Bool
is_bytewise t = (t.trivial_dtor && t.trivial_copy) || t.trivial_move

module _ {A : Type 0} where
  abbrev pub write_slot : Pointer → Option A → Slots A → Slots A
  write_slot p v m q = if q == p then v else m q

  -- `new(p) TYPE(v)`, `p->~TYPE()` and `*p = v`.
  abbrev pub construct_at : Traits → Pointer → A → Slots A → Option (Slots A)
  construct_at t p v m =
      if is_some (m p) && not t.trivial_dtor then none else some (write_slot p (some v) m)

  abbrev pub destroy_at : Pointer → Slots A → Option (Slots A)
  destroy_at p m = if is_some (m p) then some (write_slot p none m) else none

  abbrev pub assign_at : Pointer → A → Slots A → Option (Slots A)
  assign_at p v m = some (write_slot p (some v) m)

  -- `memcpy` and `memmove` of `n` objects.
  abbrev pub copy_bytes : Pointer → Pointer → ℕ → Slots A → Slots A
  copy_bytes d s n m q = if leb d q && ltb q (d + n) then m (s + (q - d)) else m q

  abbrev construct_loop : Traits → A → Pointer → ℕ → Slots A → Option (Slots A)
  construct_loop t v p zero m = some m
  construct_loop t v p (suc n) m = do m ← construct_at t p v m; construct_loop t v (p + 1) n m

  -- `v` is what the default constructor makes.
  unfoldable pub construct_type : Traits → A → Pointer → ℕ → Slots A → Option (Slots A)
  construct_type t v p n m = if not t.trivial_ctor then construct_loop t v p n m else some m

  abbrev pub destroy_loop : Pointer → ℕ → Slots A → Option (Slots A)
  destroy_loop p zero m = some m
  destroy_loop p (suc n) m = do m ← destroy_at p m; destroy_loop (p + 1) n m

  unfoldable pub destroy_type : Traits → Pointer → ℕ → Slots A → Option (Slots A)
  destroy_type t p n m = if not t.trivial_dtor then destroy_loop p n m else some m

  abbrev pub copy_loop : Traits → Pointer → Pointer → ℕ → Slots A → Option (Slots A)
  copy_loop t d s zero m = some m
  copy_loop t d s (suc n) m = do v ← m s; m ← construct_at t d v m; copy_loop t (d + 1) (s + 1) n m

  unfoldable pub copy_type : Traits → Pointer → Pointer → ℕ → Slots A → Option (Slots A)
  copy_type t d s n m =
      if not t.trivial_copy then copy_loop t d s n m else some (copy_bytes d s n m)

  -- `new(d) TYPE(v)` or `*d = v`.
  abbrev pub place_at : Traits → Pointer → A → Slots A → Option (Slots A)
  place_at t p v m = if not t.trivial_copy then construct_at t p v m else assign_at p v m

  abbrev pub splat_loop : Traits → Pointer → Pointer → ℕ → Slots A → Option (Slots A)
  splat_loop t to what zero m = some m
  splat_loop t to what (suc n) m = do
    v ← m what
    m ← place_at t to v m
    splat_loop t (to + 1) what n m

  unfoldable pub splat_type : Traits → Pointer → Pointer → ℕ → Slots A → Option (Slots A)
  splat_type t to what n m = splat_loop t to what n m

  -- One round of a move.
  abbrev pub move_one : Traits → Pointer → Pointer → Slots A → Option (Slots A)
  move_one t d s m = do
    v ← m s
    m ← place_at t d v m
    if not t.trivial_dtor then destroy_at s m else some m

  -- From the last object down.
  abbrev pub forward_loop : Traits → Pointer → Pointer → ℕ → Slots A → Option (Slots A)
  forward_loop t d s zero m = some m
  forward_loop t d s (suc n) m = do m ← move_one t (d + n) (s + n) m; forward_loop t d s n m

  unfoldable pub move_forward_type : Traits → Pointer → Pointer → ℕ → Slots A → Option (Slots A)
  move_forward_type t d s n m =
      if is_bytewise t then some (copy_bytes d s n m) else forward_loop t d s n m

  abbrev pub backward_loop : Traits → Pointer → Pointer → ℕ → Slots A → Option (Slots A)
  backward_loop t d s zero m = some m
  backward_loop t d s (suc n) m = do m ← move_one t d s m; backward_loop t (d + 1) (s + 1) n m

  unfoldable pub move_backward_type : Traits → Pointer → Pointer → ℕ → Slots A → Option (Slots A)
  move_backward_type t d s n m =
      if is_bytewise t then some (copy_bytes d s n m) else backward_loop t d s n m

-- `lt` is the `<` of the type; `compare_type` is -1, 0 or 1.
pub data Sign : Type 0 where
  negative : Sign
  equal : Sign
  positive : Sign

unfoldable pub strictly_order_type : {A : Type 0} → (A → A → Bool) → A → A → ℕ
strictly_order_type lt lhs rhs = if lt lhs rhs then 1 else 0

abbrev pub minus : ℕ → ℕ → Sign
minus a b = if ltb a b then negative else if ltb b a then positive else equal

unfoldable pub compare_type : {A : Type 0} → (A → A → Bool) → A → A → Sign
unfolding strictly_order_type
compare_type lt lhs rhs = minus (strictly_order_type lt rhs lhs) (strictly_order_type lt lhs rhs)

pub record KeyValuePair (K V : Type 0) : Type 0 where
  pub key : K
  pub value : V

unfoldable pub pair_less :
    {K V : Type 0} → (K → K → Bool) → KeyValuePair K V → KeyValuePair K V → Bool
unfolding strictly_order_type
pair_less lt a b = not (strictly_order_type lt a.key b.key == 0)

-- `hash_type` of integers of 32 bits or fewer (in two's complement) and of 64 bits.
unfoldable pub hash_int32 : ℕ → ℕ
hash_int32 v = v % 2 ^ 32

unfoldable pub hash_int64 : ℕ → ℕ
hash_int64 v = bit_xor (v >>> 32) v % 2 ^ 32
