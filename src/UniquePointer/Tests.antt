-- ===== src/UniquePointer/Tests.antt =====
-- `UniquePtr` of RS485/tl/native_client/jni/utils/UniquePtr.h on a concrete heap.
use qf.Prelude.{ℕ, ◌≡◌, refl, List, [], ◌∷◌, Option, none, some, not}
use qf.Bits.Table.{elem}
use qf.UniquePointer.{
  Address, Heap, set_block, is_null, unique, unique_array, get_array, release_array, reset_array,
  destroy_array, default_delete_array, dereference, index,
}
use qf.UniquePointer.Scope.{State, reset_new, release_it, scope, IsOwned, IsProper, scope-allocated}

abbrev no_blocks : Heap ℕ
no_blocks q = none

abbrev start : State ℕ
start = record { pointer = unique none; heap = no_blocks; kept = [] }

start-IsOwned : IsOwned start
unfolding elem
start-IsOwned = record { allocated = λ q. refl; apart = λ q e. refl }

abbrev one_block : State ℕ
one_block = record {
  pointer = unique (some 3);
  heap = set_block 3 (some (7 ∷ [])) no_blocks;
  kept = [];
}

program-IsProper : IsProper (reset_new 3 7 ∷ release_it ∷ []) start
program-IsProper = (refl, λ s e. (tt, λ s' e'. tt))

scope-allocated_example :
    (s : State ℕ) × (scope (reset_new 3 7 ∷ release_it ∷ []) start ≡ some s)
    × ((q : Address) → not (is_null (s.heap q)) ≡ elem q s.kept)
scope-allocated_example =
    scope-allocated (reset_new 3 7 ∷ release_it ∷ []) start start-IsOwned program-IsProper

abbrev kept_of : Option (State ℕ) → List Address
kept_of none = []
kept_of (some s) = s.kept

scope_run : kept_of (scope (reset_new 3 7 ∷ release_it ∷ []) start) ≡ 3 ∷ []
unfolding scope
scope_run = refl

dereference_run : dereference (unique (some 3)) one_block.heap ≡ some 7
unfolding dereference
dereference_run = refl

index_run : index (unique_array (some 3)) 1 one_block.heap ≡ none
unfolding index
index_run = refl

array_run : reset_array (default_delete_array {A = ℕ}) none (unique_array (some 3)) no_blocks ≡ none
unfolding reset_array default_delete_array
array_run = refl

destroy_array_run :
    destroy_array (default_delete_array {A = ℕ}) (release_array (unique_array (some 3))).1 no_blocks
    ≡ some no_blocks
unfolding destroy_array release_array default_delete_array
destroy_array_run = refl

get_array_run : get_array (unique_array (some 3)) ≡ some 3
get_array_run = refl
