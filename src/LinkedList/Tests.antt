-- ===== src/LinkedList/Tests.antt =====
-- `List` of RS485/tl/native_client/jni/utils/List.h on a concrete memory: the list around node 0
-- holds 10 and 20, the list around node 5 holds 30.
use qf.Prelude.{
  ℕ, ◌≡◌, refl, arith, Bool, true, false, [], ◌∷◌, ◌==◌, if◌then◌else◌, Option, none, some,
}
use qf.Bits.Table.{elem}
use qf.LinkedList.{
  Address, Memory, Run, ok, fault, ◌>>=◌, size, clear, insert, erase, copy, assign, push_back,
  push_front, insert_range, erase_range,
}
use qf.LinkedList.Chain.{◌∈◌, ◌∉◌, Chain, Ring}
use qf.LinkedList.Contents.{IsList, Stands, IsFresh, insert-Stands, erase-Stands}
use qf.LinkedList.Walk.{size-length, clear-Ring}
use qf.LinkedList.Copy.{copy-IsList}
use qf.LinkedList.Assign.{assign-IsList}
use qf.LinkedList.Iterator.{post_increment, post_decrement}

abbrev next_of : Address → Address
next_of q =
    if q == 0 then 1 else if q == 1 then 2 else if q == 5 then 6 else if q == 6 then 5 else 0

abbrev prev_of : Address → Address
prev_of q =
    if q == 0 then 2 else if q == 2 then 1 else if q == 5 then 6 else if q == 6 then 5 else 0

abbrev val_of : Address → Option ℕ
val_of q = if q == 1 then some 10 else if q == 2 then some 20 else if q == 6 then some 30 else none

abbrev memory : Memory ℕ
memory = record {
  live = λ q. elem q (0 ∷ 1 ∷ 2 ∷ 5 ∷ 6 ∷ []);
  val = val_of;
  prev = prev_of;
  next = next_of;
  supply = 7 ∷ 8 ∷ 9 ∷ [];
}

memory-Ring : Ring memory 0 (1 ∷ 2 ∷ [])
unfolding Chain elem
memory-Ring = record {
  linked = (refl, refl, (refl, refl, (refl, refl)));
  distinct = (refl, (refl, (refl, tt)));
  alive = λ q i. ground (arith, i);
}

other-Ring : Ring memory 5 (6 ∷ [])
unfolding Chain elem
other-Ring = record {
  linked = (refl, refl, (refl, refl));
  distinct = (refl, (refl, tt));
  alive = λ q i. ground (arith, i);
}

memory-IsFresh : IsFresh memory
unfolding elem
memory-IsFresh = record { once = (refl, (refl, (refl, tt))); unused = λ q i. ground (arith, i) }

abbrev memory_list : IsList memory 0 (10 ∷ 20 ∷ [])
memory_list = record { nodes = 1 ∷ 2 ∷ []; ring = memory-Ring; stores = (refl, (refl, tt)) }

abbrev other_list : IsList memory 5 (30 ∷ [])
other_list = record { nodes = 6 ∷ []; ring = other-Ring; stores = (refl, tt) }

abbrev second_stands : Stands memory 0 2 (10 ∷ []) (20 ∷ [])
second_stands = record {
  front = 1 ∷ [];
  back = 2 ∷ [];
  ring = memory-Ring;
  at = refl;
  stores_front = (refl, tt);
  stores_back = (refl, tt);
}

insert-Stands_example :
    (k : Memory ℕ) × (insert 2 15 memory ≡ ok 7 k)
    × Stands k 0 7 (10 ∷ []) (15 ∷ 20 ∷ [])
    × IsFresh k
insert-Stands_example = insert-Stands memory 0 2 15 7 (8 ∷ 9 ∷ []) refl memory-IsFresh second_stands

erase-Stands_example :
    (k : Memory ℕ) × (after : Address) × (erase 2 memory ≡ ok after k)
    × Stands k 0 after (10 ∷ []) []
    × (k.live 2 ≡ false)
erase-Stands_example = erase-Stands memory 0 second_stands

size-length_example : size 3 0 memory ≡ ok 2 memory
size-length_example = size-length memory 0 3 (1 ∷ 2 ∷ []) memory-Ring (omega arith)

clear-Ring_example :
    (k : Memory ℕ) × (clear 3 0 memory ≡ ok tt k)
    × Ring k 0 []
    × ((q : Address) → k.live q ≡ (if elem q (1 ∷ 2 ∷ []) then false else memory.live q))
clear-Ring_example = clear-Ring 0 memory 3 (1 ∷ 2 ∷ []) memory-Ring (omega arith)

copy-IsList_example :
    (k : Memory ℕ) × (middle : Address) × (copy 3 0 memory ≡ ok middle k)
    × (copied : IsList k middle (10 ∷ 20 ∷ [])) × (source : IsList k 0 (10 ∷ 20 ∷ []))
    × (memory.live middle ≡ false)
    × ((q : Address) → q ∈ middle ∷ copied.nodes → q ∉ 0 ∷ source.nodes)
copy-IsList_example = copy-IsList 3 memory 0 memory_list memory-IsFresh (omega arith) (omega arith)

lists_apart : (q : Address) → elem q (0 ∷ 1 ∷ 2 ∷ []) ≡ true → elem q (5 ∷ 6 ∷ []) ≡ false
unfolding elem
lists_apart q i = ground (arith, i)

assign-IsList_example :
    (k : Memory ℕ) × (assign 3 5 0 memory ≡ ok tt k)
    × IsList k 5 (10 ∷ 20 ∷ [])
    × IsList k 0 (10 ∷ 20 ∷ [])
assign-IsList_example =
    assign-IsList 3 memory 5 0 other_list memory_list lists_apart memory-IsFresh (omega arith)
      (omega arith) (omega arith)

-- The value that the node behind the middle holds after a run.
abbrev second_of : Run ℕ Address → Option ℕ
second_of (ok p m) = m.val (m.next (m.next 0))
second_of r = none

abbrev live_after : Run ℕ Address → Address → Option Bool
live_after (ok p m) q = some (m.live q)
live_after r q = none

insert_run : second_of (insert 2 15 memory) ≡ some 15
unfolding insert elem
insert_run = refl

erase_run : live_after (erase 1 memory) 1 ≡ some false
unfolding erase elem
erase_run = refl

-- The middle has no value: reading it is a fault.
insert_range_run : insert_range 3 0 5 6 memory ≡ fault
unfolding insert_range elem qf.LinkedList.get_ref
insert_range_run = refl

post_increment_run : post_increment 1 memory ≡ ok (1, 2) memory
unfolding post_increment elem qf.LinkedList.get_next
post_increment_run = refl

post_decrement_run : post_decrement 0 memory ≡ ok (0, 2) memory
unfolding post_decrement elem qf.LinkedList.get_prev
post_decrement_run = refl
