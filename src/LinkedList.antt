-- ===== src/LinkedList.antt =====
-- `List` of RS485/tl/native_client/jni/utils/List.h: a circular doubly linked list around the node
-- `mpMiddle`, which holds no value. Memory has one map for each field of a node; a use of a node
-- that is not live is a fault. `operator new` takes the addresses of its nodes from a supply.
-- The loops run on fuel.
pub mod Chain
pub mod Nodes
pub mod Change
pub mod Insert
pub mod Erase
pub mod Walk
pub mod Contents
pub mod Range
pub mod Apart
pub mod Copy
pub mod Overwrite
pub mod EraseRange
pub mod Assign
pub mod Iterator
pub mod Tests
use qf.Prelude.{
  ℕ, zero, suc, ◌+◌, ◌%◌, ◌^◌, List, [], ◌∷◌, Option, none, some, Bool, true, false, ◌||◌, ◌==◌,
  if◌then◌else◌,
}

abbrev pub Address : Type 0
Address = ℕ

abbrev pub update {ℓ} : {A : Type ℓ} → Address → A → (Address → A) → Address → A
update p v f q = if q == p then v else f q

-- `mVal` (none where no value was constructed), `mpPrev` and `mpNext` of the nodes.
pub record Memory (T : Type 0) : Type 0 where
  pub live : Address → Bool
  pub val : Address → Option T
  pub prev : Address → Address
  pub next : Address → Address
  pub supply : List Address

pub data Run (T A : Type 0) : Type 0 where
  ok : A → Memory T → Run T A
  fault : Run T A
  no_memory : Run T A
  out_of_fuel : Run T A

abbrev pub Cmd : Type 0 → Type 0 → Type 0
Cmd T A = Memory T → Run T A

abbrev pub end : Address → Address
end middle = middle

module _ {T : Type 0} where
  abbrev pub pure : {A : Type 0} → A → Cmd T A
  pure a m = ok a m

  abbrev pub and_then : {A B : Type 0} → Run T A → (A → Cmd T B) → Run T B
  and_then (ok a m) k = k a m
  and_then fault k = fault
  and_then no_memory k = no_memory
  and_then out_of_fuel k = out_of_fuel

  infixl 5 ◌>>=◌ ◌>>◌
  abbrev pub ◌>>=◌ : {A B : Type 0} → Cmd T A → (A → Cmd T B) → Cmd T B
  m >>= k = λ s. and_then (m s) k

  abbrev pub ◌>>◌ : {A B : Type 0} → Cmd T A → Cmd T B → Cmd T B
  m >> k = m >>= λ _. k

  -- An access to the node at `p`.
  abbrev pub guarded : {A : Type 0} → Bool → Run T A → Run T A
  guarded true r = r
  guarded false r = fault

  unfoldable pub get_next : Address → Cmd T Address
  get_next p m = guarded (m.live p) (ok (m.next p) m)

  unfoldable pub get_prev : Address → Cmd T Address
  get_prev p m = guarded (m.live p) (ok (m.prev p) m)

  unfoldable pub set_next : Address → Address → Cmd T (Unit {0})
  set_next p q m = guarded (m.live p) (ok tt (record m { next = update p q m.next }))

  unfoldable pub set_prev : Address → Address → Cmd T (Unit {0})
  set_prev p q m = guarded (m.live p) (ok tt (record m { prev = update p q m.prev }))

  -- `getRef` of a node that has a value, and `setVal`.
  unfoldable pub get_ref : Address → Cmd T T
  get_ref p m = guarded (m.live p) (elim (m.val p) [ none ↦ fault | some v ↦ ok v m ])

  unfoldable pub set_val : Address → T → Cmd T (Unit {0})
  set_val p v m = guarded (m.live p) (ok tt (record m { val = update p (some v) m.val }))

  abbrev allocated : List Address → Option T → Cmd T Address
  allocated [] v m = no_memory
  allocated (p ∷ rest) v m =
      ok p (record m { live = update p true m.live; val = update p v m.val; supply = rest })

  -- `new _Node(val)`, and storage for a node without a value.
  unfoldable pub new_node : Option T → Cmd T Address
  new_node v m = allocated m.supply v m

  unfoldable pub delete_node : Address → Cmd T (Unit {0})
  delete_node p m = guarded (m.live p) (ok tt (record m { live = update p false m.live }))

  unfoldable pub prep : Cmd T Address
  unfolding new_node set_prev set_next
  prep = do middle ← new_node none; set_prev middle middle; set_next middle middle; pure middle

  unfoldable pub begin : Address → Cmd T Address
  unfolding get_next
  begin middle = get_next middle

  unfoldable pub empty : Address → Cmd T Bool
  unfolding get_next
  empty middle = do first ← get_next middle; pure (first == middle)

  unfoldable pub insert : Address → T → Cmd T Address
  unfolding new_node get_prev set_prev set_next
  insert posn v = do
    node ← new_node (some v)
    set_next node posn
    before ← get_prev posn
    set_prev node before
    before ← get_prev posn
    set_next before node
    set_prev posn node
    pure node

  unfoldable pub push_front : Address → T → Cmd T Address
  unfolding begin insert
  push_front middle v = do first ← begin middle; insert first v

  unfoldable pub push_back : Address → T → Cmd T Address
  unfolding insert
  push_back middle v = insert (end middle) v

  unfoldable pub erase : Address → Cmd T Address
  unfolding get_next get_prev set_next set_prev delete_node
  erase posn = do
    after ← get_next posn
    before ← get_prev posn
    set_next before after
    set_prev after before
    delete_node posn
    pure after

  -- The loops, with fuel for their rounds.
  unfoldable pub distance : ℕ → Address → Address → Cmd T ℕ
  distance zero first last = λ m. out_of_fuel
  distance (suc fuel) first last =
      let step = (do first ← get_next first; count ← distance fuel first last; pure (count + 1)) in
      if first == last then pure 0 else step

  unfoldable pub size : ℕ → Address → Cmd T ℕ
  unfolding begin distance
  size fuel middle = do
    first ← begin middle
    count ← distance fuel first (end middle)
    pure (count % 2 ^ 32)

  unfoldable pub clear_loop : ℕ → Address → Address → Cmd T (Unit {0})
  clear_loop zero middle current = λ m. out_of_fuel
  clear_loop (suc fuel) middle current =
      let step = (do next ← get_next current; delete_node current; clear_loop fuel middle next) in
      if current == middle then pure tt else step

  unfoldable pub clear : ℕ → Address → Cmd T (Unit {0})
  unfolding get_next clear_loop set_prev set_next
  clear fuel middle = do
    current ← get_next middle
    clear_loop fuel middle current
    set_prev middle middle
    set_next middle middle

  unfoldable pub destroy : ℕ → Address → Cmd T (Unit {0})
  unfolding clear delete_node
  destroy fuel middle = clear fuel middle >> delete_node middle

  -- `insert(posn, first, last)` and `erase(first, last)`.
  unfoldable pub insert_range : ℕ → Address → Address → Address → Cmd T (Unit {0})
  insert_range zero posn first last = λ m. out_of_fuel
  insert_range (suc fuel) posn first last =
      let step = (do
        v ← get_ref first
        node ← insert posn v
        first ← get_next first
        insert_range fuel posn first last) in
      if first == last then pure tt else step

  unfoldable pub erase_range : ℕ → Address → Address → Cmd T Address
  erase_range zero first last = λ m. out_of_fuel
  erase_range (suc fuel) first last =
      let step = (do after ← get_next first; next ← erase first; erase_range fuel after last) in
      if first == last then pure last else step

  unfoldable pub copy : ℕ → Address → Cmd T Address
  unfolding prep begin insert_range
  copy fuel src = do
    middle ← prep
    posn ← begin middle
    first ← begin src
    insert_range fuel posn first (end src)
    pure middle

  -- `operator=`: the loop that copies values, with where it stops.
  unfoldable pub assign_loop : ℕ → (dst src last_dst last_src : Address) → Cmd T (Address × Address)
  assign_loop zero dst src last_dst last_src = λ m. out_of_fuel
  assign_loop (suc fuel) dst src last_dst last_src =
      let step = (do
        v ← get_ref src
        set_val dst v
        dst ← get_next dst
        src ← get_next src
        assign_loop fuel dst src last_dst last_src) in
      if src == last_src || dst == last_dst then pure (dst, src) else step

  abbrev pub assign_rest : ℕ → Bool → (dst src last_dst last_src : Address) → Cmd T (Unit {0})
  assign_rest fuel true dst src last_dst last_src = erase_range fuel dst last_dst >>= λ _. pure tt
  assign_rest fuel false dst src last_dst last_src = insert_range fuel last_dst src last_src

  unfoldable pub assign : ℕ → Address → Address → Cmd T (Unit {0})
  unfolding begin assign_loop erase_range insert_range
  assign fuel this right =
      let copied = (do
        first_dst ← begin this
        first_src ← begin right
        (dst, src) ← assign_loop fuel first_dst first_src (end this) (end right)
        assign_rest fuel (src == end right) dst src (end this) (end right)) in
      if this == right then pure tt else copied
