-- ===== src/Parcel/Tests.antt =====
-- A parcel with room for some blocks, for RS485/tl/native_client/jni/binder/Parcel.h.
use qf.Prelude.{
  ℕ, ◌+◌, ◌≤◌, ◌≡◌, refl, List, [], ◌∷◌, ◌++◌, Option, none, some, Bool, true, false, ◌==◌,
  if◌then◌else◌, leb,
}
use qf.Flattenable.{Memory}
use qf.Parcel.{
  Address, Status, no_error, no_memory, ParcelApi, FlattenableApi, Chunk, int, block, bytes_at,
  write_light, read_light,
}
use qf.Parcel.Streams.{write_all, read_all}

-- A number, or the place of a block.
data Cell : Type 0 where
  number : ℕ → Cell
  region : Address → ℕ → Cell

-- What is written, what is to be read, and the first address that is free.
record Cells : Type 0 where
  all : List Cell
  ahead : List Cell
  top : Address

abbrev chunk_of : Memory → Cell → Chunk
chunk_of m (number v) = int v
chunk_of m (region a n) = block (bytes_at m a n)

abbrev view : Memory → List Cell → List Chunk
view m [] = []
view m (c ∷ cs) = chunk_of m c ∷ view m cs

-- Every block ends below `top`.
abbrev Fits : Address → List Cell → Type 0
Fits top [] = Unit {0}
Fits top (number v ∷ cs) = Fits top cs
Fits top (region a n ∷ cs) = (a + n ≤ top) × Fits top cs

abbrev int_ahead : Cells → List Cell → Status × ℕ × Cells
int_ahead p (number v ∷ cs) = (no_error, v, record p { ahead = cs })
int_ahead p _ = (no_memory, 0, p)

abbrev block_ahead : ℕ → Cells → List Cell → Option Address × Cells
block_ahead n p (region a k ∷ cs) = if n == k then (some a, record p { ahead = cs }) else (none, p)
block_ahead n p _ = (none, p)

-- There is room for blocks below the address 64.
abbrev small_parcel : ParcelApi Cells
small_parcel = record {
  write_int32 = λ v p m. (no_error, record p { all = p.all ++ number v ∷ [] }, m);
  write_inplace = λ n p m.
      if leb (p.top + n) 64
      then (some p.top, record p { all = p.all ++ region p.top n ∷ []; top = p.top + n }, m)
      else (none, p, m);
  read_int32 = λ p m. int_ahead p p.ahead;
  read_inplace = λ n p m. block_ahead n p p.ahead;
  set_data_position = λ n p. record p { ahead = p.all };
}

abbrev Holds : List Chunk → Cells → Memory → Type 0
Holds cs p m = (view m p.all ≡ cs) × Fits p.top p.all

abbrev Ahead : List Chunk → Cells → Memory → Type 0
Ahead cs p m = view m p.ahead ≡ cs

-- A class of two objects, which take a different number of bytes.
abbrev fill : Bool → Address → Memory → Memory
fill v a m q =
    if q == a then (if v then 1 else 0) else if q == a + 1 then (if v then 7 else m q) else m q

abbrev two_objects : FlattenableApi Bool
two_objects = record {
  is_fixed_size = λ v. false;
  get_flattened_size = λ v. if v then 2 else 1;
  flatten = λ v a n m. (no_error, fill v a m);
  unflatten = λ a n m w. (no_error, m a == 1);
}

abbrev encode : Bool → List ℕ
encode true = 1 ∷ 7 ∷ []
encode false = 0 ∷ []

abbrev nothing : Cells
nothing = record { all = []; ahead = []; top = 16 }

-- Three objects, read into three others.
abbrev three : List Bool
three = true ∷ false ∷ true ∷ []

abbrev others : List Bool
others = false ∷ false ∷ false ∷ []

abbrev run : Status × Cells × Memory
run = write_all small_parcel two_objects three (nothing, λ q. 9)

-- They fit.
three_fit : run.0 ≡ no_error
unfolding write_all write_light
three_fit = refl

three_return :
    (read_all small_parcel two_objects others (small_parcel.set_data_position 0 run.1, run.2)).1
    ≡ three
unfolding write_all read_all write_light read_light
three_return = refl

-- A block that ends behind the address 64 does not fit.
crowded_fails :
    (write_all small_parcel two_objects three (record nothing { top = 61 }, λ q. 9)).0 ≡ no_memory
unfolding write_all write_light
crowded_fails = refl
