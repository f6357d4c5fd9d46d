-- ===== src/Flattenable/Streams.antt =====
-- Values that are written one after the other and read back.
use qf.Prelude.{
  ℕ, zero, suc, ◌+◌, ◌-◌, ◌^◌, ◌<◌, ◌≤◌, ◌≡◌, refl, ◌∙◌, arith, true, false, List, [], ◌∷◌, ◌&&◌,
  ltb, leb, length,
}
use qf.Flattenable.{
  Memory, Pod, PodLaws, Cursor, advance, store, load, write, read, no_error, no_memory, flatten,
  unflatten,
}

module _ (t : Pod) where
  -- A sequence of `write` calls, and as many `read` calls as a count says.
  unfoldable pub write_all : List t.Value → Cursor × Memory → Cursor × Memory
  unfolding write
  write_all [] s = s
  write_all (v ∷ vs) s = write_all vs (write t v s)

  unfoldable pub read_all : ℕ → Cursor → Memory → List t.Value × Cursor
  unfolding read
  read_all zero c m = ([], c)
  read_all (suc n) c m =
      let (v, c') = read t c m in let (vs, c'') = read_all n c' m in (v ∷ vs, c'')

  unfoldable pub total : List t.Value → ℕ
  total [] = 0
  total (v ∷ vs) = t.size_of + total vs

  store-inside :
      (p j : ℕ) (v : t.Value) (m : Memory) → j < t.size_of → store t p v m (p + j) ≡ t.stored v j
  store-inside p j v m h =
      let inside : (leb p (p + j) && ltb (p + j) (p + t.size_of)) ≡ true = ground arith in
      let offset : p + j - p ≡ j = omega arith in rw (inside, offset)

  store-below : (p a : ℕ) (v : t.Value) (m : Memory) → a < p → store t p v m a ≡ m a
  store-below p a v m h =
      let outside : (leb p a && ltb a (p + t.size_of)) ≡ false = ground arith in rw outside

  -- The cursor after a step that does not wrap around.
  advance-buffer :
      (c : Cursor)
      → c.buffer + t.size_of < 2 ^ 32
      → (advance t.size_of c).buffer ≡ c.buffer + t.size_of
  unfolding advance
  advance-buffer c h = omega arith

  -- Writing leaves the bytes below the cursor alone.
  write_all-below :
      (vs : List t.Value) (c : Cursor) (m : Memory) (a : ℕ)
      → c.buffer + total vs < 2 ^ 32
      → a < c.buffer
      → (write_all vs (c, m)).1 a ≡ m a
  unfolding write_all total write
  write_all-below [] c m a h below = refl
  write_all-below (v ∷ vs) c m a h below =
      let next = advance-buffer c (omega arith) in
      write_all-below vs (advance t.size_of c) (store t c.buffer v m) a (omega (arith, next))
        (omega (arith, next))
      ∙ store-below c.buffer a v m below

  module _ (laws : PodLaws t) where
    -- For a type whose loads return the value whose bytes are there, values that are written into a buffer one after the other, without a wrap-around of the
    -- pointer, are what as many reads from the same place return, and the reads leave the pointer
    -- and the size where the writes left them.
    pub read_all-write_all :
        (vs : List t.Value) (c : Cursor) (m : Memory)
        → c.buffer + total vs < 2 ^ 32
        → read_all (length vs) c (write_all vs (c, m)).1 ≡ (vs, (write_all vs (c, m)).0)
    unfolding read_all write_all total write read
    read_all-write_all [] c m h = refl
    read_all-write_all (v ∷ vs) c m h =
        let next = advance-buffer c (omega arith) in
        let c' = advance t.size_of c in
        let m' = store t c.buffer v m in
        let first : load t c.buffer (write_all vs (c', m')).1 ≡ v =
          laws.loaded-stored v (λ j. (write_all vs (c', m')).1 (c.buffer + j))
            λ j small.
              write_all-below vs c' m' (c.buffer + j) (omega (arith, next)) (omega (arith, next))
              ∙ store-inside c.buffer j v m small in
        let rest = read_all-write_all vs c' m' (omega (arith, next)) in rw (first, rest)

    -- `LightFlattenablePod` of a type whose loads return the value whose bytes are there: with
    -- room for the object `flatten` succeeds and `unflatten` gives the
    -- object back; without it `flatten` returns NO_MEMORY and writes nothing.
    pub unflatten-flatten :
        (v : t.Value) (buffer size : ℕ) (m : Memory)
        → (t.size_of ≤ size
            → ((flatten t v buffer size m).0 ≡ no_error)
              × (unflatten t buffer size (flatten t v buffer size m).1 ≡ (no_error, v)))
          × (size < t.size_of → flatten t v buffer size m ≡ (no_memory, m))
    unfolding flatten unflatten
    unflatten-flatten v buffer size m = (
      λ room.
          let fits : ltb size t.size_of ≡ false = ground arith in
          let back : load t buffer (store t buffer v m) ≡ v =
            laws.loaded-stored v (λ j. store t buffer v m (buffer + j))
              λ j small. store-inside buffer j v m small in
          rw fits (refl, rw back),
      λ small. let short : ltb size t.size_of ≡ true = ground arith in rw short,
    )
