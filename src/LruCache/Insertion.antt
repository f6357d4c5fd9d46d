-- ===== src/LruCache/Insertion.antt =====
-- The end of `put` of RS485/tl/native_client/jni/utils/LruCache.h, where the table has room for a new
-- entry, on a sequence of pairs.
use mathlib.Core.Path.{subst}
use qf.Prelude.{
  ℕ, suc, ◌≤◌, ◌≡◌, refl, sym, ap, ◌∙◌, arith, List, [], ◌∷◌, ◌++◌, Option, none, some, Bool, true,
  false, ◌==◌, length, Bool-cases, ==_iff, inl, inr,
}
use qf.Bits.Table.{elem}
use qf.LinkedList.Chain.{◌∈◌, ◌∉◌, elem-append}
use qf.LinkedList.Nodes.{==-mem}
use qf.LruCache.{
  Address, TableApi, new_entry, Cache, ok, Cmd, ◌>>=◌, ◌>>◌, pure, write, attach_to_cache,
}
use qf.LruCache.Operations.{add_entry}
use qf.LruCache.Chain.{entry_of, Chain-frame}
use qf.LruCache.Links.{relinked}
use qf.LruCache.Order.{Ordered, attach-Ordered}
use qf.LruCache.Pairs.{
  lookup, DistinctKeys, place_in, place_in-none, place_in-append, DistinctKeys-append,
}
use qf.LruCache.Table.{IsTableApi}
use qf.LruCache.Contents.{Kept, Kept-refl, Keeps, length-append, length-Chain}

module _ {S K V : Type 0} (api : TableApi S K) where
  abbrev pub add_new : K → V → Cmd (Cache S K V) Bool
  add_new k v = do p ← add_entry api k v; attach_to_cache p; pure true

not-mem_append :
    (q p : Address) (nodes : List Address) → q ∉ nodes → (q == p) ≡ false → q ∉ nodes ++ p ∷ []
unfolding elem
not-mem_append q p nodes off apart = ground (arith, elem-append q nodes (p ∷ []))

module _ {K V : Type 0} (eqb : K → K → Bool) (refl_key : (a : K) → eqb a a ≡ true)
    (key : (a b : K) → eqb a b ≡ true → a ≡ b) where
  -- Each entry is that of a key.
  mem-place_in :
      (q : Address) (nodes : List Address) (l : List (K × V))
      → length nodes ≡ length l
      → DistinctKeys eqb l
      → q ∈ nodes
      → (j : K) × (place_in eqb j nodes l ≡ some q)
  unfolding elem
  mem-place_in q [] l same d there = cc there
  mem-place_in q (p ∷ ps) [] same d there = absurd (omega (arith, same))
  mem-place_in q (p ∷ ps) (x ∷ l) same (out, d) there = elim (Bool-cases (q == p)) [
    | inl on ↦ (x.0, rw (refl_key x.0) (ap some (sym ((==_iff q p).0 on))))
    | inr off ↦
        let (j, at) = mem-place_in q ps l (omega (arith, same)) d (rw off at there) in
        elim (Bool-cases (eqb j x.0)) [
          | inl on ↦
              let gone : lookup eqb j l ≡ none =
                subst (λ t. lookup eqb t l ≡ none) (sym (key j x.0 on)) out in
              let e : some q ≡ none = sym at ∙ place_in-none eqb j ps l gone in cc e
          | inr other ↦ (j, rw other at)
        ]
  ]

module _ {S K V : Type 0} (api : TableApi S K) (eqb : K → K → Bool) (place : K → S → Option Address)
    (room : S → ℕ) (laws : IsTableApi api eqb place room) (c : Cache S K V) (nodes : List Address)
    (l : List (K × V)) (keeps : Keeps api eqb place room laws c nodes l) where
  place_of_mem : (q : Address) → q ∈ nodes → (j : K) × (place j c.table ≡ some q)
  place_of_mem q there =
      let (j, at) =
        mem-place_in eqb (λ a. (laws.same_key a a).1 refl) (λ a b. (laws.same_key a b).0) q nodes l
          (length-Chain c.entries none nodes l none keeps.ordered.chain) keeps.keys there in
      (j, keeps.placed j ∙ at)

  -- The table owns the entries.
  pub owns_of_mem : (q : Address) → q ∈ nodes → api.owns c.table q ≡ true
  owns_of_mem q there = let (j, at) = place_of_mem q there in laws.held j c.table q keeps.table at

  -- A pair of a new key is put behind the others, and only the entries of the table are written.
  pub add_new-Keeps :
      (k : K) (v : V)
      → lookup eqb k l ≡ none
      → api.has_more_room c.table ≡ true
      → (d : Cache S K V) × (after : List Address) × (add_new api k v c ≡ ok true d)
        × Keeps api eqb place room laws d after (l ++ (k, v) ∷ [])
        × Kept c d []
        × ((q : Address) → api.owns d.table q ≡ api.owns c.table q)
        × ((q : Address) → api.owns c.table q ≡ false → d.entries q ≡ c.entries q)
        × (room c.table ≤ suc (room d.table))
  add_new-Keeps k v absent roomy =
      let free : place k c.table ≡ none = keeps.placed k ∙ place_in-none eqb k nodes l absent in
      let (i, t, adds, placed, fresh, owned, grown, less, sound) =
        laws.adds k c.table keeps.table free roomy in
      let p = api.address_at i t in
      let out : p ∉ nodes = elim (Bool-cases (elem p nodes)) [
        | inl there ↦
            let (j, at) = place_of_mem p there in
            let off : (p == p) ≡ false = fresh j p at in ground (arith, off)
        | inr gone ↦ gone
      ] in
      let m = write p (some (new_entry k v)) c.entries in
      let c1 = record c { table = t; entries = m } in
      let ordered1 : Ordered c1 nodes l = record {
        chain =
            Chain-frame c.entries m none nodes l none
              (λ q there. rw (==-mem q p nodes there out) refl) keeps.ordered.chain;
        distinct = keeps.ordered.distinct;
        first = keeps.ordered.first;
        last = keeps.ordered.last;
      } in
      let same : (p == p) ≡ true = ground arith in
      let at : m p ≡ some (entry_of k v none none) = rw same refl in
      let (n, o, y, runs, ordered, here, others) =
        attach-Ordered c1 nodes l p k v ordered1 out at in
      let d = relinked c1 n o y in
      let held : api.owns t p ≡ true =
        laws.held k t p sound (placed k ∙ rw ((laws.same_key k k).1 refl) refl) in
      (
        d,
        nodes ++ p ∷ [],
        rw adds (rw runs refl),
        record {
          ordered = ordered;
          keys = DistinctKeys-append eqb laws.same_key l k v keeps.keys absent;
          placed = λ j.
              placed j
              ∙ rw (keeps.placed j) (
                  sym (
                    place_in-append eqb nodes l p k v j
                      (length-Chain c.entries none nodes l none keeps.ordered.chain)
                      (λ on.
                        let e : j ≡ k = (laws.same_key j k).0 on in
                        sym (keeps.placed j) ∙ ap (λ t. place t c.table) e ∙ free)));
          table = sound;
          sized = grown ∙ omega (arith, keeps.sized, length-append l ((k, v) ∷ []));
        },
        record {
          listener = refl;
          removed = (Kept-refl c).removed;
          max_capacity = refl;
          null_value = refl;
        },
        owned,
        λ q off.
            let apart : (q == p) ≡ false = elim (Bool-cases (q == p)) [
              | inl on ↦
                  let e : q ≡ p = (==_iff q p).0 on in
                  cc (sym off ∙ sym (owned q) ∙ ap (λ r. api.owns t r) e ∙ held)
              | inr other ↦ other
            ] in
            let off' : q ∉ nodes = elim (Bool-cases (elem q nodes)) [
              | inl there ↦ cc (sym off ∙ owns_of_mem q there)
              | inr gone ↦ gone
            ] in
            others q (not-mem_append q p nodes off' apart) ∙ rw apart refl,
        less,
      )
