-- ===== src/LruCache/Rehash.antt =====
-- The loop of `rehash` of RS485/tl/native_client/jni/utils/LruCache.h.
use mathlib.Core.List.{append-nil, append_assoc}
use qf.Prelude.{
  ℕ, zero, suc, ◌+◌, ◌<◌, ◌≤◌, ◌≡◌, refl, ◌∙◌, arith, List, [], ◌∷◌, ◌++◌, Option, none, some, Bool,
  true, false, length,
}
use qf.Bits.Table.{elem}
use qf.LinkedList.Chain.{◌∈◌}
use qf.LruCache.{Address, TableApi, Cache, ok, load}
use qf.LruCache.Operations.{is_full, put, put_from, size}
use qf.LruCache.Chain.{head_of, entry_of, Chain, Chain-frame}
use qf.LruCache.Pairs.{DistinctKeys}
use qf.LruCache.Table.{IsTableApi}
use qf.LruCache.Contents.{Kept, Kept-refl, Keeps, length-append}
use qf.LruCache.Insertion.{add_new-Keeps}
use qf.LruCache.Growth.{is_full_mono, lookup-head, Kept-trans, put-add_new}

module _ {S K V : Type 0} (api : TableApi S K) (eqb : K → K → Bool) (place : K → S → Option Address)
    (room : S → ℕ) (laws : IsTableApi api eqb place room) where
  -- The pairs `rest`, whose entries `ps` the table does not own, can be put behind those of `l`.
  pub record Pending (c : Cache S K V) (nodes : List Address) (l : List (K × V))
      (before : Option Address) (ps : List Address) (rest : List (K × V)) : Type 0 where
    pub keeps : Keeps api eqb place room laws c nodes l
    pub chain : Chain c.entries before ps rest none
    pub apart : (q : Address) → q ∈ ps → api.owns c.table q ≡ false
    pub keys : DistinctKeys eqb (l ++ rest)
    pub roomy : length rest ≤ room c.table
    pub space : is_full c.max_capacity (length (l ++ rest)) ≡ false

  -- What the loop leaves as it was.
  pub record Copied (c d : Cache S K V) (rest : List (K × V)) : Type 0 where
    pub kept : Kept c d []
    pub owned : (q : Address) → api.owns d.table q ≡ api.owns c.table q
    pub frame : (q : Address) → api.owns c.table q ≡ false → d.entries q ≡ c.entries q
    pub used_room : room c.table ≤ length rest + room d.table

  Copied-trans :
      {c d e : Cache S K V} (x : K × V) (rest : List (K × V))
      → Copied c d (x ∷ [])
      → Copied d e rest
      → Copied c e (x ∷ rest)
  Copied-trans {c} {d} {e} x rest p q = record {
    kept = Kept-trans p.kept q.kept;
    owned = λ a. q.owned a ∙ p.owned a;
    frame = λ a off. q.frame a (p.owned a ∙ off) ∙ p.frame a off;
    used_room = omega (arith, p.used_room, q.used_room);
  }

  module _ (put_fuel : ℕ) where
    put-Pending :
        (c : Cache S K V) (nodes : List Address) (l : List (K × V)) (before : Option Address)
        (p : Address) (ps : List Address) (x : K × V) (rest : List (K × V))
        → Pending c nodes l before (p ∷ ps) (x ∷ rest)
        → (d : Cache S K V) × (after : List Address) × (put api (suc put_fuel) x.0 x.1 c
            ≡ ok true d)
          × Pending d after (l ++ x ∷ []) (some p) ps rest
          × Copied c d (x ∷ [])
    unfolding elem
    put-Pending c nodes l before p ps x rest h =
        let longer = length-append l (x ∷ rest) in
        let space : is_full c.max_capacity (size api c) ≡ false = rw h.keeps.sized (
          is_full_mono c.max_capacity (length l) (length (l ++ x ∷ rest)) (omega (arith, longer))
            h.space) in
        let absent = lookup-head eqb (λ a b. (laws.same_key a b).0) x.0 x.1 l rest h.keys in
        let has_room = laws.roomy c.table h.keeps.table (omega (arith, h.roomy)) in
        let (d, after, runs, keeps, kept, owned, frame, less) =
          add_new-Keeps api eqb place room laws c nodes l h.keeps x.0 x.1 absent has_room in
        (
          d,
          after,
          put-add_new api eqb place room laws c nodes l h.keeps put_fuel x.0 x.1 space absent
                has_room
              ∙ runs,
          record {
            keeps = keeps;
            chain =
                Chain-frame c.entries d.entries (some p) ps rest none
                  (λ q there. frame q (h.apart q (ground (arith, there)))) h.chain.1;
            apart = λ q there. owned q ∙ h.apart q (ground (arith, there));
            keys = rw (append_assoc l (x ∷ []) rest) h.keys;
            roomy = omega (arith, h.roomy, less);
            space = rw (append_assoc l (x ∷ []) rest, kept.max_capacity) h.space;
          },
          record { kept = kept; owned = owned; frame = frame; used_room = omega (arith, less) },
        )

    -- The loop puts the pairs that are left behind the others, in their order.
    pub put_from-Keeps :
        (fuel : ℕ) (c : Cache S K V) (nodes : List Address) (l : List (K × V))
        (before : Option Address) (ps : List Address) (rest : List (K × V))
        → length rest < fuel
        → Pending c nodes l before ps rest
        → (d : Cache S K V) × (after : List Address) × (put_from api
              (put api (suc put_fuel))
              fuel
              (head_of ps none)
              c
            ≡ ok tt d)
          × Keeps api eqb place room laws d after (l ++ rest)
          × Copied c d rest
    unfolding load elem
    put_from-Keeps zero c nodes l before ps rest enough h = absurd (omega (arith, enough))
    put_from-Keeps (suc fuel) c nodes l before [] [] enough h = (
      c,
      nodes,
      refl,
      rw (append-nil l) h.keeps,
      record {
        kept = Kept-refl c;
        owned = λ q. refl;
        frame = λ q off. refl;
        used_room = omega arith;
      },
    )
    put_from-Keeps (suc fuel) c nodes l before [] (x ∷ rest) enough h = absurd h.chain
    put_from-Keeps (suc fuel) c nodes l before (p ∷ ps) [] enough h = absurd h.chain
    put_from-Keeps (suc fuel) c nodes l before (p ∷ ps) (x ∷ rest) enough h =
        let (d, mid, runs, pending, copied) = put-Pending c nodes l before p ps x rest h in
        let (e, after, runs', keeps, copied') =
          put_from-Keeps fuel d mid (l ++ x ∷ []) (some p) ps rest (omega (arith, enough))
            pending in
        let still : d.entries p ≡ some (entry_of x.0 x.1 before (head_of ps none)) =
          copied.frame p (h.apart p (ground arith)) ∙ h.chain.0 in
        (
          e,
          after,
          rw h.chain.0 (rw runs (rw still runs')),
          rw (append_assoc l (x ∷ []) rest) at keeps,
          Copied-trans x rest copied copied',
        )
