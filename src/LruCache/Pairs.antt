-- ===== src/LruCache/Pairs.antt =====
-- Sequences of pairs with distinct keys: what RS485/tl/native_client/jni/utils/LruCache.h keeps, the
-- pair whose use is longest ago first, and where the entries of the pairs are.
use mathlib.Core.Path.{subst}
use qf.Prelude.{
  suc, ◌≡◌, ◌↔◌, refl, sym, ap, arith, List, [], ◌∷◌, ◌++◌, Option, none, some, Bool, true, false,
  if◌then◌else◌, length, Bool-cases, inl, inr,
}
use qf.LruCache.{Address}

eqb-sym :
    {K : Type 0} (eqb : K → K → Bool)
    → ((a b : K) → (eqb a b ≡ true) ↔ (a ≡ b))
    → (a b : K) → eqb a b ≡ false
    → eqb b a ≡ false
eqb-sym eqb same_key a b off = elim (Bool-cases (eqb b a)) [
  | inl on ↦ cc ((same_key a b).1 (sym ((same_key b a).0 on)), off)
  | inr e ↦ e
]

module _ {K V : Type 0} (eqb : K → K → Bool) where
  abbrev pub lookup : K → List (K × V) → Option V
  lookup k [] = none
  lookup k (x ∷ l) = if eqb k x.0 then some x.1 else lookup k l

  abbrev pub without : K → List (K × V) → List (K × V)
  without k [] = []
  without k (x ∷ l) = let rest = without k l in if eqb k x.0 then l else x ∷ rest

  abbrev pub DistinctKeys : List (K × V) → Type 0
  DistinctKeys [] = Unit {0}
  DistinctKeys (x ∷ l) = (lookup x.0 l ≡ none) × DistinctKeys l

  -- Where the entry of `k` is.
  abbrev pub place_in : K → List Address → List (K × V) → Option Address
  place_in k [] l = none
  place_in k (p ∷ ps) [] = none
  place_in k (p ∷ ps) (x ∷ l) = if eqb k x.0 then some p else place_in k ps l

  -- The pair of `k` and its entry `p`, in the middle of the others.
  pub record Found (k : K) (p : Address) (nodes : List Address) (l : List (K × V)) : Type 0 where
    pub xs : List Address
    pub ys : List Address
    pub front : List (K × V)
    pub value : V
    pub back : List (K × V)
    pub nodes_split : nodes ≡ xs ++ p ∷ ys
    pub pairs_split : l ≡ front ++ (k, value) ∷ back
    pub same : length xs ≡ length front
    pub here : lookup k l ≡ some value
    pub rest : without k l ≡ front ++ back
    pub gone :
        (j : K)
        → place_in j (xs ++ ys) (front ++ back) ≡ (if eqb j k then none else place_in j nodes l)
    pub misses : (j : K) → lookup j l ≡ none → lookup j (front ++ back) ≡ none
    pub absent : lookup k (front ++ back) ≡ none
    pub keys : DistinctKeys (front ++ back)

  pub place_in-none :
      (k : K) (nodes : List Address) (l : List (K × V))
      → lookup k l ≡ none
      → place_in k nodes l ≡ none
  place_in-none k [] l e = refl
  place_in-none k (p ∷ ps) [] e = refl
  place_in-none k (p ∷ ps) (x ∷ l) e = elim (Bool-cases (eqb k x.0)) [
    | inl here ↦ let e' : some x.1 ≡ none = rw here at e in cc e'
    | inr other ↦ rw other (place_in-none k ps l (rw other at e))
  ]

  -- A key without an entry is in no pair.
  pub none_of_place_in :
      (k : K) (nodes : List Address) (l : List (K × V))
      → length nodes ≡ length l
      → place_in k nodes l ≡ none
      → (lookup k l ≡ none) × (without k l ≡ l)
  none_of_place_in k [] [] same e = (refl, refl)
  none_of_place_in k [] (x ∷ l) same e = absurd (omega (arith, same))
  none_of_place_in k (p ∷ ps) [] same e = (refl, refl)
  none_of_place_in k (p ∷ ps) (x ∷ l) same e = elim (Bool-cases (eqb k x.0)) [
    | inl here ↦ let e' : some p ≡ none = rw here at e in cc e'
    | inr other ↦
        let (gone, kept) = none_of_place_in k ps l (omega (arith, same)) (rw other at e) in
        (rw other gone, rw other (ap (λ t. x ∷ t) kept))
  ]

  -- A new pair at the end.
  pub place_in-append :
      (nodes : List Address) (l : List (K × V)) (p : Address) (k : K) (v : V) (j : K)
      → length nodes ≡ length l
      → (eqb j k ≡ true → place_in j nodes l ≡ none)
      → place_in j (nodes ++ p ∷ []) (l ++ (k, v) ∷ [])
        ≡ (if eqb j k then some p else place_in j nodes l)
  place_in-append [] [] p k v j same new = refl
  place_in-append [] (x ∷ l) p k v j same new = absurd (omega (arith, same))
  place_in-append (q ∷ ps) [] p k v j same new = absurd (omega (arith, same))
  place_in-append (q ∷ ps) (x ∷ l) p k v j same new = elim (Bool-cases (eqb j x.0)) [
    | inl here ↦ elim (Bool-cases (eqb j k)) [
      | inl it ↦ let e : some q ≡ none = rw here at (new it) in cc e
      | inr other ↦ rw (here, other) refl
    ]
    | inr apart ↦
        rw apart (place_in-append ps l p k v j (omega (arith, same)) (λ it. rw apart at (new it)))
  ]

  lookup-append :
      (j k : K) (l : List (K × V)) (v : V)
      → lookup j l ≡ none
      → eqb j k ≡ false
      → lookup j (l ++ (k, v) ∷ []) ≡ none
  lookup-append j k [] v e apart = rw apart
  lookup-append j k (x ∷ l) v e apart = elim (Bool-cases (eqb j x.0)) [
    | inl here ↦ let e' : some x.1 ≡ none = rw here at e in cc e'
    | inr other ↦ rw other (lookup-append j k l v (rw other at e) apart)
  ]

  module _ (same_key : (a b : K) → (eqb a b ≡ true) ↔ (a ≡ b)) where
    pub DistinctKeys-append :
        (l : List (K × V)) (k : K) (v : V)
        → DistinctKeys l
        → lookup k l ≡ none
        → DistinctKeys (l ++ (k, v) ∷ [])
    DistinctKeys-append [] k v d e = (refl, tt)
    DistinctKeys-append (x ∷ l) k v (out, d) e = elim (Bool-cases (eqb k x.0)) [
      | inl here ↦ let e' : some x.1 ≡ none = rw here at e in cc e'
      | inr other ↦ (
        lookup-append x.0 k l v out (eqb-sym eqb same_key k x.0 other),
        DistinctKeys-append l k v d (rw other at e),
      )
    ]

    -- The pair at the head of a sequence.
    head-Found :
        (k : K) (p q : Address) (ps : List Address) (x : K × V) (l : List (K × V))
        → DistinctKeys (x ∷ l)
        → q ≡ p
        → eqb k x.0 ≡ true
        → Found k p (q ∷ ps) (x ∷ l)
    head-Found k p q ps x l (out, d) at here =
        let key : x.0 ≡ k = sym ((same_key k x.0).0 here) in
        let out_at : (j : K) → eqb j x.0 ≡ true → lookup j l ≡ none =
          λ j on. subst (λ t. lookup t l ≡ none) (sym ((same_key j x.0).0 on)) out in
        record {
          xs = [];
          ys = ps;
          front = [];
          value = x.1;
          back = l;
          nodes_split = ap (λ t. t ∷ ps) at;
          pairs_split = ap (λ t. (t, x.1) ∷ l) key;
          same = refl;
          here = rw here refl;
          rest = rw here refl;
          gone = λ j. elim (Bool-cases (eqb j x.0)) [
            | inl on ↦
                let on' : eqb j k ≡ true = subst (λ t. eqb j t ≡ true) key on in
                rw (on', place_in-none j ps l (out_at j on)) refl
            | inr off ↦
                let off' : eqb j k ≡ false = subst (λ t. eqb j t ≡ false) key off in
                rw (off', off) refl
          ];
          misses =
              λ j h. elim (Bool-cases (eqb j x.0)) [ inl on ↦ out_at j on | inr off ↦ rw off at h ];
          absent = out_at k here;
          keys = d;
        }

    pub place_in-Found :
        (k : K) (p : Address) (nodes : List Address) (l : List (K × V))
        → DistinctKeys l
        → place_in k nodes l ≡ some p
        → Found k p nodes l
    place_in-Found k p [] l d e = cc e
    place_in-Found k p (q ∷ ps) [] d e = cc e
    place_in-Found k p (q ∷ ps) (x ∷ l) (out, d) e = elim (Bool-cases (eqb k x.0)) [
      | inl here ↦
          let e' : some q ≡ some p = rw here at e in head-Found k p q ps x l (out, d) (cc e') here
      | inr other ↦
          let f = place_in-Found k p ps l d (rw other at e) in
          let apart : (j : K) → eqb j x.0 ≡ true → eqb j k ≡ false = λ j on.
            subst (λ t. eqb t k ≡ false) (sym ((same_key j x.0).0 on))
              (eqb-sym eqb same_key k x.0 other) in
          record {
            xs = q ∷ f.xs;
            ys = f.ys;
            front = x ∷ f.front;
            value = f.value;
            back = f.back;
            nodes_split = ap (λ t. q ∷ t) f.nodes_split;
            pairs_split = ap (λ t. x ∷ t) f.pairs_split;
            same = ap suc f.same;
            here = rw other f.here;
            rest = rw other (ap (λ t. x ∷ t) f.rest);
            gone = λ j. elim (Bool-cases (eqb j x.0)) [
              | inl on ↦ rw (on, apart j on) refl
              | inr off ↦ rw off (f.gone j)
            ];
            misses = λ j h. elim (Bool-cases (eqb j x.0)) [
              | inl on ↦ let h' : some x.1 ≡ none = rw on at h in cc h'
              | inr off ↦ rw off (f.misses j (rw off at h))
            ];
            absent = rw other f.absent;
            keys = (f.misses x.0 out, f.keys);
          }
    ]
