-- ===== src/LinkedList/Nodes.antt =====
-- Lists of distinct addresses.
use qf.Prelude.{
  ◌≡◌, ap, arith, ==_iff, Bool-cases, inl, inr, Bool, true, false, List, [], ◌∷◌, ◌++◌, ◌==◌,
}
use qf.Bits.Table.{elem}
use qf.LinkedList.{Address}
use qf.LinkedList.Chain.{◌∈◌, ◌∉◌, Distinct, elem-append}

-- A live node is not one that is not.
pub apart_of_live :
    {p q : Address} (live : Address → Bool) → live p ≡ true → live q ≡ false → (p == q) ≡ false
apart_of_live {p} {q} live on off = elim (Bool-cases (p == q)) [
  | inl same ↦ cc (on, off, ap live ((==_iff p q).0 same))
  | inr apart ↦ apart
]

module _ (live : Address → Bool) where
  pub not-mem_of_live :
      (q : Address) (ps : List Address)
      → ((p : Address) → p ∈ ps → live p ≡ true)
      → live q ≡ false
      → q ∉ ps
  not-mem_of_live q ps alive off = elim (Bool-cases (elem q ps)) [
    | inl there ↦ cc (alive q there, off)
    | inr gone ↦ gone
  ]

pub ==-mem : (p q : Address) (ps : List Address) → p ∈ ps → q ∉ ps → (p == q) ≡ false
==-mem p q ps there out = apart_of_live (λ a. elem a ps) there out

pub mem-left : (q : Address) (xs ys : List Address) → q ∈ xs → q ∈ xs ++ ys
mem-left q xs ys h = ground (arith, elem-append q xs ys)

pub mem-right : (q : Address) (xs ys : List Address) → q ∈ ys → q ∈ xs ++ ys
mem-right q xs ys h = ground (arith, elem-append q xs ys)

pub Distinct-left : (xs ys : List Address) → Distinct (xs ++ ys) → Distinct xs
Distinct-left [] ys d = tt
Distinct-left (x ∷ xs) ys (out, d) = (ground (arith, elem-append x xs ys), Distinct-left xs ys d)

pub Distinct-right : (xs ys : List Address) → Distinct (xs ++ ys) → Distinct ys
Distinct-right [] ys d = d
Distinct-right (x ∷ xs) ys (out, d) = Distinct-right xs ys d

pub apart_of_distinct : (q : Address) (xs ys : List Address) → Distinct (xs ++ ys) → q ∈ xs → q ∉ ys
unfolding elem
apart_of_distinct q [] ys d h = cc h
apart_of_distinct q (x ∷ xs) ys (out, d) h = elim (Bool-cases (q == x)) [
  | inl same ↦ let e : q ≡ x = (==_iff q x).0 same in rw e (ground (arith, elem-append x xs ys))
  | inr other ↦ apart_of_distinct q xs ys d (ground arith)
]

pub apart_of_distinct' :
    (q : Address) (xs ys : List Address) → Distinct (xs ++ ys) → q ∈ ys → q ∉ xs
apart_of_distinct' q xs ys d h = elim (Bool-cases (elem q xs)) [
  | inl there ↦ cc (apart_of_distinct q xs ys d there, h)
  | inr gone ↦ gone
]

pub Distinct-insert :
    (n : Address) (xs ys : List Address)
    → Distinct (xs ++ ys)
    → n ∉ xs ++ ys
    → Distinct (xs ++ n ∷ ys)
unfolding elem
Distinct-insert n [] ys d out = (out, d)
Distinct-insert n (x ∷ xs) ys (ox, d) out = (
  ground (arith, elem-append x xs ys, elem-append x xs (n ∷ ys)),
  Distinct-insert n xs ys d (ground arith),
)

pub Distinct-erase :
    (n : Address) (xs ys : List Address) → Distinct (xs ++ n ∷ ys) → Distinct (xs ++ ys)
unfolding elem
Distinct-erase n [] ys (out, d) = d
Distinct-erase n (x ∷ xs) ys (ox, d) =
    (ground (arith, elem-append x xs ys, elem-append x xs (n ∷ ys)), Distinct-erase n xs ys d)

pub not-mem_of_distinct :
    (n : Address) (xs ys : List Address) → Distinct (xs ++ n ∷ ys) → n ∉ xs ++ ys
unfolding elem
not-mem_of_distinct n xs ys d = ground (
  arith,
  elem-append n xs ys,
  apart_of_distinct' n xs (n ∷ ys) d (ground arith),
  (Distinct-right xs (n ∷ ys) d).0,
)
