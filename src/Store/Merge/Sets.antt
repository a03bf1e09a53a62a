-- ===== src/Store/Merge/Sets.antt =====
-- store.go: mergeIntSetSortedExclude as a set.
use backlog_server.Prelude.{
  ℕ, ◌<◌, Bool, true, not, ◌≡◌, ◌≢◌, ◌↔◌, refl, sym, ap, ◌∙◌, ◌⊎◌, inl, inr, List, [], ◌∷◌, ◌++◌,
  eqb, eqb_iff, ltb, Bool-cases, In, All, In-filter_by, filter_by, arith,
}
use backlog_server.Store.Merge.Planning.{insert_int, sorted_ints, merge_int_set_sorted_exclude}

-- Each element is below those behind it.
abbrev pub Ascending : List ℕ → Type 0
Ascending [] = Unit
Ascending (x ∷ xs) = All (λ y. x < y) xs × Ascending xs

All-below : (x y : ℕ) (zs : List ℕ) → x < y → All (λ z. y < z) zs → All (λ z. x < z) zs
All-below x y [] h k = tt
All-below x y (z ∷ zs) h (l, k) = (omega (arith, h, l), All-below x y zs h k)

insert_int-All : (P : ℕ → Type 0) (x : ℕ) (ys : List ℕ) → P x → All P ys → All P (insert_int x ys)
unfolding insert_int
insert_int-All P x [] h k = (h, tt)
insert_int-All P x (y ∷ ys) h (l, k) = elim (Bool-cases (eqb x y)) [
  | inl e ↦ rw e (l, k)
  | inr n ↦ elim (Bool-cases (ltb x y)) [
    | inl s ↦ rw (n, s) (h, (l, k))
    | inr g ↦ rw (n, g) (l, insert_int-All P x ys h k)
  ]
]

insert_int-Ascending : (x : ℕ) (ys : List ℕ) → Ascending ys → Ascending (insert_int x ys)
unfolding insert_int
insert_int-Ascending x [] h = (tt, tt)
insert_int-Ascending x (y ∷ ys) (h, k) = elim (Bool-cases (eqb x y)) [
  | inl e ↦ rw e (h, k)
  | inr n ↦ elim (Bool-cases (ltb x y)) [
    | inl s ↦
        let below : x < y = ground arith in rw (n, s) ((below, All-below x y ys below h), (h, k))
    | inr g ↦
        let above : y < x = ground arith in
        rw (n, g) (insert_int-All (λ z. y < z) x ys above h, insert_int-Ascending x ys k)
  ]
]

sorted_ints-Ascending : (xs : List ℕ) → Ascending (sorted_ints xs)
unfolding sorted_ints
sorted_ints-Ascending [] = tt
sorted_ints-Ascending (x ∷ xs) = insert_int-Ascending x (sorted_ints xs) (sorted_ints-Ascending xs)

insert_int-In :
    (x : ℕ) (ys : List ℕ) (z : ℕ)
    → (In z (insert_int x ys) → (x ≡ z) ⊎ In z ys) × ((x ≡ z) ⊎ In z ys → In z (insert_int x ys))
unfolding insert_int
insert_int-In x [] z = (λ i. i, λ i. i)
insert_int-In x (y ∷ ys) z = elim (Bool-cases (eqb x y)) [
  | inl e ↦
      let same : y ≡ x = sym ((eqb_iff x y).0 e) in
      rw e (λ i. inr i, λ i. elim i [ inl p ↦ inl (same ∙ p) | inr j ↦ j ])
  | inr n ↦ elim (Bool-cases (ltb x y)) [
    | inl s ↦ rw (n, s) (λ i. i, λ i. i)
    | inr g ↦
        let (to, back) = insert_int-In x ys z in
        rw (n, g)
          (
            λ i. elim i [
              | inl p ↦ inr (inl p)
              | inr j ↦ elim (to j) [ inl p ↦ inl p | inr k ↦ inr (inr k) ]
            ],
            λ i. elim i [
              | inl p ↦ inr (back (inl p))
              | inr (inl p) ↦ inl p
              | inr (inr k) ↦ inr (back (inr k))
            ],
          )
  ]
]

sorted_ints-In : (xs : List ℕ) (z : ℕ) → In z (sorted_ints xs) ↔ In z xs
unfolding sorted_ints
sorted_ints-In [] z = (λ i. i, λ i. i)
sorted_ints-In (x ∷ xs) z =
    let (to, back) = insert_int-In x (sorted_ints xs) z in
    let ih = sorted_ints-In xs z in
    (
      λ i. elim (to i) [ inl p ↦ inl p | inr j ↦ inr (ih.0 j) ],
      λ i. elim i [ inl p ↦ back (inl p) | inr j ↦ back (inr (ih.1 j)) ],
    )

filter_by-In :
    {A : Type 0} (p : A → Bool) (xs : List A) (a : A) → In a xs → p a ≡ true → In a (filter_by p xs)
filter_by-In p [] a i e = elim i [ ]
filter_by-In p (x ∷ xs) a (inl q) e = rw (ap p q ∙ e) (inl q)
filter_by-In p (x ∷ xs) a (inr i) e = elim (Bool-cases (p x)) [
  | inl y ↦ rw y (inr (filter_by-In p xs a i e))
  | inr z ↦ rw z (filter_by-In p xs a i e)
]

append-In : (xs ys : List ℕ) (z : ℕ) → In z (xs ++ (ys ++ [])) ↔ (In z xs ⊎ In z ys)
append-In [] [] z = (λ i. inl i, λ i. elim i [ inl j ↦ j | inr j ↦ j ])
append-In [] (y ∷ ys) z =
    let ih = append-In [] ys z in
    (
      λ i. elim i [
        | inl p ↦ inr (inl p)
        | inr j ↦ elim (ih.0 j) [ inl k ↦ elim k [ ] | inr k ↦ inr (inr k) ]
      ],
      λ i. elim i [ inl j ↦ elim j [ ] | inr (inl p) ↦ inl p | inr (inr j) ↦ inr (ih.1 (inr j)) ],
    )
append-In (x ∷ xs) ys z =
    let ih = append-In xs ys z in
    (
      λ i. elim i [
        | inl p ↦ inl (inl p)
        | inr j ↦ elim (ih.0 j) [ inl k ↦ inl (inr k) | inr k ↦ inr k ]
      ],
      λ i. elim i [
        | inl (inl p) ↦ inl p
        | inl (inr j) ↦ inr (ih.1 (inl j))
        | inr j ↦ inr (ih.1 (inr j))
      ],
    )

-- mergeIntSetSortedExclude returns, in strictly ascending order, exactly the elements of both lists
-- but the excluded one.
pub merge_int_set_sorted_exclude_lem :
    (xs ys : List ℕ) (e : ℕ)
    → Ascending (merge_int_set_sorted_exclude xs ys e)
      × ((z : ℕ) → In z (merge_int_set_sorted_exclude xs ys e) ↔ ((In z xs ⊎ In z ys) × (z ≢ e)))
unfolding merge_int_set_sorted_exclude
merge_int_set_sorted_exclude_lem xs ys e = (
  sorted_ints-Ascending (filter_by (λ x. not (eqb x e)) (xs ++ (ys ++ []))),
  λ z.
      let keeps : ℕ → Bool = λ x. not (eqb x e) in
      let all = xs ++ (ys ++ []) in
      (
        λ i.
            let (j, kept) =
              In-filter_by keeps all z ((sorted_ints-In (filter_by keeps all) z).0 i) in
            ((append-In xs ys z).0 j, left z kept),
        λ (i, n).
            (sorted_ints-In (filter_by keeps all) z).1
              (filter_by-In keeps all z ((append-In xs ys z).1 i) (right z n)),
      ),
)
  where
    left : (z : ℕ) → not (eqb z e) ≡ true → z ≡ e → ⊥
    left z kept p = let q = (eqb_iff z e).1 p in let r = rw q at kept in cc

    right : (z : ℕ) → z ≢ e → not (eqb z e) ≡ true
    right z n = elim (Bool-cases (eqb z e)) [
      | inl y ↦ absurd (n ((eqb_iff z e).0 y))
      | inr x ↦ rw x refl
    ]
