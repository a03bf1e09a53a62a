-- ===== src/Store/Merge/Unions.antt =====
-- store.go: MergeTasks. What the absorber's columns hold by its plan.
use Prim.Native.String.{◌++◌}
use backlog_server.Prelude.{
  ℕ, String, ◌≡◌, ◌≢◌, ◌↔◌, refl, sym, ◌∙◌, ◌⊎◌, inl, inr, List, [], ◌∷◌, map, concat, ◌==◌, eq_iff,
  if◌then◌else◌, is_empty, mem_text, In-of_mem_text, Bool-cases, In,
}
use backlog_server.Prelude.Decimal.{decimal}
use backlog_server.Store.Db.{Task}
use backlog_server.Store.Merge.Planning.{
  Plan, Dependent, below, insert_text, sorted_texts, merge_string_set_sorted, append_new, tag_with,
  merged_note, plan_of,
}
use backlog_server.Store.Merge.Sets.{merge_int_set_sorted_exclude_lem}

In-append :
    {A : Type 0} (xs ys : List A) (z : A) → In z (concat (xs ∷ ys ∷ [])) ↔ (In z xs ⊎ In z ys)
In-append [] [] z = (λ i. inl i, λ i. elim i [ inl j ↦ j | inr j ↦ j ])
In-append [] (y ∷ ys) z =
    let ih = In-append [] ys z in
    (
      λ i. elim i [
        | inl p ↦ inr (inl p)
        | inr j ↦ elim (ih.0 j) [ inl k ↦ elim k [ ] | inr k ↦ inr (inr k) ]
      ],
      λ i. elim i [ inl j ↦ elim j [ ] | inr (inl p) ↦ inl p | inr (inr j) ↦ inr (ih.1 (inr j)) ],
    )
In-append (x ∷ xs) ys z =
    let ih = In-append xs ys z in
    (
      λ i. elim i [
        | inl p ↦ inl (inl p)
        | inr j ↦ elim (ih.0 j) [ inl k ↦ inl (inr k) | inr k ↦ inr k ]
      ],
      λ i. elim i [
        | inl (inl p) ↦ inl p
        | inl (inr j) ↦ inr (ih.1 (inl j))
        | inr j ↦ inr (ih.1 (inr j))
      ],
    )

insert_text-In :
    (x : String) (ys : List String) (z : String)
    → (In z (insert_text x ys) → (x ≡ z) ⊎ In z ys) × ((x ≡ z) ⊎ In z ys → In z (insert_text x ys))
unfolding insert_text
insert_text-In x [] z = (λ i. i, λ i. i)
insert_text-In x (y ∷ ys) z = elim (Bool-cases (x == y)) [
  | inl e ↦
      let same : y ≡ x = sym ((eq_iff x y).0 e) in
      rw e (λ i. inr i, λ i. elim i [ inl p ↦ inl (same ∙ p) | inr j ↦ j ])
  | inr n ↦ elim (Bool-cases (below x y)) [
    | inl s ↦ rw (n, s) (λ i. i, λ i. i)
    | inr g ↦
        let (to, back) = insert_text-In x ys z in
        rw (n, g)
          (
            λ i. elim i [
              | inl p ↦ inr (inl p)
              | inr j ↦ elim (to j) [ inl p ↦ inl p | inr k ↦ inr (inr k) ]
            ],
            λ i. elim i [
              | inl p ↦ inr (back (inl p))
              | inr (inl p) ↦ inl p
              | inr (inr k) ↦ inr (back (inr k))
            ],
          )
  ]
]

sorted_texts-In : (xs : List String) (z : String) → In z (sorted_texts xs) ↔ In z xs
unfolding sorted_texts
sorted_texts-In [] z = (λ i. i, λ i. i)
sorted_texts-In (x ∷ xs) z =
    let (to, back) = insert_text-In x (sorted_texts xs) z in
    let ih = sorted_texts-In xs z in
    (
      λ i. elim (to i) [ inl p ↦ inl p | inr j ↦ inr (ih.0 j) ],
      λ i. elim i [ inl p ↦ back (inl p) | inr j ↦ back (inr (ih.1 j)) ],
    )

-- `zs` holds exactly what `xs` and `ys` hold.
abbrev pub Union : List String → List String → List String → Type 0
Union xs ys zs = (z : String) → In z zs ↔ (In z xs ⊎ In z ys)

merge_string_set-Union : (xs ys : List String) → Union xs ys (merge_string_set_sorted xs ys)
unfolding merge_string_set_sorted
merge_string_set-Union xs ys z =
    let s = sorted_texts-In (concat (xs ∷ ys ∷ [])) z in
    let a = In-append xs ys z in (λ i. a.0 (s.0 i), λ i. s.1 (a.1 i))

append_new-Union : (have vs : List String) → Union have vs (append_new have vs)
unfolding append_new
append_new-Union have [] z = (λ i. inl i, λ i. elim i [ inl j ↦ j | inr j ↦ elim j [ ] ])
append_new-Union have (v ∷ vs) z = elim (Bool-cases (mem_text v have)) [
  | inl y ↦
      let ih = append_new-Union have vs z in
      rw y (
        λ i. elim (ih.0 i) [ inl j ↦ inl j | inr j ↦ inr (inr j) ],
        λ i. elim i [
          | inl j ↦ ih.1 (inl j)
          | inr (inl p) ↦ ih.1 (inl (rw p at (In-of_mem_text v have y)))
          | inr (inr j) ↦ ih.1 (inr j)
        ],
      )
  | inr n ↦
      let ih = append_new-Union (concat (have ∷ (v ∷ []) ∷ [])) vs z in
      let a = In-append have (v ∷ []) z in
      rw n (
        λ i. elim (ih.0 i) [
          | inl j ↦ elim (a.0 j) [
            | inl k ↦ inl k
            | inr (inl p) ↦ inr (inl p)
            | inr (inr k) ↦ elim k [ ]
          ]
          | inr j ↦ inr (inr j)
        ],
        λ i. elim i [
          | inl j ↦ ih.1 (inl (a.1 (inl j)))
          | inr (inl p) ↦ ih.1 (inl (a.1 (inr (inl p))))
          | inr (inr j) ↦ ih.1 (inr j)
        ],
      )
]

-- What a merge of B into A asks of the columns of A, told by the rows that it read: the blockers of
-- both but A itself; consumers, tags, references and done_when of both, those of B under its number;
-- and the note of B behind that of A.
abbrev pub Planned : ℕ → ℕ → Task → Task → Task → Task → Plan → Type 0
Planned a b ta tb ra rb p =
    ((x : ℕ) → In x p.blocked_by ↔ ((In x ta.blocked_by ⊎ In x tb.blocked_by) × (x ≢ a)))
    × Union ra.consumers rb.consumers p.consumers
    × Union ta.done_when (map (λ v. "(from #" ++ decimal b ++ ") " ++ v) tb.done_when) p.done_when
    × Union ta.references tb.references p.references
    × Union ra.tags rb.tags p.tags
    × (p.note ≡ (
        if is_empty tb.note
        then ta.note
        else if is_empty ta.note
        then tb.note
        else ta.note ++ "\n" ++ tb.note))

pub plan_of-Planned :
    (a b : ℕ) (ta tb ra rb : Task) (deps : List Dependent)
    → Planned a b ta tb ra rb (plan_of a b ta tb ra rb deps)
unfolding plan_of tag_with merged_note
plan_of-Planned a b ta tb ra rb deps = (
  (merge_int_set_sorted_exclude_lem ta.blocked_by tb.blocked_by a).1,
  merge_string_set-Union ra.consumers rb.consumers,
  append_new-Union ta.done_when (map (λ v. "(from #" ++ decimal b ++ ") " ++ v) tb.done_when),
  append_new-Union ta.references tb.references,
  merge_string_set-Union ra.tags rb.tags,
  refl,
)
