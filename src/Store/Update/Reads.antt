-- ===== src/Store/Update/Reads.antt =====
-- store.go: UpdateTask. What the row reads behind it.
use text.Mathlib.TextPositions.{compare_refl}
use backlog_server.Prelude.{
  String, true, false, ◌≡◌, refl, sym, ap, ◌∙◌, inl, inr, List, [], ◌∷◌, map, ◌==◌, eq_iff,
  Bool-cases, All, if◌then◌else◌, In, All-In, listed_or_not, arith, Distinct,
}
use mathlib.Core.Path.{subst}
use backlog_server.Store.Db.{Task}
use backlog_server.Store.Session.{Env}
use backlog_server.Store.Update.{
  Diff, current_text_field, apply_text_field, set_column, set_columns, diffs_of, insert_diff,
  sort_diffs, above,
}

-- The whitelisted fields but the integer parent_task_id.
abbrev pub text_fields : List String
text_fields =
    "title" ∷ "why" ∷ "mode" ∷ "note" ∷ "business_value" ∷ "task_plan" ∷ "spec" ∷ "owner" ∷ []

-- The value that a field shall have, where it is now `v`.
unfoldable pub asked : String → List (String × String) → String → String
asked f [] v = v
asked f ((g, x) ∷ us) v = asked f us (if g == f then x else v)

unfoldable pub told : String → List Diff → String → String
told f [] v = v
told f (d ∷ ds) v = told f ds (if d.field == f then d.new_value else v)

-- One text field set, for each of them read.
abbrev Set : Task → String → String → String → Type 0
Set t v g f =
    current_text_field (apply_text_field g v t) f ≡ (if g == f then v else current_text_field t f)

module _ (t : Task) (v : String) where
  set-each : All (λ g. All (Set t v g) text_fields) text_fields
  unfolding apply_text_field current_text_field
  set-each = ground arith

  set-none : (g : String) → All (λ x. (g == x) ≡ false) text_fields → All (Set t v g) text_fields
  unfolding apply_text_field current_text_field
  set-none g (a, (b, (c, (d, (e, (h, (k, (l, _)))))))) =
      rw (a, b, c, d, e, h, k, l) (refl, (refl, (refl, (refl, (refl, (refl, (refl, (refl, tt))))))))

apply_text_field-reads : (g v : String) (t : Task) (f : String) → In f text_fields → Set t v g f
apply_text_field-reads g v t f i = elim (listed_or_not g text_fields) [
  | inl j ↦
      All-In (Set t v g) text_fields f
        (All-In (λ g. All (Set t v g) text_fields) text_fields g (set-each t v) j) i
  | inr h ↦ All-In (Set t v g) text_fields f (set-none t v g h) i
]

parent-reads :
    (env : Env) (d : Diff) (t : Task)
    → d.field ≡ "parent_task_id"
    → All
        (λ f.
          current_text_field (set_column env d t) f
          ≡ (if d.field == f then d.new_value else current_text_field t f))
        text_fields
unfolding set_column current_text_field
parent-reads env d t e = rw e (refl, (refl, (refl, (refl, (refl, (refl, (refl, (refl, tt))))))))

set_column-reads :
    (env : Env) (d : Diff) (t : Task) (f : String)
    → In f text_fields
    → current_text_field (set_column env d t) f
      ≡ (if d.field == f then d.new_value else current_text_field t f)
unfolding set_column
set_column-reads env d t f i = elim (Bool-cases (d.field == "parent_task_id")) [
  | inl y ↦
      All-In
        (λ f.
          current_text_field (set_column env d t) f
          ≡ (if d.field == f then d.new_value else current_text_field t f))
        text_fields f (parent-reads env d t ((eq_iff d.field "parent_task_id").0 y)) i
  | inr z ↦ rw z (apply_text_field-reads d.field d.new_value t f i)
]

pub set_columns-reads :
    (env : Env) (ds : List Diff) (t : Task) (f : String)
    → In f text_fields
    → current_text_field (set_columns env ds t) f ≡ told f ds (current_text_field t f)
unfolding set_columns told
set_columns-reads env [] t f i = refl
set_columns-reads env (d ∷ ds) t f i =
    set_columns-reads env ds (set_column env d t) f i
    ∙ ap (told f ds) (set_column-reads env d t f i)

not-above-itself : (s : String) → above s s ≡ false
not-above-itself s = rw (above, compare_refl s) refl

insert_diff-told :
    (f : String) (d : Diff) (ds : List Diff) (v : String)
    → told f (insert_diff d ds) v ≡ told f (d ∷ ds) v
unfolding insert_diff told
insert_diff-told f d [] v = refl
insert_diff-told f d (e ∷ es) v = elim (Bool-cases (above d.field e.field)) [
  | inr z ↦ rw z refl
  | inl y ↦
      rw y (
        insert_diff-told f d es (if e.field == f then e.new_value else v) ∙ ap (told f es) (swap y))
]
  where
    swap :
        above d.field e.field ≡ true
        → (if d.field == f then d.new_value else if e.field == f then e.new_value else v)
          ≡ (if e.field == f then e.new_value else if d.field == f then d.new_value else v)
    swap y = elim (Bool-cases (d.field == f)) [
      | inr n ↦ rw n refl
      | inl p ↦ elim (Bool-cases (e.field == f)) [
        | inr m ↦ rw (p, m) refl
        | inl q ↦
            let same : d.field ≡ e.field = (eq_iff d.field f).0 p ∙ sym ((eq_iff e.field f).0 q) in
            let over : above e.field e.field ≡ true = subst (λ s. above s e.field ≡ true) same y in
            let low = not-above-itself e.field in absurd (cc)
      ]
    ]

pub sort_diffs-told :
    (f : String) (ds : List Diff) (v : String) → told f (sort_diffs ds) v ≡ told f ds v
unfolding sort_diffs told
sort_diffs-told f [] v = refl
sort_diffs-told f (d ∷ ds) v =
    insert_diff-told f d (sort_diffs ds) v
    ∙ sort_diffs-told f ds (if d.field == f then d.new_value else v)

abbrev pub key_of : String × String → String
key_of u = u.0

module _ (t : Task) (f : String) where
  -- A field that is not among the updates keeps its value.
  untold :
      (us : List (String × String)) (v : String)
      → ¬ In f (map key_of us)
      → (told f (diffs_of us t) v ≡ v) × (asked f us v ≡ v)
  unfolding diffs_of told asked
  untold [] v h = (refl, refl)
  untold ((g, x) ∷ us) v h = elim (Bool-cases (g == f)) [
    | inl y ↦ absurd (h (inl ((eq_iff g f).0 y)))
    | inr z ↦
        let (p, q) = untold us v (λ i. h (inr i)) in
        elim (Bool-cases (current_text_field t g == x)) [
          | inl s ↦ rw (s, z) (p, q)
          | inr n ↦ rw (n, z) (p, q)
        ]
  ]

  pub diffs_of-told :
      (us : List (String × String))
      → Distinct (map key_of us)
      → told f (diffs_of us t) (current_text_field t f) ≡ asked f us (current_text_field t f)
  unfolding diffs_of told asked
  diffs_of-told [] h = refl
  diffs_of-told ((g, x) ∷ us) (away, h) = elim (Bool-cases (g == f)) [
    | inr z ↦ elim (Bool-cases (current_text_field t g == x)) [
      | inl s ↦ rw (s, z) (diffs_of-told us h)
      | inr n ↦ rw (n, z) (diffs_of-told us h)
    ]
    | inl y ↦
        let here : g ≡ f = (eq_iff g f).0 y in
        let gone : ¬ In f (map key_of us) = subst (λ s. ¬ In s (map key_of us)) here away in
        elim (Bool-cases (current_text_field t g == x)) [
          | inl s ↦
              let same : current_text_field t f ≡ x =
                ap (current_text_field t) (sym here) ∙ (eq_iff (current_text_field t g) x).0 s in
              rw (s, y)
                ((untold us (current_text_field t f) gone).0 ∙ same ∙ sym (untold us x gone).1)
          | inr n ↦ rw (n, y) ((untold us x gone).0 ∙ sym (untold us x gone).1)
        ]
  ]
