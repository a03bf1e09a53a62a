-- ===== src/Store/Update/Trail.antt =====
-- store.go: UpdateTask. Its audit rows tell of no status, and the row keeps its own.
use backlog_server.Prelude.{
  ℕ, String, Bool, true, false, ◌≡◌, refl, sym, ◌∙◌, inl, inr, none, List, [], ◌∷◌, ◌++◌, ◌==◌,
  eq_iff, eqb, Bool-cases, All, mem_text, is_nil, In, All-In, listed_or_not,
}
use mathlib.Core.Path.{subst}
use backlog_server.Store.Db.{Task, Audit}
use backlog_server.Store.Session.{Env}
use backlog_server.Store.Writes.{last_status, closing_statuses, Tidy}
use backlog_server.Store.Update.{
  Diff, updatable_text_fields, current_text_field, apply_text_field, set_column, set_columns,
  diffs_of, rejected_fields, insert_diff, sort_diffs, above, ends_early, update_row, updated,
}
use backlog_server.Store.Update.Effect.{audits, update_change, update_rows}

abbrev IsOther : String → Type 0
IsOther f = (f == "status") ≡ false

-- What no update changes.
abbrev Same : Task → Task → Type 0
Same t u = (u.id ≡ t.id) × (u.status ≡ t.status) × (u.closed_at ≡ t.closed_at)

same : (t : Task) → Same t t
same t = (refl, refl, refl)

apply_text_field-Same : (f v : String) (t : Task) → Same t (apply_text_field f v t)
unfolding apply_text_field
apply_text_field-Same f v t = elim (listed_or_not f updatable_text_fields) [
  | inl i ↦
      let s = same t in
      All-In (λ g. Same t (apply_text_field g v t)) updatable_text_fields f
        (s, (s, (s, (s, (s, (s, (s, (s, (s, tt))))))))) i
  | inr (a, (b, (c, (d, (e, (g, (h, (k, _)))))))) ↦ rw (a, b, c, d, e, g, h, k) (same t)
]

set_column-Same : (env : Env) (d : Diff) (t : Task) → Same t (set_column env d t)
unfolding set_column
set_column-Same env d t = elim (Bool-cases (d.field == "parent_task_id")) [
  | inl y ↦ rw y (same t)
  | inr z ↦ rw z (apply_text_field-Same d.field d.new_value t)
]

set_columns-Same : (env : Env) (ds : List Diff) (t : Task) → Same t (set_columns env ds t)
unfolding set_columns
set_columns-Same env [] t = same t
set_columns-Same env (d ∷ ds) t =
    let u = set_column env d t in
    let (i, s, c) = set_column-Same env d t in
    let (j, r, e) = set_columns-Same env ds u in (j ∙ i, r ∙ s, e ∙ c)

IsOther-updatable : (f : String) → mem_text f updatable_text_fields ≡ true → IsOther f
unfolding mem_text
IsOther-updatable f m = elim (Bool-cases (f == "status")) [
  | inl y ↦ let e = (eq_iff f "status").0 y in let p : Path Bool false true = rw e at m in cc
  | inr z ↦ z
]

accepted-IsOther :
    (us : List (String × String))
    → is_nil (rejected_fields us) ≡ true
    → All (λ (u : String × String). IsOther u.0) us
unfolding rejected_fields
accepted-IsOther [] e = tt
accepted-IsOther (u ∷ us) e = elim (Bool-cases (mem_text u.0 updatable_text_fields)) [
  | inl y ↦ (IsOther-updatable u.0 y, accepted-IsOther us (rw y at e))
  | inr z ↦ let p : Path Bool false true = rw z at e in absurd (cc)
]

diffs_of-IsOther :
    (t : Task) (us : List (String × String))
    → All (λ (u : String × String). IsOther u.0) us
    → All (λ (d : Diff). IsOther d.field) (diffs_of us t)
unfolding diffs_of
diffs_of-IsOther t [] h = h
diffs_of-IsOther t (u ∷ us) (h, hs) = elim (Bool-cases (current_text_field t u.0 == u.1)) [
  | inl y ↦ rw y (diffs_of-IsOther t us hs)
  | inr z ↦ rw z (h, diffs_of-IsOther t us hs)
]

insert_diff-All :
    (P : Diff → Type 0) (d : Diff) (ds : List Diff) → P d → All P ds → All P (insert_diff d ds)
unfolding insert_diff
insert_diff-All P d [] h hs = (h, hs)
insert_diff-All P d (e ∷ es) h (k, ks) = elim (Bool-cases (above d.field e.field)) [
  | inl y ↦ rw y (k, insert_diff-All P d es h ks)
  | inr z ↦ rw z (h, (k, ks))
]

sort_diffs-All : (P : Diff → Type 0) (ds : List Diff) → All P ds → All P (sort_diffs ds)
unfolding sort_diffs
sort_diffs-All P [] h = h
sort_diffs-All P (d ∷ ds) (h, hs) = insert_diff-All P d (sort_diffs ds) h (sort_diffs-All P ds hs)

All-append : (P : Audit → Type 0) (xs ys : List Audit) → All P xs → All P ys → All P (xs ++ ys)
All-append P [] ys h k = k
All-append P (x ∷ xs) ys (h, hs) k = (h, All-append P xs ys hs k)

module _ (env : Env) (n : ℕ) (agent : String) where
  audits-All :
      (P : Audit → Type 0) (stamp : String)
      → (ds : List Diff) → All (λ d. P (update_row env n agent d stamp)) ds
      → All P (audits env n agent ds stamp)
  unfolding audits
  audits-All P stamp [] h = tt
  audits-All P stamp (d ∷ ds) (h, hs) =
      All-append P (audits env n agent ds stamp) _ (audits-All P stamp ds hs) (h, tt)

  of_task :
      (ds : List Diff) (stamp : String) → All (λ d. (update_row env n agent d stamp).task_id ≡ n) ds
  unfolding update_row
  of_task [] stamp = tt
  of_task (d ∷ ds) stamp = (refl, of_task ds stamp)

  no_status :
      (ds : List Diff) (stamp : String)
      → All (λ (d : Diff). IsOther d.field) ds
      → All (λ d. IsOther (update_row env n agent d stamp).field_changed) ds
  unfolding update_row
  no_status ds stamp h = h

silent :
    (n : ℕ) (rows : List Audit)
    → All (λ a. IsOther a.field_changed) rows
    → last_status n rows ≡ none
unfolding last_status
silent n [] h = refl
silent n (a ∷ rows) (h, hs) = elim (Bool-cases (eqb a.task_id n)) [
  | inl y ↦ rw (y, h) (silent n rows hs)
  | inr z ↦ rw z (silent n rows hs)
]

module _ (env : Env) (n : ℕ) (agent : String) where
  updated-Tidy :
      (ds : List Diff) (stamp : String)
      → All (λ (d : Diff). IsOther d.field) ds
      → Tidy n (updated env n agent ds stamp) (audits env n agent ds stamp)
  unfolding updated
  updated-Tidy ds stamp h = record {
    keeps_id = λ t. (set_columns-Same env ds t).0;
    keeps_time = λ t timed i p.
        let (_, s, c) = set_columns-Same env ds t in
        timed (subst (λ s. In s closing_statuses) s i) (sym c ∙ p);
    told = λ t. inr (
      silent n (audits env n agent ds stamp) (
          audits-All env n agent (λ a. IsOther a.field_changed) stamp ds
            (no_status env n agent ds stamp h)),
      (set_columns-Same env ds t).1,
    );
    of_task = audits-All env n agent (λ a. a.task_id ≡ n) stamp ds (of_task env n agent ds stamp);
  }

  pub update_Tidy :
      (updates : List (String × String)) (t : Task) (stamp : String)
      → ends_early updates t ≡ false
      → Tidy n (update_change env n agent updates t stamp) (update_rows env n agent updates t stamp)
  unfolding update_change update_rows ends_early
  update_Tidy updates t stamp good = elim (Bool-cases (is_nil (rejected_fields updates))) [
    | inl y ↦ updated-Tidy (sort_diffs (diffs_of updates t)) stamp (
        sort_diffs-All _ (diffs_of updates t)
          (diffs_of-IsOther t updates (accepted-IsOther updates y)))
    | inr z ↦ let p : Path Bool true false = rw z at good in absurd (cc)
  ]
