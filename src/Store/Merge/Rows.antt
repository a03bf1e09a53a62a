-- ===== src/Store/Merge/Rows.antt =====
-- store.go: MergeTasks. The statements of its transaction, row by row.
pub mod Blockers
use backlog_server.Prelude.{
  ℕ, String, Bool, true, false, not, ◌&&◌, ◌≡◌, ◌≢◌, ◌↔◌, refl, sym, ap, ◌∙◌, ◌⊎◌, inl, inr, List,
  [], ◌∷◌, map, concat, ◌++◌, eqb, eqb_iff, eqb_refl, Bool-cases, In, any_by, filter_by,
  if◌then◌else◌, arith,
}
use Prim.Native.String as Text
use backlog_server.Prelude.Decimal.{decimal}
use mathlib.Core.Path.{subst, ap₂}
use backlog_server.Store.Db.{Task, Db, update_where}
use backlog_server.Store.Merge.{
  Statement, absorbing, redirecting, absorbed, audit_change, redirect_statements, absorb_statements,
  statements,
}
use backlog_server.Store.Merge.Planning.{
  Plan, Change, Dependent, depends_on, dependent, dependents_of, redirected,
}
use backlog_server.Store.Merge.Redirects.{Target, redirected_iff, any_by-In, In-any_by}

-- The tables behind the statements.
unfoldable pub run_all : List Statement → Db → Db
run_all [] d = d
run_all (s ∷ ss) d = run_all ss (s.effect d)

run_all-concat :
    (ss ts : List Statement) (d : Db) → run_all (ss ++ ts) d ≡ run_all ts (run_all ss d)
unfolding run_all
run_all-concat [] ts d = refl
run_all-concat (s ∷ ss) ts d = run_all-concat ss ts (s.effect d)

-- One row behind the redirections.
steps : String → List Dependent → Task → Task
steps stamp [] t = t
steps stamp (d ∷ ds) t =
    steps stamp ds (
      if eqb t.id d.id then (record t { blocked_by = d.blocked_by_new; updated_at = stamp }) else t)

module _ (a b : ℕ) (agent : String) where
  -- One row behind the transaction, written out.
  unfoldable pub row_behind : Plan → String → Task → Task
  unfolding steps
  row_behind p stamp t =
      let u =
        if eqb t.id a
        then (record t {
          blocked_by = p.blocked_by;
          consumers = p.consumers;
          done_when = p.done_when;
          references = p.references;
          tags = p.tags;
          note = p.note;
          updated_at = stamp;
        })
        else t in
      let v = steps stamp p.dependents u in
      if eqb v.id b
      then (record v {
        status = "SUPERSEDED";
        note = Text.◌++◌ "Merged into #" (decimal a);
        updated_at = stamp;
      })
      else v

  audits-tasks :
      (stamp : String) (cs : List Change) (d : Db)
      → (run_all (map (audit_change a b agent stamp) cs) d).tasks ≡ d.tasks
  unfolding run_all audit_change
  audits-tasks stamp [] d = refl
  audits-tasks stamp (c ∷ cs) d = audits-tasks stamp cs _

  update_where-map :
      (n : ℕ) (f g : Task → Task) (ts : List Task)
      → map g (update_where n f ts) ≡ map (λ t. g (if eqb t.id n then f t else t)) ts
  unfolding update_where
  update_where-map n f g [] = refl
  update_where-map n f g (t ∷ ts) = ap₂ ◌∷◌ refl (update_where-map n f g ts)

  map-same : (ts : List Task) → map (λ t. t) ts ≡ ts
  map-same [] = refl
  map-same (t ∷ ts) = ap (λ us. t ∷ us) (map-same ts)

  redirects-tasks :
      (stamp : String) (ds : List Dependent) (d : Db)
      → (run_all (redirect_statements a b agent stamp ds) d).tasks ≡ map (steps stamp ds) d.tasks
  unfolding run_all redirect_statements steps redirecting
  redirects-tasks stamp [] d = sym (map-same d.tasks)
  redirects-tasks stamp (e ∷ ds) d =
      redirects-tasks stamp ds _
      ∙ update_where-map e.id (redirecting e stamp) (steps stamp ds) d.tasks

  where-map :
      (n : ℕ) (f g : Task → Task) (ts : List Task)
      → update_where n f (map g ts) ≡ map (λ t. if eqb (g t).id n then f (g t) else g t) ts
  unfolding update_where
  where-map n f g [] = refl
  where-map n f g (t ∷ ts) = ap₂ ◌∷◌ refl (where-map n f g ts)

  -- The statements change each row by itself.
  pub statements-tasks :
      (p : Plan) (from stamp : String) (d : Db)
      → (run_all (statements a b agent p from stamp) d).tasks ≡ map (row_behind p stamp) d.tasks
  unfolding run_all statements absorb_statements row_behind absorbing absorbed
  statements-tasks p from stamp d =
      let first : Db = record d { tasks = update_where a (absorbing p stamp) d.tasks } in
      let audits = map (audit_change a b agent stamp) p.changes in
      let redirects = redirect_statements a b agent stamp p.dependents in
      let last = concat (absorb_statements a b agent from stamp ∷ []) in
      let g = steps stamp p.dependents in
      let here =
        redirects-tasks stamp p.dependents (run_all audits first)
        ∙ ap (map g) (audits-tasks stamp p.changes first) in
      ap (λ x. x.tasks)
        (run_all-concat audits (redirects ++ last) first
          ∙ run_all-concat redirects last (run_all audits first))
      ∙ ap (update_where b (absorbed a stamp)) here
      ∙ where-map b (absorbed a stamp) g first.tasks
      ∙ update_where-map a (absorbing p stamp) _ d.tasks

  step_taken :
      (stamp : String) (v : Task) (ts : List Task) (u : Task)
      → depends_on a b v ≡ true
      → eqb u.id v.id ≡ true
      → steps stamp (dependents_of a b (v ∷ ts)) u
        ≡ steps stamp (dependents_of a b ts) (redirecting (dependent a b v) stamp u)
  unfolding steps dependents_of dependent redirecting
  step_taken stamp v ts u y e =
      ap (λ vs. steps stamp (map (dependent a b) vs) u)
        (ap (λ x. if x then v ∷ filter_by (depends_on a b) ts else filter_by (depends_on a b) ts) y)
      ∙ ap
          (λ x.
            steps stamp (dependents_of a b ts)
              (if x then redirecting (dependent a b v) stamp u else u))
          e

  step_missed :
      (stamp : String) (v : Task) (ts : List Task) (u : Task)
      → (depends_on a b v ≡ false) ⊎ (eqb u.id v.id ≡ false)
      → steps stamp (dependents_of a b (v ∷ ts)) u ≡ steps stamp (dependents_of a b ts) u
  unfolding steps dependents_of dependent redirecting
  step_missed stamp v ts u (inl z) =
      ap (λ vs. steps stamp (map (dependent a b) vs) u)
        (ap (λ x. if x then v ∷ filter_by (depends_on a b) ts else filter_by (depends_on a b) ts) z)
  step_missed stamp v ts u (inr n) = elim (Bool-cases (depends_on a b v)) [
    | inl y ↦
        ap (λ vs. steps stamp (map (dependent a b) vs) u)
          (ap (λ x. if x then v ∷ filter_by (depends_on a b) ts else filter_by (depends_on a b) ts)
            y)
        ∙ ap
            (λ x.
              steps stamp (dependents_of a b ts)
                (if x then redirecting (dependent a b v) stamp u else u))
            n
    | inr z ↦
        ap (λ vs. steps stamp (map (dependent a b) vs) u)
          (ap (λ x. if x then v ∷ filter_by (depends_on a b) ts else filter_by (depends_on a b) ts)
            z)
  ]

  -- The redirections of a row whose id only one row has.
  module _ (stamp : String) (s : Task) where
    abbrev pub Only : List Task → Type 0
    Only ts = (v : Task) → In v ts → v.id ≡ s.id → v ≡ s

    abbrev pub Redirected : Task → Type 0
    Redirected u = u.blocked_by ≡ redirected a b [] s.blocked_by

    blockers : List Task → Task → List ℕ
    blockers ts u = (steps stamp (dependents_of a b ts) u).blocked_by

    -- Either the first row does nothing to `u`, or it is the row of that id.
    head-cases :
        (v : Task) (ts : List Task) (u : Task)
        → Only (v ∷ ts)
        → u.id ≡ s.id
        → (blockers (v ∷ ts) u ≡ blockers ts u)
          ⊎ ((v ≡ s)
              × (depends_on a b s ≡ true)
              × (blockers (v ∷ ts) u ≡ blockers ts (redirecting (dependent a b v) stamp u)))
    unfolding blockers
    head-cases v ts u only same = elim (Bool-cases (depends_on a b v)) [
      | inr z ↦ inl (ap (λ (t : Task). t.blocked_by) (step_missed stamp v ts u (inl z)))
      | inl y ↦ elim (Bool-cases (eqb u.id v.id)) [
        | inr n ↦ inl (ap (λ (t : Task). t.blocked_by) (step_missed stamp v ts u (inr n)))
        | inl e ↦
            let p : v ≡ s = only v (inl refl) (sym ((eqb_iff u.id v.id).0 e) ∙ same) in
            inr (
              p,
              ap (depends_on a b) (sym p) ∙ y,
              ap (λ (t : Task). t.blocked_by) (step_taken stamp v ts u y e),
            )
      ]
    ]

    steps-untouched :
        (ts : List Task) (u : Task)
        → Only ts
        → u.id ≡ s.id
        → depends_on a b s ≡ false
        → blockers ts u ≡ u.blocked_by
    unfolding steps dependents_of blockers
    steps-untouched [] u only same stays = refl
    steps-untouched (v ∷ ts) u only same stays = elim (head-cases v ts u only same) [
      | inl e ↦ e ∙ steps-untouched ts u (λ x i. only x (inr i)) same stays
      | inr (_, moves, _) ↦ let q : Path Bool true false = sym moves ∙ stays in absurd (cc)
    ]

    steps-kept :
        (ts : List Task) (u : Task)
        → Only ts
        → u.id ≡ s.id
        → Redirected u
        → blockers ts u ≡ redirected a b [] s.blocked_by
    unfolding steps dependents_of dependent redirecting blockers
    steps-kept [] u only same done = done
    steps-kept (v ∷ ts) u only same done = elim (head-cases v ts u only same) [
      | inl e ↦ e ∙ steps-kept ts u (λ x i. only x (inr i)) same done
      | inr (p, _, e) ↦
          e
          ∙ steps-kept ts (redirecting (dependent a b v) stamp u) (λ x i. only x (inr i)) same
              (ap (λ (w : Task). redirected a b [] w.blocked_by) p)
    ]

    steps-redirected :
        (ts : List Task) (u : Task)
        → Only ts
        → u.id ≡ s.id
        → depends_on a b s ≡ true
        → In s ts
        → blockers ts u ≡ redirected a b [] s.blocked_by
    unfolding steps dependents_of dependent redirecting blockers
    steps-redirected [] u only same moves i = elim i [ ]
    steps-redirected (v ∷ ts) u only same moves (inl e) =
        let m : eqb u.id v.id ≡ true =
          (eqb_iff u.id v.id).1 (same ∙ sym (ap (λ (w : Task). w.id) e)) in
        ap (λ (t : Task). t.blocked_by) (step_taken stamp v ts u (ap (depends_on a b) e ∙ moves) m)
        ∙ steps-kept ts (redirecting (dependent a b v) stamp u) (λ x i. only x (inr i)) same
            (ap (λ (w : Task). redirected a b [] w.blocked_by) e)
    steps-redirected (v ∷ ts) u only same moves (inr i) = elim (head-cases v ts u only same) [
      | inl e ↦ e ∙ steps-redirected ts u (λ x j. only x (inr j)) same moves i
      | inr (_, _, e) ↦
          e
          ∙ steps-redirected ts (redirecting (dependent a b v) stamp u) (λ x j. only x (inr j)) same
              moves i
    ]
