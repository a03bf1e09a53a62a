-- ===== src/Store/Merge/Rows/Blockers.antt =====
-- store.go: MergeTasks. The blockers of the rows besides the two that are merged.
use backlog_server.Prelude.{
  ℕ, String, Bool, true, false, ◌≡◌, ◌≢◌, ◌↔◌, refl, sym, ap, ◌∙◌, inl, inr, List, [], ◌∷◌, eqb,
  eqb_iff, Bool-cases, In, any_by, if◌then◌else◌,
}
use mathlib.Core.Path.{subst}
use backlog_server.Store.Db.{Task}
use backlog_server.Store.Merge.{redirecting, absorbing, absorbed}
use backlog_server.Store.Merge.Planning.{Plan, Dependent, depends_on, dependents_of}
use backlog_server.Store.Merge.Redirects.{redirect_target, Target, redirected_iff, In-any_by}
use backlog_server.Store.Merge.Rows.{
  steps, row_behind, blockers, Only, steps-untouched, steps-redirected,
}

redirecting-id :
    (c : Bool) (d : Dependent) (stamp : String) (t : Task)
    → (if c then redirecting d stamp t else t).id ≡ t.id
unfolding redirecting
redirecting-id true d stamp t = refl
redirecting-id false d stamp t = refl

steps-id : (stamp : String) (ds : List Dependent) (t : Task) → (steps stamp ds t).id ≡ t.id
unfolding steps redirecting
steps-id stamp [] t = refl
steps-id stamp (d ∷ ds) t = steps-id stamp ds _ ∙ redirecting-id (eqb t.id d.id) d stamp t

redirecting-closed_at :
    (c : Bool) (d : Dependent) (stamp : String) (t : Task)
    → (if c then redirecting d stamp t else t).closed_at ≡ t.closed_at
unfolding redirecting
redirecting-closed_at true d stamp t = refl
redirecting-closed_at false d stamp t = refl

steps-closed_at :
    (stamp : String) (ds : List Dependent) (t : Task) → (steps stamp ds t).closed_at ≡ t.closed_at
unfolding steps redirecting
steps-closed_at stamp [] t = refl
steps-closed_at stamp (d ∷ ds) t =
    steps-closed_at stamp ds _ ∙ redirecting-closed_at (eqb t.id d.id) d stamp t

if-id : (c : Bool) (t u : Task) → t.id ≡ u.id → (if c then t else u).id ≡ u.id
if-id true t u e = e
if-id false t u e = refl

differs : (m n : ℕ) → m ≢ n → eqb m n ≡ false
differs m n h = elim (Bool-cases (eqb m n)) [ inl y ↦ absurd (h ((eqb_iff m n).0 y)) | inr z ↦ z ]

module _ (a b : ℕ) where
  -- Where no blocker is B each is its own target.
  untargeted : (vs : List ℕ) → any_by (eqb b) vs ≡ false → (x : ℕ) → In x vs ↔ Target a b vs x
  untargeted vs free x =
      (λ i. (x, i, own x i), λ (v, i, e). subst (λ y. In y vs) (sym (own v i) ∙ e) i)
    where
      own : (v : ℕ) → In v vs → redirect_target a b v ≡ v
      own v i = elim (Bool-cases (eqb v b)) [
        | inr n ↦ rw n refl
        | inl y ↦
            let p = In-any_by b vs (subst (λ z. In z vs) ((eqb_iff v b).0 y) i) in
            let q : Path Bool true false = sym p ∙ free in absurd (cc)
      ]

  other_row :
      (agent stamp : String) (p : Plan) (ts : List Task) (s : Task)
      → p.dependents ≡ dependents_of a b ts
      → s.id ≢ a
      → s.id ≢ b
      → (row_behind a b agent p stamp s).blocked_by ≡ blockers a b agent stamp s ts s
  unfolding row_behind blockers
  other_row agent stamp p ts s from na nb =
      let u = steps stamp p.dependents s in
      let n : eqb u.id b ≡ false =
        differs u.id b (λ e. nb (sym (steps-id stamp p.dependents s) ∙ e)) in
      rw (differs s.id a na, n) (ap (λ ds. (steps stamp ds s).blocked_by) from)

  -- A row besides the two is behind a merge blocked by exactly the targets of its blockers.
  pub row_behind-blockers :
      (agent stamp : String) (p : Plan) (ts : List Task) (s : Task)
      → p.dependents ≡ dependents_of a b ts
      → Only a b agent stamp s ts
      → In s ts
      → s.id ≢ a
      → s.id ≢ b
      → (x : ℕ) → In x (row_behind a b agent p stamp s).blocked_by ↔ Target a b s.blocked_by x
  unfolding depends_on
  row_behind-blockers agent stamp p ts s from only i na nb x =
      let row = other_row agent stamp p ts s from na nb in
      elim (Bool-cases (any_by (eqb b) s.blocked_by)) [
        | inl y ↦
            let moves : depends_on a b s ≡ true =
              rw (y, differs s.id a na, differs s.id b nb) refl in
            let e = steps-redirected a b agent stamp s ts s only refl moves i in
            subst (λ vs. In x vs ↔ Target a b s.blocked_by x) (sym (row ∙ e))
              (redirected_iff a b s.blocked_by x)
        | inr z ↦
            let stays : depends_on a b s ≡ false = rw z refl in
            let e = steps-untouched a b agent stamp s ts s only refl stays in
            subst (λ vs. In x vs ↔ Target a b s.blocked_by x) (sym (row ∙ e))
              (untargeted s.blocked_by z x)
      ]

  pub row_behind-id :
      (agent stamp : String) (p : Plan) (s : Task) → (row_behind a b agent p stamp s).id ≡ s.id
  unfolding row_behind absorbing absorbed
  row_behind-id agent stamp p s =
      if-id (eqb (steps stamp p.dependents u).id b) _ _ refl
      ∙ steps-id stamp p.dependents u
      ∙ if-id (eqb s.id a) _ _ refl
    where
      u : Task
      u = if eqb s.id a then absorbing p stamp s else s

  -- The row of B has the new status and note, and the closing time that it had.
  pub row_behind-absorbed :
      (agent stamp : String) (p : Plan) (s : Task)
      → a ≢ b
      → s.id ≡ b
      → ((row_behind a b agent p stamp s).status ≡ "SUPERSEDED")
        × ((row_behind a b agent p stamp s).closed_at ≡ s.closed_at)
  unfolding row_behind absorbed
  row_behind-absorbed agent stamp p s ab e =
      let n : eqb s.id a ≡ false = differs s.id a (λ q. ab (sym q ∙ e)) in
      let y : eqb (steps stamp p.dependents s).id b ≡ true =
        (eqb_iff _ b).1 (steps-id stamp p.dependents s ∙ e) in
      rw (n, y) (refl, steps-closed_at stamp p.dependents s)
