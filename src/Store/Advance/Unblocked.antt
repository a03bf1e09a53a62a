-- ===== src/Store/Advance/Unblocked.antt =====
-- AdvanceTask to DONE: what the close does to the tasks that waited for the closed one.
use backlog_server.Prelude.{
  ℕ, String, Bool, true, not, ◌≡◌, refl, sym, ap, ◌∙◌, inl, inr, List, [], ◌∷◌, ◌==◌, eqb, eqb_refl,
  arith, Bool-cases, In, In-filter_by, map, filter_by, eq_iff,
}
use mathlib.Core.Path.{subst}
use backlog_server.Scoring.Types as Types
use backlog_server.Store.Db.{Task, Db, update_where}
use backlog_server.Store.Tables.{KeyedById, update_where-KeyedById}
use backlog_server.Store.Session.{Env, World}
use backlog_server.Store.Results.{AdvanceResult}
use backlog_server.Store.Rescore.{Scorer, is_open, persist, rescored, load_tasks_for_scoring}
use backlog_server.Store.Rescore.Rows.{In-map-elim}
use backlog_server.Store.Rescore.Unblocks.{persisted, blocked_by-persisted, rest_of_blockers}
use backlog_server.Store.Advance.{target, advanced}
use backlog_server.Store.Advance.Closing.{Moved, run, Moved-Advances}
use backlog_server.Store.Take.{moved}

id-advanced : (to stamp : String) (t : Task) → (advanced to stamp t).id ≡ t.id
unfolding advanced
id-advanced to stamp t = ground arith

is_open-persist :
    (closed : ℕ) (stamp : String) (vs : List Types.Task) (t : Task)
    → is_open closed (persist stamp vs t) ≡ is_open closed t
unfolding persist is_open
is_open-persist closed stamp [] t = refl
is_open-persist closed stamp (v ∷ vs) t = elim (Bool-cases (eqb v.id t.id)) [
  | inl y ↦ rw y refl
  | inr n ↦ rw n (is_open-persist closed stamp vs t)
]

not_blocked :
    (closed : ℕ) (t : Task) → is_open closed t ≡ true → In closed (rest_of_blockers closed t) → ⊥
not_blocked closed t o i =
    let j : In closed (filter_by (λ b. not (eqb b closed)) t.blocked_by) = rw o at i in
    let (_, e) = In-filter_by (λ b. not (eqb b closed)) t.blocked_by closed j in
    let same = eqb_refl closed in cc

module _ (env : Env) (scorer : Scorer) (n : ℕ) (agent : String) (approve : Bool) (w : World) where
  -- When ids are unique, behind an advance that went through to DONE no open task other than the
  -- closed one is blocked by the closed task.
  pub advance_task-unblocks :
      (r : AdvanceResult)
      → Moved env scorer n agent approve w r
      → r.to_status ≡ "DONE"
      → KeyedById w.db.tasks
      → (u : Task) → In u (run env scorer n agent approve w).1.db.tasks
      → is_open n u ≡ true
      → ¬ (In n u.blocked_by)
  advance_task-unblocks r m done keyed u here o blocked =
      let (t, stamp, got, named, passed, stored, (x, result)) =
        Moved-Advances env scorer n agent approve w r m in
      let q : moved (target t) t x ≡ r = cc in
      let to : target t ≡ "DONE" = ap (λ (x : AdvanceResult). x.to_status) q ∙ done in
      let ts = update_where n (advanced (target t) stamp) w.db.tasks in
      let closes : (target t == "DONE") ≡ true = (eq_iff (target t) "DONE").1 to in
      let here' : In u (map (persisted scorer n ts stamp) ts) =
        rw closes at (rw (ap (λ (d : Db). d.tasks) stored) at here) in
      let (s, i, p) = In-map-elim (persisted scorer n ts stamp) ts u here' in
      let keyed' =
        update_where-KeyedById n (advanced (target t) stamp) (id-advanced (target t) stamp)
          w.db.tasks keyed in
      let blockers = blocked_by-persisted scorer n ts keyed' s i stamp in
      let was_open : is_open n s ≡ true =
        sym (is_open-persist n stamp (rescored scorer n (load_tasks_for_scoring n ts)) s)
        ∙ ap (is_open n) p
        ∙ o in
      not_blocked n s was_open
        (subst (In n) (sym (ap (λ (x : Task). x.blocked_by) p) ∙ blockers) blocked)
