-- ===== src/Store/Merge/Behind.antt =====
-- store.go: MergeTasks. The table behind a merge that went through.
use backlog_server.Prelude.{
  ℕ, String, Bool, true, false, ◌≡◌, ◌≢◌, ◌↔◌, refl, sym, ap, ◌∙◌, inl, inr, [], map, In, In-map,
}
use mathlib.Core.Path.{subst}
use backlog_server.Exec.{ok}
use backlog_server.Store.Db.{Task}
use backlog_server.Store.Tables.{KeyedById}
use backlog_server.Store.Session.{Env, World, succeeded}
use backlog_server.Store.Merge.{MergeResult, merge_tasks}
use backlog_server.Store.Merge.Planning.{Plan, plan_of, dependents_of}
use backlog_server.Store.Merge.Redirects.{Target}
use backlog_server.Store.Merge.Rows.{row_behind}
use backlog_server.Store.Merge.Rows.Blockers.{
  row_behind-blockers, row_behind-id, row_behind-absorbed,
}
use backlog_server.Store.Merge.Ends.{Idle, the_plan, merge_tasks_ends}

module _ (env : Env) (a b : ℕ) (agent : String) where
  -- A merge that went through: neither a dry run nor a result with failures.
  abbrev pub Merged : World → MergeResult → Type 0
  Merged w res = ((merge_tasks env a b agent false w).0 ≡ ok res) × (res.failures ≡ [])

  not-Idle :
      (w : World) (res : MergeResult)
      → Merged w res
      → Idle env a b agent false w (merge_tasks env a b agent false w)
      → ⊥
  not-Idle w res (e, fine) (same, inl error) =
      let p : Path Bool true false = ap succeeded (sym e) ∙ error in cc
  not-Idle w res (e, fine) (same, inr (inl (other, f, bad, _))) =
      let p : other ≡ res = cc in bad (ap (λ (r : MergeResult). r.failures) p ∙ fine)
  not-Idle w res (e, fine) (same, inr (inr (_, _, _, _, dry, _, _))) = cc

  -- What became of the rows, each by itself.
  rows-behind :
      (w : World) (res : MergeResult)
      → Merged w res
      → (p : Plan) × (stamp : String) × (a ≢ b)
        × (p.dependents ≡ dependents_of a b w.db.tasks)
        × ((merge_tasks env a b agent false w).1.db.tasks
            ≡ map (row_behind a b agent p stamp) w.db.tasks)
  unfolding plan_of
  rows-behind w res through = elim (merge_tasks_ends env a b agent false w) [
    | inl idle ↦ absurd (not-Idle w res through idle)
    | inr (ta, tb, ra, rb, u, stamp, ab, _, _, _, _, rows) ↦
        (the_plan env a b agent false w.db ta tb ra rb, stamp, ab, refl, rows)
  ]

  -- Behind a merge of B into A that went through, where ids are unique, every other row is there,
  -- and it is blocked by exactly the tasks that blocked it, with A in the place of B; so no row but
  -- those of A and B is blocked by B.
  pub merge_tasks-blockers :
      (w : World) (res : MergeResult) (s : Task)
      → Merged w res
      → KeyedById w.db.tasks
      → In s w.db.tasks
      → s.id ≢ a
      → s.id ≢ b
      → (t : Task) × In t (merge_tasks env a b agent false w).1.db.tasks
        × (t.id ≡ s.id)
        × ((x : ℕ) → In x t.blocked_by ↔ Target a b s.blocked_by x)
  merge_tasks-blockers w res s through keyed i na nb =
      let (p, stamp, ab, from, rows) = rows-behind w res through in
      (
        row_behind a b agent p stamp s,
        subst (In (row_behind a b agent p stamp s)) (sym rows)
            (In-map (row_behind a b agent p stamp) w.db.tasks s i),
        row_behind-id a b agent stamp p s,
        row_behind-blockers a b agent stamp p w.db.tasks s from (λ v j e. keyed v s j i e) i na nb,
      )

  -- Behind a merge of B into A that went through, the row of B is SUPERSEDED and has the closing
  -- time that it had, none where it was open.
  pub merge_tasks-absorbed :
      (w : World) (res : MergeResult) (s : Task)
      → Merged w res
      → In s w.db.tasks
      → s.id ≡ b
      → (t : Task) × In t (merge_tasks env a b agent false w).1.db.tasks
        × (t.id ≡ b)
        × (t.status ≡ "SUPERSEDED")
        × (t.closed_at ≡ s.closed_at)
  merge_tasks-absorbed w res s through i e =
      let (p, stamp, ab, from, rows) = rows-behind w res through in
      let (status, closed) = row_behind-absorbed a b agent stamp p s ab e in
      (
        row_behind a b agent p stamp s,
        subst (In (row_behind a b agent p stamp s)) (sym rows)
            (In-map (row_behind a b agent p stamp) w.db.tasks s i),
        row_behind-id a b agent stamp p s ∙ e,
        status,
        closed,
      )
