-- ===== src/Store/Rescore/Unblocks.antt =====
-- What rescoreAfterDone leaves in the table.
use backlog_server.Prelude.{
  ℕ, String, true, not, ◌≡◌, ◌≢◌, refl, sym, ap, ◌∙◌, inl, inr, none, some, List, [], map, eqb,
  if◌then◌else◌, filter_by, In, In-filter_by, In-map, Bool-cases,
}
use backlog_server.Prelude.Assoc.{find}
use backlog_server.Scoring.Types as Types
use backlog_server.Scoring.Recalculate.Blockers.{blockers_of, others_of, blockers_of-after, after}
use backlog_server.Store.Db.{Task}
use backlog_server.Store.Tables.{KeyedById}
use backlog_server.Store.Rescore.{
  Scorer, is_open, scoring_task, load_tasks_for_scoring, priors, persist, moved, changed_tasks,
  rescored,
}
use backlog_server.Store.Rescore.Rows.{
  In-filter_by-intro, In-map-elim, loaded_from, loaded_all, find-priors, persist-Written,
  moved-none,
}

-- What becomes of a row's blockers: an open row loses the closed task and nothing else.
abbrev pub rest_of_blockers : ℕ → Task → List ℕ
rest_of_blockers closed t =
    if is_open closed t then filter_by (λ b. not (eqb b closed)) t.blocked_by else t.blocked_by

module _ (scorer : Scorer) (closed : ℕ) (ts : List Task) where
  abbrev loaded : List Types.Task
  loaded = load_tasks_for_scoring closed ts

  abbrev rescaled : List Types.Task
  rescaled =
      after scorer.ops scorer.today scorer.parse_date "" (λ _. none) scorer.order closed loaded

  same_pairs : map blockers_of rescaled ≡ map (others_of closed) loaded
  same_pairs =
      blockers_of-after scorer.ops scorer.today scorer.parse_date "" (λ _. none) scorer.order closed
        loaded

  source_of :
      (v : Types.Task)
      → In v rescaled
      → (s : Types.Task) × In s loaded × (others_of closed s ≡ blockers_of v)
  source_of v i =
      In-map-elim (others_of closed) loaded (blockers_of v)
        (rw same_pairs at (In-map blockers_of rescaled v i))

  image_of :
      (s : Types.Task)
      → In s loaded
      → (v : Types.Task) × In v rescaled × (blockers_of v ≡ others_of closed s)
  image_of s i =
      In-map-elim blockers_of rescaled (others_of closed s)
        (rw (sym same_pairs) at (In-map (others_of closed) loaded s i))

  In-rescored :
      (v : Types.Task)
      → In v (rescored scorer closed loaded)
      → In v rescaled × (moved scorer.ops (find v.id (priors loaded [])) v ≡ true)
  unfolding rescored changed_tasks
  In-rescored v i =
      In-filter_by (λ (t : Types.Task). moved scorer.ops (find t.id (priors loaded [])) t) rescaled
        v i

  rescored-In :
      (v : Types.Task)
      → In v rescaled
      → moved scorer.ops (find v.id (priors loaded [])) v ≡ true
      → In v (rescored scorer closed loaded)
  unfolding rescored changed_tasks
  rescored-In v i m =
      In-filter_by-intro (λ (t : Types.Task). moved scorer.ops (find t.id (priors loaded [])) t)
        rescaled v i m

  abbrev pub persisted : String → Task → Task
  persisted stamp = persist stamp (rescored scorer closed loaded)

  module _ (keyed : KeyedById ts) (t : Task) (here : In t ts) where
    -- What is written for `t` comes from `t`.
    written_blockers :
        (v : Types.Task)
        → In v (rescored scorer closed loaded)
        → v.id ≡ t.id
        → v.blocked_by ≡ rest_of_blockers closed t
    written_blockers v i e =
        let (s, j, p) = source_of v (In-rescored v i).0 in
        let (u, k, o, q) = loaded_from closed ts s j in
        let same : u ≡ t =
          keyed u t k here (ap (λ (x : Types.Task). x.id) q ∙ ap (λ x. x.0) p ∙ e) in
        rw (sym same) (rw o (sym (ap (λ x. x.1) (ap (others_of closed) q ∙ p))))

    prior_of :
        is_open closed t ≡ true
        → find t.id (priors loaded []) ≡ some (t.effective_score, t.blocked_by)
    prior_of o =
        find-priors t.id (t.effective_score, t.blocked_by) loaded []
          (λ s i e.
            let (u, k, _, q) = loaded_from closed ts s i in
            let same : u ≡ t = keyed u t k here (ap (λ (x : Types.Task). x.id) q ∙ e) in
            sym (ap (λ (x : Types.Task). (x.effective_score, x.blocked_by)) q)
            ∙ ap (λ (x : Task). (x.effective_score, x.blocked_by)) same)
          (inl (scoring_task t, loaded_all closed ts t here o, refl))

    -- An open row that is not written had its blockers already.
    kept_blockers :
        ((v : Types.Task) → In v (rescored scorer closed loaded) → v.id ≢ t.id)
        → t.blocked_by ≡ rest_of_blockers closed t
    kept_blockers none_written = elim (Bool-cases (is_open closed t)) [
      | inr n ↦ rw n refl
      | inl o ↦
          let (v, i, p) = image_of (scoring_task t) (loaded_all closed ts t here o) in
          let same_id : v.id ≡ t.id = ap (λ x. x.0) p in
          elim (Bool-cases (moved scorer.ops (find v.id (priors loaded [])) v)) [
            | inl m ↦ absurd (none_written v (rescored-In v i m) same_id)
            | inr m ↦ rw o (
                sym (
                  moved-none scorer (t.effective_score, t.blocked_by) (find v.id (priors loaded []))
                    v (rw same_id (prior_of o)) m)
                ∙ ap (λ x. x.1) p)
          ]
    ]

    -- When ids are unique, a rescore takes the closed task out of the blockers of each open row,
    -- keeps the other blockers in their order, and leaves the blockers of a row that is not open.
    pub blocked_by-persisted :
        (stamp : String) → (persisted stamp t).blocked_by ≡ rest_of_blockers closed t
    blocked_by-persisted stamp = elim (persist-Written stamp (rescored scorer closed loaded) t) [
      | inl (v, i, e, p) ↦ p ∙ written_blockers v i e
      | inr (f, p) ↦ ap (λ (x : Task). x.blocked_by) p ∙ kept_blockers f
    ]
