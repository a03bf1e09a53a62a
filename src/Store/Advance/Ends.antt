-- ===== src/Store/Advance/Ends.antt =====
-- The ways in which AdvanceTask ends.
use backlog_server.Prelude.{
  ℕ, ◌+◌, String, Bool, false, ◌≡◌, ◌≢◌, refl, sym, ap, ◌∙◌, ◌⊎◌, inl, inr, [], ◌∷◌, ◌==◌,
  if◌then◌else◌, eq_iff, eq_of_==_true, Bool-cases,
}
use mathlib.Core.Path.{subst}
use backlog_server.Exec.{Exec, Outcome, ok, no_rows, failed, pure, continue, ◌>>=◌}
use backlog_server.Store.Db.{Task, Db, update_task, insert_audit, applied}
use backlog_server.Store.Session.{Env, World, Conn, exec, get_task, change}
use backlog_server.Store.Session.Endings.{db-get_task, change-cases}
use backlog_server.Store.Session.Methods.{IsError, settle, settle-cases}
use backlog_server.Store.Session.Reads.{ReadsAt}
use backlog_server.Store.Rescore.{Scorer, rescore_after_done}
use backlog_server.Store.Rescore.Effect.{rescore, rescore_after_done_effect}
use backlog_server.Store.Results.{AdvanceResult, normal_status}
use backlog_server.Store.Take.{moved}
use backlog_server.Store.Advance.Gates.{Failures, gates}
use backlog_server.Store.Advance.Gates.Passing.{failures_of, Reads-gates}
use backlog_server.Store.Advance.{
  target, workflow_refusal, gate_refusal, advanced, advance_row, advance_body, advance_passed,
  advance_task,
}

-- A statement that succeeded has had its effect, and the rest of the body ran behind it.
pub exec-then :
    {A : Type 0} (env : Env) (stage : String) (f : Db → Db) (m : Exec Conn A) (d : Db) (k : ℕ)
    (a : A) (c : Conn)
    → (exec env stage f >>= (λ _. m)) (record { view = d; called = k }) ≡ (ok a, c)
    → m (record { view = f d; called = k + 1 }) ≡ (ok a, c)
unfolding exec
exec-then {A = A} env stage f m d k a c h = elim (Bool-cases (env.fails k)) [
  | inl y ↦ let e : Path (Outcome A × Conn) _ _ = rw y at h in absurd (cc)
  | inr n ↦ rw n at h
]

module _ (env : Env) (scorer : Scorer) (n : ℕ) (agent : String) (approve : Bool) where
  -- The tables behind an advance of the row that was read as `t`.
  abbrev pub advanced_db : Task → String → Db → Db
  advanced_db t stamp d =
      let moved_db = applied n (advanced (target t) stamp) (advance_row n agent t stamp ∷ []) d in
      if target t == "DONE" then rescore scorer stamp n moved_db else moved_db

  tail_effect :
      (t : Task) (stamp : String) (d : Db) (k : ℕ) (c : Conn)
      → (if target t == "DONE" then rescore_after_done scorer env stamp n else pure tt)
          (record { view = d; called = k })
        ≡ (ok tt, c)
      → c.view ≡ (if target t == "DONE" then rescore scorer stamp n d else d)
  tail_effect t stamp d k c h = elim (Bool-cases (target t == "DONE")) [
    | inl y ↦ rw y (rescore_after_done_effect scorer env stamp n d k c (rw y at h))
    | inr z ↦ rw z (sym (ap (λ q. q.1.view) (rw z at h)))
  ]

  advance_body_effect :
      (t : Task) (stamp : String) (d : Db) (k : ℕ) (c : Conn)
      → advance_body env scorer n agent approve t stamp (record { view = d; called = k })
        ≡ (ok tt, c)
      → c.view ≡ advanced_db t stamp d
  unfolding advance_body
  advance_body_effect t stamp d k c h =
      tail_effect t stamp
        (insert_audit (advance_row n agent t stamp) (update_task n (advanced (target t) stamp) d))
        (k + 1 + 1) c
        (exec-then env "insert audit" (insert_audit (advance_row n agent t stamp)) _ _ _ tt c
          (exec-then env "update tasks" (update_task n (advanced (target t) stamp)) _ d k tt c h))

  -- Nothing was committed: an error, no way on from the status, or a gate that failed.
  abbrev pub Stays : World → Outcome AdvanceResult × World → Type 0
  Stays w r =
      (r.1.db ≡ w.db)
      × (IsError r.0
          ⊎ ((t : Task) × ((get_task env n w).0 ≡ ok t)
              × (((target t ≡ "") × (r.0 ≡ ok (workflow_refusal t)))
                  ⊎ ((failures_of n approve t (normal_status t.status) (target t) w.db ≢ [])
                      × (r.0
                          ≡ ok (
                              gate_refusal t (
                                failures_of n approve t (normal_status t.status) (target t)
                                  w.db)))))))

  -- The advance was committed, with no failure of a gate.
  abbrev pub Advances : World → Outcome AdvanceResult × World → Type 0
  Advances w r =
      (t : Task) × (stamp : String) × ((get_task env n w).0 ≡ ok t)
      × (target t ≢ "")
      × (failures_of n approve t (normal_status t.status) (target t) w.db ≡ [])
      × (r.1.db ≡ advanced_db t stamp w.db)
      × ((u : Task) × (r.0 ≡ ok (moved (target t) t u)))

  abbrev pub AdvanceEnds : World → Outcome AdvanceResult × World → Type 0
  AdvanceEnds w r = Stays w r ⊎ Advances w r

  abbrev Ready : World → Task → Type 0
  Ready w t =
      (target t ≢ "") × (failures_of n approve t (normal_status t.status) (target t) w.db ≡ [])

  committed_ends :
      (w v : World) (t : Task)
      → (get_task env n w).0 ≡ ok t
      → v.db ≡ w.db
      → Ready w t
      → AdvanceEnds w (advance_passed env scorer n agent approve t [] v)
  unfolding advance_passed settle
  committed_ends w v t got same ready =
      elim (settle-cases env n (λ _. false) workflow_refusal (λ x u. moved (target x) x u)
        (advance_body env scorer n agent approve) (λ x. record x { status = target x }) w v t got
        same refl
        (change env (advance_body env scorer n agent approve t) n (record t { status = target t })
          v)
        (change-cases env (advance_body env scorer n agent approve t) n
          (record t { status = target t }) v)) [
            | inl (stays, inl bad) ↦ inl (stays, inl bad)
            | inl (stays, inr (x, _, e, _)) ↦ absurd (cc)
            | inr (x, c, stamp, k, got', _, ran, stored, result) ↦
                let e : t ≡ x = cc in
                let (named, passed) = subst (Ready w) e ready in
                inr (
                  x,
                  stamp,
                  got',
                  named,
                  passed,
                  stored ∙ advance_body_effect x stamp w.db k c ran,
                  result,
                )
          ]

  gated_ends :
      (w v : World) (t : Task)
      → (get_task env n w).0 ≡ ok t
      → v.db ≡ w.db
      → target t ≢ ""
      → (r : Outcome Failures × World)
      → ReadsAt (failures_of n approve t (normal_status t.status) (target t)) v r
      → AdvanceEnds w (continue r (advance_passed env scorer n agent approve t))
  gated_ends w v t got same named (no_rows, x) (kept, _, _) = inl (kept ∙ same, inl refl)
  gated_ends w v t got same named (failed e, x) (kept, _, _) = inl (kept ∙ same, inl refl)
  gated_ends w v t got same named (ok fs, x) (kept, _, inl bad) = absurd (cc)
  gated_ends w v t got same named (ok [], x) (kept, _, inr e) =
      let none_failed : failures_of n approve t (normal_status t.status) (target t) v.db ≡ [] =
        cc in
      committed_ends w x t got (kept ∙ same) (
        named,
        ap (λ d. failures_of n approve t (normal_status t.status) (target t) d) (sym same)
            ∙ none_failed,
      )
  gated_ends w v t got same named (ok (f ∷ fs), x) (kept, _, inr e) =
      let these : failures_of n approve t (normal_status t.status) (target t) v.db ≡ f ∷ fs = cc in
      let here =
        ap (λ d. failures_of n approve t (normal_status t.status) (target t) d) (sym same)
        ∙ these in
      unfold advance_passed in
      inl (
        kept ∙ same,
        inr (t, got, inr ((λ none_failed. cc), ap (λ gs. ok (gate_refusal t gs)) (sym here))),
      )

  pub advance_task_ends : (w : World) → AdvanceEnds w (advance_task env scorer n agent approve w)
  unfolding advance_task
  advance_task_ends w = go (get_task env n w) refl (db-get_task env n w)
    where
      go :
          (r : Outcome Task × World)
          → (get_task env n w).0 ≡ r.0
          → r.1.db ≡ w.db
          → AdvanceEnds w (
              continue r (λ t. if target t == "" then pure (workflow_refusal t) else do
                fs ← gates env n approve t (normal_status t.status) (target t)
                advance_passed env scorer n agent approve t fs))
      go (no_rows, v) got same = inl (same, inl refl)
      go (failed x, v) got same = inl (same, inl refl)
      go (ok t, v) got same = elim (Bool-cases (target t == "")) [
        | inl y ↦ rw y (inl (same, inr (t, got, inl (eq_of_==_true _ _ y, refl))))
        | inr z ↦ rw z (
            gated_ends w v t got same (λ e. differ (target t) z e)
              (gates env n approve t (normal_status t.status) (target t) v)
              (Reads-gates n approve t (normal_status t.status) (target t) env v))
      ]
        where
          differ : (s : String) → (s == "") ≡ false → s ≡ "" → ⊥
          differ s z e = let yes = (eq_iff s "").1 e in cc
