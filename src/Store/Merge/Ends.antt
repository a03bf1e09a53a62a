-- ===== src/Store/Merge/Ends.antt =====
-- store.go: MergeTasks. What it commits, on every branch.
use backlog_server.Prelude.{
  ℕ, ◌+◌, String, Bool, true, false, ◌≡◌, ◌≢◌, refl, sym, ap, ◌∙◌, ◌⊎◌, inl, inr, Option, none,
  some, List, [], ◌∷◌, map, eqb, eqb_iff, Bool-cases, mem_text, arith,
}
use mathlib.Core.Path.{subst}
use backlog_server.Exec.{Exec, Outcome, ok, no_rows, failed, continue}
use backlog_server.Store.Db.{Task, Db, find_task}
use backlog_server.Store.Session.{Env, World, Conn, exec, get_task, change, row_or_none}
use backlog_server.Store.Session.Endings.{db-get_task, change-cases}
use backlog_server.Store.Session.Methods.{IsError, settle, settle-cases}
use backlog_server.Store.Results.{normal_status}
use backlog_server.Store.Merge.{
  MergeResult, Statement, merge_terminal_statuses, exec_all, select, statements, refusal, merged,
  in_memory, load, carry_out, merge_open, merge_checked, merge_tasks,
}
use backlog_server.Store.Merge.Planning.{Plan, Dependent, plan_of, dependents_of}
use backlog_server.Store.Merge.Unions.{Planned, plan_of-Planned}
use backlog_server.Store.Merge.Rows.{run_all, row_behind, statements-tasks}

exec_all-ok :
    (env : Env) (ss : List Statement) (d : Db) (k : ℕ) (c : Conn)
    → exec_all env ss (record { view = d; called = k }) ≡ (ok tt, c)
    → c.view ≡ run_all ss d
unfolding exec_all run_all exec
exec_all-ok env [] d k c h = ground arith
exec_all-ok env (s ∷ ss) d k c h = elim (Bool-cases (env.fails k)) [
  | inl y ↦ let p : Path (Outcome (Unit {0}) × Conn) _ (ok tt, c) = rw y at h in absurd (cc)
  | inr z ↦ exec_all-ok env ss (s.effect d) (k + 1) c (rw z at h)
]

-- A call that leaves the tables alone, and what comes behind it.
reading :
    {A R : Type 0} (P : Outcome R × World → Type 0) (w : World) (m : Exec World A)
    (f : A → Exec World R)
    → (m w).1.db ≡ w.db
    → ((o : Outcome R) (v : World) → IsError o → v.db ≡ w.db → P (o, v))
    → ((a : A) (v : World) → m w ≡ (ok a, v) → v.db ≡ w.db → P (f a v))
    → P (continue (m w) f)
reading {A = A} {R = R} P w m f same stop next = go (m w) refl same
  where
    go : (r : Outcome A × World) → m w ≡ r → r.1.db ≡ w.db → P (continue r f)
    go (ok a, v) e p = next a v e p
    go (no_rows, v) e p = stop no_rows v refl p
    go (failed x, v) e p = stop (failed x) v refl p

module _ (env : Env) where
  db-select :
      {A : Type 0} (stage : String) (f : Db → Outcome A) (w : World)
      → (select env stage f w).1.db ≡ w.db
  unfolding select
  db-select stage f w = elim (Bool-cases (env.fails w.calls)) [
    | inl y ↦ rw y refl
    | inr z ↦ rw z refl
  ]

  select-ok :
      {A : Type 0} (stage : String) (f : Db → Outcome A) (w : World) (a : A)
      → (select env stage f w).0 ≡ ok a
      → f w.db ≡ ok a
  unfolding select
  select-ok {A = A} stage f w a e = elim (Bool-cases (env.fails w.calls)) [
    | inl y ↦ let p : Path (Outcome A) (failed stage) (ok a) = rw y at e in absurd (cc)
    | inr z ↦ rw z at e
  ]

  module _ (a b : ℕ) (agent : String) (dry : Bool) where
    abbrev pub IsOpen : Task → Type 0
    IsOpen t = mem_text (normal_status t.status) merge_terminal_statuses ≡ false

    -- The merge of the tables `d`, as read by the rows `ta`, `tb` (perhaps cached), `ra` and `rb`.
    abbrev pub the_plan : Db → Task → Task → Task → Task → Plan
    the_plan d ta tb ra rb = plan_of a b ta tb ra rb (dependents_of a b d.tasks)

    -- The two rows that GetTask returns, one call behind the other.
    abbrev pub Reads : World → Task → Task → Type 0
    Reads w ta tb =
        ((get_task env a w).0 ≡ ok ta) × ((get_task env b (get_task env a w).1).0 ≡ ok tb)

    -- What a merge, or a dry run, has found: both tasks are open, the table has rows of both, and the
    -- plan holds what both hold.
    abbrev pub Fits : World → Task → Task → Task → Task → Type 0
    Fits w ta tb ra rb =
        Reads w ta tb
        × IsOpen ta
        × IsOpen tb
        × (find_task a w.db.tasks ≡ some ra)
        × (find_task b w.db.tasks ≡ some rb)
        × Planned a b ta tb ra rb (the_plan w.db ta tb ra rb)

    abbrev pub Idle : World → Outcome MergeResult × World → Type 0
    Idle w r =
        (r.1.db ≡ w.db)
        × (IsError r.0
            ⊎ ((res : MergeResult) × (r.0 ≡ ok res)
                × (res.failures ≢ [])
                × ((a ≡ b) ⊎ ((ta tb : Task) × Reads w ta tb × ((IsOpen ta × IsOpen tb) → ⊥))))
            ⊎ ((ta tb ra rb : Task) × (dry ≡ true)
                × Fits w ta tb ra rb
                × (r.0
                    ≡ ok (merged b (the_plan w.db ta tb ra rb) (normal_status tb.status) true ta))))

    abbrev pub MergedBy : World → Outcome MergeResult × World → Type 0
    MergedBy w r =
        (ta tb ra rb u : Task) × (stamp : String) × (a ≢ b)
        × (dry ≡ false)
        × Fits w ta tb ra rb
        × (r.0 ≡ ok (merged b (the_plan w.db ta tb ra rb) "SUPERSEDED" false u))
        × (r.1.db
            ≡ run_all
                (statements a b agent (the_plan w.db ta tb ra rb) (normal_status tb.status) stamp)
                w.db)
        × (r.1.db.tasks ≡ map (row_behind a b agent (the_plan w.db ta tb ra rb) stamp) w.db.tasks)

    abbrev pub MergeEnds : World → Outcome MergeResult × World → Type 0
    MergeEnds w r = Idle w r ⊎ MergedBy w r

    stopped :
        (w : World) (o : Outcome MergeResult) (v : World)
        → IsError o
        → v.db ≡ w.db
        → MergeEnds w (o, v)
    stopped w o v e p = inl (p, inl e)

    row_of : (o : Option Task) (t : Task) → row_or_none o ≡ ok t → o ≡ some t
    row_of none t e = absurd (cc)
    row_of (some u) t e = cc

    load-ok :
        (stage : String) (n : ℕ) (w : World) (t : Task)
        → (load env a b agent dry stage n w).0 ≡ ok t
        → find_task n w.db.tasks ≡ some t
    unfolding load
    load-ok stage n w t e =
        row_of (find_task n w.db.tasks) t
          (select-ok stage (λ d. row_or_none (find_task n d.tasks)) w t e)

    dry_run-Idle :
        (w v : World) (ta tb ra rb : Task)
        → Fits w ta tb ra rb
        → v.db ≡ w.db
        → dry ≡ true
        → MergeEnds w (carry_out env a b agent dry ta tb (the_plan w.db ta tb ra rb) v)
    unfolding carry_out
    dry_run-Idle w v ta tb ra rb fits same y =
        rw y (inl (same, inr (inr (ta, tb, ra, rb, refl, fits, refl))))

    carry_out-Ends :
        (w v : World) (ta tb ra rb : Task)
        → a ≢ b
        → Fits w ta tb ra rb
        → v.db ≡ w.db
        → MergeEnds w (carry_out env a b agent dry ta tb (the_plan w.db ta tb ra rb) v)
    unfolding carry_out settle
    carry_out-Ends w v ta tb ra rb ab fits same = elim (Bool-cases dry) [
      | inl y ↦ dry_run-Idle w v ta tb ra rb fits same y
      | inr z ↦
          let p = the_plan w.db ta tb ra rb in
          let from = normal_status tb.status in
          let body : Task → String → Exec Conn (Unit {0}) =
            λ _ stamp. exec_all env (statements a b agent p from stamp) in
          let result : Task → Task → MergeResult = λ _ u. merged b p "SUPERSEDED" false u in
          let back : Task → Task = λ t. in_memory p t in
          rw z
            (elim (settle-cases env a (λ _. false) (λ t. result t t) result body back w v ta
              fits.0.0 same refl (change env (body ta) a (back ta) v)
              (change-cases env (body ta) a (back ta) v)) [
                | inl (kept, inl e) ↦ inl (kept, inl e)
                | inl (kept, inr (_, _, bad, _)) ↦ absurd (cc)
                | inr (t, c, stamp, k, _, _, ran, stored, (u, answer)) ↦
                    let done =
                      stored ∙ exec_all-ok env (statements a b agent p from stamp) w.db k c ran in
                    inr (
                      ta,
                      tb,
                      ra,
                      rb,
                      u,
                      stamp,
                      ab,
                      refl,
                      fits,
                      answer,
                      done,
                      ap (λ (d : Db). d.tasks) done ∙ statements-tasks a b agent p from stamp w.db,
                    )
              ])
    ]

    rows_of :
        (y w : World) (deps : List Dependent)
        → y.db ≡ w.db
        → Path (Outcome (List Dependent)) (ok (dependents_of a b y.db.tasks)) (ok deps)
        → dependents_of a b w.db.tasks ≡ deps
    rows_of y w deps same e =
        let p : dependents_of a b y.db.tasks ≡ deps = cc in
        ap (λ (d : Db). dependents_of a b d.tasks) (sym same) ∙ p

    merge_open-Ends :
        (w v : World) (ta tb : Task)
        → a ≢ b
        → IsOpen ta
        → IsOpen tb
        → Reads w ta tb
        → v.db ≡ w.db
        → MergeEnds w (merge_open env a b agent dry ta tb v)
    unfolding merge_open load
    merge_open-Ends w v ta tb ab open_a open_b got same =
        let stage_a : String = "load A consumers/tags" in
        let stage_b : String = "load B consumers/tags" in
        let find : ℕ → Db → Outcome Task = λ n d. row_or_none (find_task n d.tasks) in
        let all : Db → Outcome (List Dependent) = λ d. ok (dependents_of a b d.tasks) in
        reading (MergeEnds w) v (select env stage_a (find a)) _ (db-select stage_a (find a) v)
          (λ o x e p. stopped w o x e (p ∙ same))
          (λ ra x fa p.
            reading (MergeEnds w) x (select env stage_b (find b)) _ (db-select stage_b (find b) x)
              (λ o y e q. stopped w o y e (q ∙ p ∙ same))
              (λ rb y fb q.
                reading (MergeEnds w) y (select env "find dependents" all) _
                  (db-select "find dependents" all y)
                  (λ o z e r. stopped w o z e (r ∙ q ∙ p ∙ same))
                  (λ deps z fd r.
                    let here = q ∙ p ∙ same in
                    let rows : dependents_of a b w.db.tasks ≡ deps =
                      rows_of y w deps here
                        (select-ok "find dependents" all y deps (ap (λ q. q.0) fd)) in
                    subst
                      (λ ds.
                        MergeEnds w
                          (carry_out env a b agent dry ta tb (plan_of a b ta tb ra rb ds) z))
                      rows
                      (carry_out-Ends w z ta tb ra rb ab
                        (
                          got,
                          open_a,
                          open_b,
                          ap (λ (d : Db). find_task a d.tasks) (sym same)
                              ∙ load-ok stage_a a v ra (ap (λ q. q.0) fa),
                          ap (λ (d : Db). find_task b d.tasks) (sym (p ∙ same))
                              ∙ load-ok stage_b b x rb (ap (λ q. q.0) fb),
                          plan_of-Planned a b ta tb ra rb (dependents_of a b w.db.tasks),
                        )
                        (r ∙ here)))))

    closed : {c : Bool} → c ≡ true → c ≡ false → ⊥
    closed p q = let e : Path Bool true false = sym p ∙ q in cc

    merge_checked-Ends :
        (w v : World) (ta tb : Task)
        → a ≢ b
        → Reads w ta tb
        → v.db ≡ w.db
        → MergeEnds w (merge_checked env a b agent dry ta tb v)
    unfolding merge_checked refusal
    merge_checked-Ends w v ta tb ab got same =
        elim (Bool-cases (mem_text (normal_status ta.status) merge_terminal_statuses)) [
          | inl y ↦ rw y (
              inl (
                same,
                inr (inl (_, refl, (λ e. absurd (cc)), inr (ta, tb, got, (λ h. closed y h.0)))),
              ))
          | inr x ↦
              rw x (elim (Bool-cases (mem_text (normal_status tb.status) merge_terminal_statuses)) [
                | inl y ↦ rw y (
                    inl (
                      same,
                      inr (
                          inl
                            (_, refl, (λ e. absurd (cc)), inr (ta, tb, got, (λ h. closed y h.1)))),
                    ))
                | inr z ↦ rw z (merge_open-Ends w v ta tb ab x z got same)
              ])
        ]

    pub merge_tasks_ends : (w : World) → MergeEnds w (merge_tasks env a b agent dry w)
    unfolding merge_tasks refusal
    merge_tasks_ends w = elim (Bool-cases (eqb a b)) [
      | inl y ↦ rw y (inl (refl, inr (inl (_, refl, (λ e. absurd (cc)), inl ((eqb_iff a b).0 y)))))
      | inr z ↦ rw z (
          reading (MergeEnds w) w (get_task env a) _ (db-get_task env a w) (stopped w)
            (λ ta v got p.
              reading (MergeEnds w) v (get_task env b) _ (db-get_task env b v)
                (λ o x e q. stopped w o x e (q ∙ p))
                (λ tb x got_b q.
                  merge_checked-Ends w x ta tb (λ e. apart z e)
                    (
                      ap (λ r. r.0) got,
                      ap (λ u. (get_task env b u).0) (ap (λ r. r.1) got) ∙ ap (λ r. r.0) got_b,
                    )
                    (q ∙ p))))
    ]
      where
        apart : eqb a b ≡ false → a ≡ b → ⊥
        apart z e = let y = (eqb_iff a b).1 e in cc
