-- ===== src/Store/Create/Insert/Effect.antt =====
-- What the transaction of CreateTask leaves in the tables.
use backlog_server.Prelude.{
  ℕ, ◌+◌, String, Bool, true, false, not, ◌≡◌, ◌≢◌, refl, sym, ap, ◌∙◌, ◌⊎◌, inl, inr, Option, none,
  some, List, [], ◌∷◌, eqb, eqb_iff, ◌&&◌, equal_fold, is_empty, trim_space, if◌then◌else◌,
  Bool-cases,
}
use backlog_server.Prelude.Int.{is_zero}
use backlog_server.Exec.{Exec, Outcome, ok, no_rows, failed, pure, continue, ◌>>=◌}
use backlog_server.Store.Db.{Task, Edge, Db, find_task, insert_audit, audit_row, applied}
use backlog_server.Store.Session.{Env, Conn, exec, query}
use backlog_server.Store.Advance.Ends.{exec-then}
use backlog_server.Store.Create.{CreateTaskRequest, parent_of, Resolved}
use backlog_server.Store.Create.Insert.{
  next_id, build_custom_fields, new_task, reopened, create_command, created_row, insert_edge,
  blocking_edge, add_task, sync_blocked_by_to_edges, sync_edges, commit_fails, parent_row, reopen,
  insert, behind_parent, create_body,
}

query-then :
    {A B : Type 0} (env : Env) (stage : String) (f : Db → A × Db) (m : A → Exec Conn B) (d : Db)
    (k : ℕ) (b : B) (c : Conn)
    → (query env stage f >>= m) (record { view = d; called = k }) ≡ (ok b, c)
    → m (f d).0 (record { view = (f d).1; called = k + 1 }) ≡ (ok b, c)
unfolding query
query-then {B = B} env stage f m d k b c h = elim (Bool-cases (env.fails k)) [
  | inl y ↦ let e : Path (Outcome B × Conn) _ _ = rw y at h in absurd (cc)
  | inr n ↦ rw n at h
]

-- The edges behind the loop.
unfoldable pub synced : ℕ → List ℕ → List Edge → List Edge
synced n [] es = es
synced n (b ∷ bs) es = synced n bs (if eqb b 0 then es else insert_edge (blocking_edge b n) es)

sync_effect :
    (env : Env) (n : ℕ) (bs : List ℕ) (d : Db) (k : ℕ) (c : Conn)
    → sync_blocked_by_to_edges env n bs (record { view = d; called = k }) ≡ (ok tt, c)
    → c.view ≡ record d { edges = synced n bs d.edges }
unfolding sync_blocked_by_to_edges synced
sync_effect env n [] d k c h = sym (ap (λ q. q.1.view) h)
sync_effect env n (b ∷ bs) d k c h = elim (Bool-cases (eqb b 0)) [
  | inl y ↦ rw y (sync_effect env n bs d k c (rw y at h))
  | inr z ↦ rw z (
      sync_effect env n bs (record d { edges = insert_edge (blocking_edge b n) d.edges }) (k + 1) c
        (exec-then env "edges" (λ d. record d { edges = insert_edge (blocking_edge b n) d.edges })
          (sync_blocked_by_to_edges env n bs) d k tt c (rw z at h)))
]

commit_fails-ok :
    (r : Outcome (Unit {0}) × Conn) (c : Conn) → commit_fails r ≡ (ok tt, c) → r ≡ (ok tt, c)
unfolding commit_fails
commit_fails-ok (ok a, x) c h = h
commit_fails-ok (no_rows, x) c h = absurd (cc)
commit_fails-ok (failed e, x) c h = absurd (cc)

abbrev pub is_done : Option Task → Bool
is_done none = false
is_done (some t) = equal_fold t.status "DONE"

module _ (env : Env) (blank : Task) (day : String) (r : CreateTaskRequest) (res : Resolved)
    (workflow : String) where
  -- The tables behind the cascade to the parent, and behind the insert, written out.
  unfoldable pub cascaded : String → Bool → Db → Db
  cascaded stamp was_done d =
      if was_done
      then applied (parent_of r)
          (λ t. record t { status = "REOPENED"; closed_at = none; updated_at = stamp })
          (audit_row (parent_of r) r.agent "status" "DONE" "REOPENED"
              "create: parent reopened (child added)" stamp
            ∷ [])
          d
      else d

  unfoldable pub inserted : String → Db → Db
  inserted stamp d =
      let id = next_id d.tasks in
      record d {
        tasks =
            (record blank {
              id = id;
              title = r.title;
              why = r.why;
              owner = res.owner;
              status = "BACKLOG";
              mode = r.mode;
              type = if is_empty (trim_space r.type) then none else some r.type;
              note = r.note;
              business_value = r.business_value;
              session = r.session;
              migration_note = r.migration_note;
              client_id = if is_empty r.client then none else some r.client;
              project_id = if is_empty r.project then none else some r.project;
              priority_override = r.priority_override;
              blocked_by = r.blocked_by;
              consumers = r.consumers;
              tags = r.tags;
              references = r.references;
              workflow = workflow;
              custom_fields = some (build_custom_fields r workflow);
              parent_task_id = if is_zero r.parent then none else some r.parent;
              created = day;
              created_at = stamp;
              updated_at = stamp;
            })
            ∷ d.tasks;
        audit =
            audit_row id r.agent "status" "" "BACKLOG" (create_command res.source (parent_of r))
              stamp
            ∷ d.audit;
        edges = synced id r.blocked_by d.edges;
      }

  insert_effect :
      (stamp : String) (b : Bool) (d : Db) (k : ℕ) (made : Option (ℕ × Bool)) (c : Conn)
      → insert env blank day r res workflow stamp b (record { view = d; called = k }) ≡ (ok made, c)
      → (made ≡ some (next_id d.tasks, b)) × (c.view ≡ inserted stamp d)
  unfolding insert inserted sync_edges new_task
  insert_effect stamp b d k made c h =
      let id = next_id d.tasks in
      let row = new_task blank r res.owner workflow day stamp in
      let told = created_row id r.agent (create_command res.source (parent_of r)) stamp in
      let more : Db = record d { tasks = row id ∷ d.tasks } in
      let audited : Db = insert_audit told more in
      let h1 = query-then env "insert task" (add_task row) _ d k made c h in
      let h2 =
        exec-then env "insert audit" (insert_audit told)
          (sync_edges env id r.blocked_by >>= λ _. pure (some (id, b))) more (k + 1) made c h1 in
      go (sync_edges env id r.blocked_by (record { view = audited; called = k + 1 + 1 })) refl h2
    where
      go :
          (q : Outcome (Unit {0}) × Conn)
          → sync_edges env (next_id d.tasks) r.blocked_by (record {
            view =
                insert_audit
                  (created_row
                    (next_id d.tasks)
                    r.agent
                    (create_command res.source (parent_of r))
                    stamp)
                  (record d {
                    tasks =
                        new_task blank r res.owner workflow day stamp (next_id d.tasks) ∷ d.tasks;
                  });
            called = k + 1 + 1;
          })
            ≡ q
          → continue q (λ _. pure (some (next_id d.tasks, b))) ≡ (ok made, c)
          → (made ≡ some (next_id d.tasks, b)) × (c.view ≡ inserted stamp d)
      go (no_rows, x) e h = absurd (cc)
      go (failed w, x) e h = absurd (cc)
      go (ok tt, x) e h =
          let same : x ≡ c = ap (λ q. q.1) h in
          (
            let o : ok (some (next_id d.tasks, b)) ≡ ok made = ap (λ q. q.0) h in cc,
            sym (ap (λ (y : Conn). y.view) same)
                ∙ sync_effect env (next_id d.tasks) r.blocked_by _ (k + 1 + 1) x
                    (commit_fails-ok _ x e),
          )

  reopen_effect :
      (stamp : String) (t : Task) (b : Bool) (d : Db) (k : ℕ) (made : Option (ℕ × Bool)) (c : Conn)
      → equal_fold t.status "DONE" ≡ b
      → (reopen env blank day r res workflow stamp t >>= insert env blank day r res workflow stamp)
          (record { view = d; called = k })
        ≡ (ok made, c)
      → (made ≡ some (next_id (cascaded stamp b d).tasks, b))
        × (c.view ≡ inserted stamp (cascaded stamp b d))
  unfolding reopen cascaded exec reopened
  reopen_effect stamp t true d k made c e h = elim (Bool-cases (env.fails k)) [
    | inl y ↦ let p : Path (Outcome (Option (ℕ × Bool)) × Conn) _ _ = rw (e, y) at h in absurd (cc)
    | inr n ↦ elim (Bool-cases (env.fails (k + 1))) [
      | inl y ↦
          let p : Path (Outcome (Option (ℕ × Bool)) × Conn) _ _ = rw (e, n, y) at h in absurd (cc)
      | inr m ↦ insert_effect stamp true _ (k + 1 + 1) made c (rw (e, n, m) at h)
    ]
  ]
  reopen_effect stamp t false d k made c e h = insert_effect stamp false d k made c (rw e at h)

  -- The body found no parent and wrote nothing, or it has made its rows.
  abbrev pub BodyEnds : String → Db → Option (ℕ × Bool) → Conn → Type 0
  BodyEnds stamp d made c =
      ((made ≡ none) × ((parent_of r) ≢ 0) × (find_task (parent_of r) d.tasks ≡ none))
      ⊎ (let was_done = not (eqb (parent_of r) 0) && is_done (find_task (parent_of r) d.tasks) in
          (made ≡ some (next_id (cascaded stamp was_done d).tasks, was_done))
          × (c.view ≡ inserted stamp (cascaded stamp was_done d)))

  behind_effect :
      (stamp : String) (o : Option Task) (d : Db) (k : ℕ) (made : Option (ℕ × Bool)) (c : Conn)
      → find_task (parent_of r) d.tasks ≡ o
      → eqb (parent_of r) 0 ≡ false
      → behind_parent env blank day r res workflow stamp o (record { view = d; called = k })
        ≡ (ok made, c)
      → BodyEnds stamp d made c
  unfolding behind_parent
  behind_effect stamp none d k made c e z h =
      let o : ok none ≡ ok made = ap (λ q. q.0) h in inl (cc, (λ p. not_zero p), e)
    where
      not_zero : (parent_of r) ≡ 0 → ⊥
      not_zero p = let y = (eqb_iff (parent_of r) 0).1 p in cc
  behind_effect stamp (some t) d k made c e z h =
      inr (rw (z, e) (reopen_effect stamp t (equal_fold t.status "DONE") d k made c refl h))

  pub create_body_effect :
      (stamp : String) (d : Db) (k : ℕ) (made : Option (ℕ × Bool)) (c : Conn)
      → create_body env blank day r res workflow stamp (record { view = d; called = k })
        ≡ (ok made, c)
      → BodyEnds stamp d made c
  unfolding create_body cascaded
  create_body_effect stamp d k made c h = elim (Bool-cases (eqb (parent_of r) 0)) [
    | inl y ↦ inr (
        rw y (
          insert_effect stamp false d (k + 1) made c (
            exec-then env "serial guard" (λ e. e) (insert env blank day r res workflow stamp false)
              d k made c (rw y at h))))
    | inr z ↦ behind_effect stamp (find_task (parent_of r) d.tasks) d (k + 1 + 1) made c refl z (
        unfold parent_row in
        query-then env "check parent" (λ e. (find_task (parent_of r) e.tasks, e))
          (behind_parent env blank day r res workflow stamp) d (k + 1) made c
          (exec-then env "serial guard" (λ e. e) _ d k made c (rw z at h)))
  ]
