-- ===== src/Store/Close.antt =====
-- store.go: CancelTask and SupersedeTask.
pub mod Coherent
use Prim.Native.String.{◌++◌}
use backlog_server.Prelude.{
  ℕ, String, Bool, true, false, not, ◌≡◌, refl, sym, ap, ◌∙◌, ◌⊎◌, inl, inr, List, [], ◌∷◌, ◌==◌,
  if◌then◌else◌, mem_text, is_empty, arith, some, Bool-cases,
}
use backlog_server.Prelude.Decimal.{decimal}
use backlog_server.Exec.{Exec, Outcome, ok, no_rows, failed, pure, continue, ◌>>=◌, ◌>>◌}
use backlog_server.Store.Db.{Task, Audit, Db, update_task, insert_audit, audit_row, applied}
use backlog_server.Store.Session.{Env, World, Conn, exec, get_task, change}
use backlog_server.Store.Session.Endings.{db-get_task, change-cases}
use backlog_server.Store.Session.Methods.{Applies, guarded-Applies, settle, settle-cases}
use backlog_server.Store.Results.{AdvanceResult, SupersedeResult, GateFailure, normal_status}
use backlog_server.Store.Take.{moved}

abbrev pub cancel_terminal_statuses : List String
cancel_terminal_statuses = "DONE" ∷ "CANCELLED" ∷ "SUPERSEDED" ∷ "WONT-DO" ∷ "MERGED" ∷ []

-- DONE may be superseded.
abbrev pub supersede_terminal_statuses : List String
supersede_terminal_statuses = "CANCELLED" ∷ "SUPERSEDED" ∷ "WONT-DO" ∷ "MERGED" ∷ []

unfoldable pub uncancellable : Task → Bool
uncancellable t = mem_text (normal_status t.status) cancel_terminal_statuses

unfoldable pub unsupersedable : Task → Bool
unsupersedable t = mem_text (normal_status t.status) supersede_terminal_statuses

unfoldable pub cancel_refusal : Task → AdvanceResult
cancel_refusal t =
    let from = normal_status t.status in
    record {
      task = t;
      from_status = from;
      to_status = "CANCELLED";
      failures =
          record { check = "TRANSITION"; detail = "task is already " ++ from ++ " — no-op" } ∷ [];
    }

unfoldable pub supersede_refusal : ℕ → Task → SupersedeResult
supersede_refusal by t =
    let from = normal_status t.status in
    record {
      task = t;
      from_status = from;
      to_status = "SUPERSEDED";
      by_id = by;
      failures =
          record {
            check = "TRANSITION";
            detail = "task is already " ++ from ++ " — cannot supersede";
          }
          ∷ [];
    }

unfoldable pub replacement_refusal : ℕ → Task → SupersedeResult
replacement_refusal by t = record {
  task = t;
  from_status = normal_status t.status;
  to_status = "SUPERSEDED";
  by_id = by;
  failures =
      record { check = "REPLACEMENT"; detail = "replacement task #" ++ decimal by ++ " not found" }
      ∷ [];
}

unfoldable pub cancelled : String → Task → Task
cancelled stamp t = record t { status = "CANCELLED"; updated_at = stamp; closed_at = some stamp }

abbrev superseded_note : ℕ → String
superseded_note by = "Superseded by #" ++ decimal by

unfoldable pub superseded : ℕ → String → Task → Task
superseded by stamp t = record t {
  status = "SUPERSEDED";
  note = superseded_note by;
  updated_at = stamp;
  closed_at = some stamp;
}

abbrev cancel_command : String → String
cancel_command reason = if is_empty reason then "cancel" else "cancel: " ++ reason

unfoldable pub replaced : ℕ → Task → Task → SupersedeResult
replaced by t u = record {
  task = u;
  from_status = normal_status t.status;
  to_status = "SUPERSEDED";
  by_id = by;
  failures = [];
}

module _ (env : Env) (n : ℕ) (agent reason : String) where
  unfoldable pub cancel_body : Task → String → Exec Conn (Unit {0})
  cancel_body t stamp = do
    exec env "update" (update_task n (cancelled stamp))
    exec env "audit" (
        insert_audit (
          audit_row n agent "status" (normal_status t.status) "CANCELLED" (cancel_command reason)
            stamp))

  unfoldable pub cancel_task : Exec World AdvanceResult
  cancel_task = do
    t ← get_task env n
    if uncancellable t then pure (cancel_refusal t) else do
      u ← change env (cancel_body t) n (record t { status = "CANCELLED" })
      pure (moved "CANCELLED" t u)

  unfoldable pub cancel_rows : Task → String → List Audit
  cancel_rows t stamp =
      audit_row n agent "status" (normal_status t.status) "CANCELLED" (cancel_command reason) stamp
      ∷ []

  cancel_body_effect :
      (t : Task) (stamp : String) (d : Db) (k : ℕ) (c : Conn)
      → cancel_body t stamp (record { view = d; called = k }) ≡ (ok tt, c)
      → c.view ≡ applied n (cancelled stamp) (cancel_rows t stamp) d
  unfolding cancel_body cancel_rows exec
  cancel_body_effect t stamp d k c h = ground arith

  -- CancelTask either commits nothing, for an error or because the row that it read is closed
  -- already, or commits exactly the status CANCELLED and the closing time of the row with its audit
  -- row.
  pub cancel_task-Applies :
      (w : World)
      → Applies env n uncancellable cancel_refusal
          (moved "CANCELLED")
          (λ _ stamp. cancelled stamp)
          cancel_rows
          w
          (cancel_task w)
  unfolding cancel_task
  cancel_task-Applies =
      guarded-Applies env n uncancellable cancel_refusal (moved "CANCELLED") cancel_body
        (λ t. record t { status = "CANCELLED" }) (λ _ stamp. cancelled stamp) cancel_rows
        cancel_body_effect

module _ (env : Env) (n : ℕ) (agent : String) (by : ℕ) where
  unfoldable pub found : Outcome Task × World → Outcome Bool × World
  found (ok t, w) = (ok true, w)
  found (no_rows, w) = (ok false, w)
  found (failed e, w) = (failed "lookup replacement", w)

  unfoldable pub supersede_body : Task → String → Exec Conn (Unit {0})
  supersede_body t stamp = do
    exec env "update" (update_task n (superseded by stamp))
    exec env "audit" (
        insert_audit (
          audit_row n agent "status" (normal_status t.status) "SUPERSEDED"
            ("supersede --by #" ++ decimal by) stamp))

  unfoldable pub supersede_fallback : Task → Task
  supersede_fallback t = record t { status = "SUPERSEDED"; note = superseded_note by }

  unfoldable pub supersede_found : Task → Bool → Exec World SupersedeResult
  supersede_found t there =
      if not there
      then pure (replacement_refusal by t)
      else do u ← change env (supersede_body t) n (supersede_fallback t); pure (replaced by t u)

  unfoldable pub supersede_task : Exec World SupersedeResult
  unfolding found
  supersede_task = do
    t ← get_task env n
    if unsupersedable t
        then pure (supersede_refusal by t)
        else do there ← λ w. found (get_task env by w); supersede_found t there

  unfoldable pub supersede_rows : Task → String → List Audit
  supersede_rows t stamp =
      audit_row n agent "status" (normal_status t.status) "SUPERSEDED"
        ("supersede --by #" ++ decimal by) stamp
      ∷ []

  -- The row of a superseded task, written out, and its audit row.
  abbrev pub superseding : Task → String → Task → Task
  superseding t stamp u = record u {
    status = "SUPERSEDED";
    note = "Superseded by #" ++ decimal by;
    updated_at = stamp;
    closed_at = some stamp;
  }

  supersede_body_effect :
      (t : Task) (stamp : String) (d : Db) (k : ℕ) (c : Conn)
      → supersede_body t stamp (record { view = d; called = k }) ≡ (ok tt, c)
      → c.view ≡ applied n (superseding t stamp) (supersede_rows t stamp) d
  unfolding supersede_body superseded supersede_rows exec
  supersede_body_effect t stamp d k c h = ground arith

  -- Nothing was committed: the replacement is not there.
  abbrev pub NoReplacement : World → Outcome SupersedeResult × World → Type 0
  NoReplacement w r =
      (r.1.db ≡ w.db)
      × ((t : Task) × ((get_task env n w).0 ≡ ok t)
          × (unsupersedable t ≡ false)
          × ((get_task env by (get_task env n w).1).0 ≡ no_rows)
          × (r.0 ≡ ok (replacement_refusal by t)))

  abbrev pub SupersedeEnds : World → Outcome SupersedeResult × World → Type 0
  SupersedeEnds w r =
      NoReplacement w r
      ⊎ Applies env n unsupersedable (supersede_refusal by) (replaced by) superseding supersede_rows
          w r

  change_ends :
      (w v : World) (t : Task)
      → (get_task env n w).0 ≡ ok t
      → v.db ≡ w.db
      → unsupersedable t ≡ false
      → SupersedeEnds w (supersede_found t true v)
  unfolding supersede_found settle
  change_ends w v t got same good =
      elim (settle-cases env n unsupersedable (supersede_refusal by) (replaced by) supersede_body
        supersede_fallback w v t got same good
        (change env (supersede_body t) n (supersede_fallback t) v)
        (change-cases env (supersede_body t) n (supersede_fallback t) v)) [
          | inl refused ↦ inr (inl refused)
          | inr (t', c, stamp, k, got', good', ran, stored, result) ↦ inr (
              inr (
                t',
                stamp,
                got',
                good',
                stored ∙ supersede_body_effect t' stamp w.db k c ran,
                result,
              ))
        ]

  found_ends :
      (w v : World) (t : Task)
      → (get_task env n w).0 ≡ ok t
      → (get_task env n w).1 ≡ v
      → v.db ≡ w.db
      → unsupersedable t ≡ false
      → (r : Outcome Task × World) → get_task env by v ≡ r
      → SupersedeEnds w (continue (found r) (supersede_found t))
  unfolding found
  found_ends w v t got next same good (ok x, z) e =
      change_ends w z t got (sym (ap (λ q. q.1.db) e) ∙ db-get_task env by v ∙ same) good
  found_ends w v t got next same good (no_rows, z) e = inl (
      unfold supersede_found in
      (
        sym (ap (λ q. q.1.db) e) ∙ db-get_task env by v ∙ same,
        (t, got, good, ap (λ x. (get_task env by x).0) next ∙ ap (λ q. q.0) e, refl),
      ))
  found_ends w v t got next same good (failed x, z) e =
      inr (inl (sym (ap (λ q. q.1.db) e) ∙ db-get_task env by v ∙ same, inl refl))

  pub supersede_task_ends : (w : World) → SupersedeEnds w (supersede_task w)
  unfolding supersede_task
  supersede_task_ends w = go (get_task env n w) refl (db-get_task env n w)
    where
      go :
          (r : Outcome Task × World)
          → get_task env n w ≡ r
          → r.1.db ≡ w.db
          → SupersedeEnds w (
              continue r (λ t.
                if unsupersedable t
                then pure (supersede_refusal by t)
                else do there ← λ v. found (get_task env by v); supersede_found t there))
      go (no_rows, v) e same = inr (inl (same, inl refl))
      go (failed x, v) e same = inr (inl (same, inl refl))
      go (ok t, v) e same = elim (Bool-cases (unsupersedable t)) [
        | inl b ↦ rw b (inr (inl (same, inr (t, ap (λ q. q.0) e, b, refl))))
        | inr g ↦
            rw g
              (found_ends w v t (ap (λ q. q.0) e) (ap (λ q. q.1) e) same g (get_task env by v) refl)
      ]
