-- ===== src/Store/Requests/Effects.antt =====
-- Each request's effect on the tables is one write.
use backlog_server.Prelude.{
  ℕ, String, Bool, false, ◌≡◌, ◌≢◌, refl, sym, ap, ◌∙◌, ◌⊎◌, inl, inr, List, [], ◌∷◌, ◌==◌, eq_iff,
  some, none, eqb, eqb_refl, arith, Bool-cases, In, any_by, is_empty, to_upper, to_lower,
  trim_space,
}
use mathlib.Core.Path.{subst}
use backlog_server.Exec.{Outcome}
use backlog_server.Lifecycle.{compute_advance_target}
use backlog_server.Lifecycle.Stages.{ends_elsewhere, target_of-not_cancelled}
use backlog_server.Store.Db.{Task, Audit, Db, audit_row}
use backlog_server.Store.Session.{Env, World}
use backlog_server.Store.Session.Endings.{db-get_task}
use backlog_server.Store.Session.Methods.{Applies}
use backlog_server.Store.Rescore.{Scorer}
use backlog_server.Store.Take.{
  taken, released, take_rows, release_rows, take_task-Applies, release_task-Applies, take_task,
  release_task,
}
use backlog_server.Store.Close.{
  cancelled, superseding, cancel_rows, supersede_rows, cancel_task-Applies, supersede_task_ends,
  cancel_task, supersede_task,
}
use backlog_server.Store.Incident.{
  investigated, confirmed, documented, revised, verify_change, verify_rows, postmortem_rows,
  revision_rows, verify_task-Applies, set_postmortem-Applies, request_revision-Applies, verify_task,
  set_postmortem, request_revision,
}
use backlog_server.Store.Review.Latest.{submit_review_ends}
use backlog_server.Store.Update.{update_task_fields}
use backlog_server.Store.Update.Effect.{update_task_fields-Applies}
use backlog_server.Store.Update.Trail.{update_Tidy}
use backlog_server.Store.Advance.{target, advanced, advance_row}
use backlog_server.Store.Advance.Ends.{advance_task_ends, advanced_db}
use backlog_server.Store.Writes.{
  last_status, closing_statuses, Timed, Tidy, Write, nothing, one_row, close, review,
}
use backlog_server.Store.Requests.{
  Request, get, take, release, cancel, supersede, verify, postmortem, revise, submit, advance,
  update, serve,
}
use backlog_server.Store.Results.{normal_status}

-- The change is told by its audit rows wherever the row passed the test.
Applies-Write-passed :
    (env : Env) {R : Type 0} (n : ℕ) (bad : Task → Bool) (reject : Task → R)
    (done : Task → Task → R) (f : Task → String → Task → Task) (rows : Task → String → List Audit)
    → ((t : Task) (stamp : String) → bad t ≡ false → Tidy n (f t stamp) (rows t stamp))
    → (w : World) (r : Outcome R × World) → Applies env n bad reject done f rows w r
    → Write w.db r.1.db
Applies-Write-passed env n bad reject done f rows tidy w r (inl (same, _)) =
    subst (Write w.db) (sym same) nothing
Applies-Write-passed env n bad reject done f rows tidy w r (inr (t, stamp, got, good, stored, _)) =
    subst (Write w.db) (sym stored) (one_row n (f t stamp) (rows t stamp) (tidy t stamp good))

Applies-Write :
    (env : Env) {R : Type 0} (n : ℕ) (bad : Task → Bool) (reject : Task → R)
    (done : Task → Task → R) (f : Task → String → Task → Task) (rows : Task → String → List Audit)
    → ((t : Task) (stamp : String) → Tidy n (f t stamp) (rows t stamp))
    → (w : World) (r : Outcome R × World) → Applies env n bad reject done f rows w r
    → Write w.db r.1.db
Applies-Write env n bad reject done f rows tidy =
    Applies-Write-passed env n bad reject done f rows (λ t stamp _. tidy t stamp)

pub not-In : (s : String) (ts : List String) → any_by (λ t. s == t) ts ≡ false → In s ts → ⊥
not-In s [] e i = elim i [ ]
not-In s (t ∷ ts) e (inl p) = let here = (eq_iff s t).1 (sym p) in cc
not-In s (t ∷ ts) e (inr i) = elim (Bool-cases (s == t)) [
  | inl y ↦ cc
  | inr z ↦ not-In s ts (rw z at e) i
]

-- Where a new status is a closing one, the change sets the time.
abbrev Closes : String → (Task → Task) → Type 0
Closes new f =
    (any_by (λ t. new == t) closing_statuses ≡ false) ⊎ ((t : Task) → (f t).closed_at ≢ none)

keeps_time_by :
    (new : String) (f : Task → Task)
    → ((t : Task) → (f t).status ≡ new)
    → Closes new f
    → (t : Task) → Timed t
    → Timed (f t)
keeps_time_by new f status (inl open_status) t h i =
    absurd
      (not-In new closing_statuses open_status (subst (λ s. In s closing_statuses) (status t) i))
keeps_time_by new f status (inr timed) t h i = timed t

last_status_now :
    (n : ℕ) (agent old new command stamp : String) (rows : List Audit)
    → last_status n (audit_row n agent "status" old new command stamp ∷ rows) ≡ some new
unfolding last_status
last_status_now n agent old new command stamp rows = rw (eqb_refl n) refl

last_status_skip :
    (n : ℕ) (a : Audit) (rows : List Audit)
    → (a.field_changed == "status") ≡ false
    → last_status n (a ∷ rows) ≡ last_status n rows
unfolding last_status
last_status_skip n a rows e = elim (Bool-cases (eqb a.task_id n)) [
  | inl y ↦ rw (y, e) refl
  | inr z ↦ rw z refl
]

-- A change of status with its audit row.
pub status_Tidy :
    (n : ℕ) (agent old new command stamp : String) (f : Task → Task)
    → ((t : Task) → (f t).id ≡ t.id)
    → ((t : Task) → (f t).status ≡ new)
    → Closes new f
    → Tidy n f (audit_row n agent "status" old new command stamp ∷ [])
status_Tidy n agent old new command stamp f keeps status closes = record {
  keeps_id = keeps;
  keeps_time = keeps_time_by new f status closes;
  told = λ t. inl (last_status_now n agent old new command stamp [] ∙ ap some (sym (status t)));
  of_task = (refl, tt);
}

-- A change of another column with its audit row.
other_Tidy :
    (n : ℕ) (a : Audit) (f : Task → Task)
    → a.task_id ≡ n
    → (a.field_changed == "status") ≡ false
    → ((t : Task) → (f t).id ≡ t.id)
    → ((t : Task) → (f t).status ≡ t.status)
    → ((t : Task) → (f t).closed_at ≡ t.closed_at)
    → Tidy n f (a ∷ [])
unfolding last_status
other_Tidy n a f mine e keeps status closed = record {
  keeps_id = keeps;
  keeps_time = λ t h i p. h (subst (λ s. In s closing_statuses) (status t) i) (sym (closed t) ∙ p);
  told = λ t. inr (last_status_skip n a [] e, status t);
  of_task = (mine, tt);
}

take_Tidy :
    (env : Env) (n : ℕ) (agent : String) (t : Task) (stamp : String)
    → Tidy n (taken agent stamp) (take_rows env n agent t stamp)
unfolding taken take_rows
take_Tidy env n agent t stamp = elim (Bool-cases (t.owner == agent)) [
  | inl y ↦
      rw y (status_Tidy n agent _ "IN_PROGRESS" "take" stamp _ (λ u. refl) (λ u. refl) (inl refl))
  | inr z ↦ rw z (record {
    keeps_id = λ u. refl;
    keeps_time = keeps_time_by "IN_PROGRESS" (taken agent stamp) (λ u. refl) (inl refl);
    told = λ u.
        inl (last_status_skip n _ _ refl ∙ last_status_now n agent _ "IN_PROGRESS" "take" stamp []);
    of_task = (refl, (refl, tt));
  })
]

verify_Tidy :
    (env : Env) (n : ℕ) (agent reason : String) (t : Task) (stamp : String)
    → Tidy n (verify_change env n agent reason stamp) (verify_rows env n agent reason t stamp)
unfolding verify_change verify_rows confirmed investigated
verify_Tidy env n agent reason t stamp = elim (Bool-cases (is_empty reason)) [
  | inl y ↦ rw y (other_Tidy n _ _ refl refl (λ u. refl) (λ u. refl) (λ u. refl))
  | inr z ↦ rw z (
      status_Tidy n agent _ "INVESTIGATING" "verify --failed" stamp _ (λ u. refl) (λ u. refl)
        (inl refl))
]

advanced-Tidy :
    (n : ℕ) (agent : String) (t : Task) (stamp : String)
    → Closes (target t) (advanced (target t) stamp)
    → Tidy n (advanced (target t) stamp) (advance_row n agent t stamp ∷ [])
unfolding advanced advance_row
advanced-Tidy n agent t stamp closes =
    status_Tidy n agent _ (target t) "advance" stamp (advanced (target t) stamp) (λ u. kept u)
      (λ u. named u) closes
  where
    kept : (u : Task) → (advanced (target t) stamp u).id ≡ u.id
    kept u = ground arith

    named : (u : Task) → (advanced (target t) stamp u).status ≡ target t
    named u = ground arith

-- An advance leads to DONE or to a status that is not a closing one.
Closes-by :
    (to stamp : String) → (to ≢ "" → ends_elsewhere to ≡ false) → Closes to (advanced to stamp)
unfolding advanced
Closes-by to stamp fine = elim (Bool-cases (to == "DONE")) [
  | inl y ↦ inr (λ u e. timed u (rw y at e))
  | inr z ↦ elim (Bool-cases (to == "")) [
    | inl y ↦ inl (ap (λ s. any_by (λ t. s == t) closing_statuses) ((eq_iff to "").0 y))
    | inr n ↦ inl (rw z (ground (arith, fine (λ e. differ n e))))
  ]
]
  where
    differ : (to == "") ≡ false → to ≡ "" → ⊥
    differ n e = let y = (eq_iff to "").1 e in cc

    timed : (u : Task) → some stamp ≡ none → ⊥
    timed u e = cc

target-Closes : (t : Task) (stamp : String) → Closes (target t) (advanced (target t) stamp)
unfolding target compute_advance_target
target-Closes t stamp =
    Closes-by (target t) stamp (
      target_of-not_cancelled (to_upper (normal_status t.status))
        (to_lower (trim_space t.workflow)))

release_Tidy :
    (env : Env) (n : ℕ) (agent : String) (t : Task) (stamp : String)
    → Tidy n (released stamp) (release_rows env n agent t stamp)
unfolding released release_rows
release_Tidy env n agent t stamp =
    status_Tidy n agent _ "READY" "release" stamp (released stamp) (λ u. refl) (λ u. refl)
      (inl refl)

cancel_Tidy :
    (env : Env) (n : ℕ) (agent reason : String) (t : Task) (stamp : String)
    → Tidy n (cancelled stamp) (cancel_rows env n agent reason t stamp)
unfolding cancelled cancel_rows
cancel_Tidy env n agent reason t stamp =
    status_Tidy n agent _ "CANCELLED" _ stamp (cancelled stamp) (λ u. refl) (λ u. refl)
      (inr (λ u e. cc))

supersede_Tidy :
    (env : Env) (n : ℕ) (agent : String) (by : ℕ) (t : Task) (stamp : String)
    → Tidy n (superseding env n agent by t stamp) (supersede_rows env n agent by t stamp)
unfolding supersede_rows
supersede_Tidy env n agent by t stamp =
    status_Tidy n agent _ "SUPERSEDED" _ stamp (superseding env n agent by t stamp) (λ u. refl)
      (λ u. refl) (inr (λ u e. cc))

postmortem_Tidy :
    (env : Env) (n : ℕ) (agent path : String) (t : Task) (stamp : String)
    → Tidy n (documented path stamp) (postmortem_rows env n agent path t stamp)
unfolding documented postmortem_rows
postmortem_Tidy env n agent path t stamp =
    other_Tidy n _ (documented path stamp) refl refl (λ u. refl) (λ u. refl) (λ u. refl)

revision_Tidy :
    (env : Env) (n : ℕ) (agent reason : String) (t : Task) (stamp : String)
    → Tidy n (revised reason stamp) (revision_rows env n agent reason t stamp)
unfolding revised revision_rows
revision_Tidy env n agent reason t stamp =
    status_Tidy n agent _ "REVISION" "revision" stamp (revised reason stamp) (λ u. refl) (λ u. refl)
      (inl refl)

module _ (env : Env) (scorers : ℕ → Scorer) where
  -- Whatever a request answers, its effect on the tables is one write of the abstract kind: of
  -- nothing, of one row with audit rows of that task that tell its status, of such a change with a
  -- rescore behind it, or of a filed review.
  pub serve-Write : (r : Request) (w : World) → Write w.db (serve env scorers r w).db
  unfolding serve
  serve-Write (get n) w = subst (Write w.db) (sym (db-get_task env n w)) nothing
  serve-Write (take n agent) w =
      Applies-Write env n _ _ _ _ _ (take_Tidy env n agent) w (take_task env n agent w)
        (take_task-Applies env n agent w)
  serve-Write (release n agent) w =
      Applies-Write env n _ _ _ _ _ (release_Tidy env n agent) w (release_task env n agent w)
        (release_task-Applies env n agent w)
  serve-Write (cancel n agent reason) w =
      Applies-Write env n _ _ _ _ _ (cancel_Tidy env n agent reason) w
        (cancel_task env n agent reason w) (cancel_task-Applies env n agent reason w)
  serve-Write (supersede n agent by) w = elim (supersede_task_ends env n agent by w) [
    | inl (same, _) ↦ subst (Write w.db) (sym same) nothing
    | inr applies ↦
        Applies-Write env n _ _ _ _ _ (supersede_Tidy env n agent by) w
          (supersede_task env n agent by w) applies
  ]
  serve-Write (verify n agent reason) w =
      Applies-Write env n _ _ _ _ _ (verify_Tidy env n agent reason) w
        (verify_task env n agent reason w) (verify_task-Applies env n agent reason w)
  serve-Write (postmortem n agent path) w =
      Applies-Write env n _ _ _ _ _ (postmortem_Tidy env n agent path) w
        (set_postmortem env n agent path w) (set_postmortem-Applies env n agent path w)
  serve-Write (revise n agent reason) w =
      Applies-Write env n _ _ _ _ _ (revision_Tidy env n agent reason) w
        (request_revision env n agent reason w) (request_revision-Applies env n agent reason w)
  serve-Write (update n agent updates) w =
      Applies-Write-passed env n _ _ _ _ _ (update_Tidy env n agent updates) w
        (update_task_fields env n agent updates w)
        (update_task_fields-Applies env n agent updates w)
  serve-Write (submit n caller reviewer verdict summary agg) w =
      elim (submit_review_ends env n caller reviewer verdict summary agg w) [
        | inl (_, same) ↦ subst (Write w.db) (sym same) nothing
        | inr (stamp, _, stored) ↦
            subst (Write w.db) (sym stored) (review env n caller reviewer verdict summary agg stamp)
      ]
  serve-Write (advance n agent approve) w =
      elim (advance_task_ends env (scorers w.calls) n agent approve w) [
        | inl (same, _) ↦ subst (Write w.db) (sym same) nothing
        | inr (t, stamp, got, named, passed, stored, _) ↦
            subst (Write w.db) (sym stored) (advanced_write t stamp w.db)
      ]
    where
      advanced_write :
          (t : Task) (stamp : String) (d : Db)
          → Write d (advanced_db env (scorers w.calls) n agent approve t stamp d)
      advanced_write t stamp d =
          let tidy = advanced-Tidy n agent t stamp (target-Closes t stamp) in
          elim (Bool-cases (target t == "DONE")) [
            | inl y ↦ rw y (close n _ _ (scorers w.calls) stamp tidy)
            | inr z ↦ rw z (one_row n _ _ tidy)
          ]
