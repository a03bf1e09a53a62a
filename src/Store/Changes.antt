-- ===== src/Store/Changes.antt =====
-- Writes and creations: what they keep of the tables.
use backlog_server.Prelude.{
  ℕ, ◌≤◌, String, Bool, true, false, ◌≡◌, refl, sym, ap, ◌∙◌, inl, inr, Option, some, List, [], ◌∷◌,
  ◌++◌, map, eqb, In, All, Distinct, Bool-cases, arith,
}
use mathlib.Core.Path.{subst}
use backlog_server.Store.Db.{Task, Audit, Db, find_task}
use backlog_server.Store.Tables.{id_of}
use backlog_server.Store.Session.{Env}
use backlog_server.Store.Review.Latest.{UniqueLatest}
use backlog_server.Store.Writes.{Timed, Write, nothing, one_row, last_status, closing_statuses}
use backlog_server.Store.Writes.Keeps.{Write-ids, Write-audit, Write-UniqueLatest, Write-Timed}
use backlog_server.Store.Writes.Trail.{Tells, Write-Tells}
use backlog_server.Store.Requests.Effects.{status_Tidy, not-In}
use backlog_server.Store.Create.{CreateTaskRequest, parent_of, Resolved}
use backlog_server.Store.Create.Insert.{
  greatest_id, next_id, reopened, reopened_row, created_row, create_command,
}
use backlog_server.Store.Create.Insert.Effect.{cascaded, inserted}

-- What the operations rely on in the tables: no id twice, a time of closing on closed tasks, an audit
-- trail that tells the statuses, and at most one latest review of each reviewer.
abbrev pub Sound : Db → Type 0
Sound d = Distinct (map id_of d.tasks) × All Timed d.tasks × Tells d × UniqueLatest d.reviews

pub Write-Sound : (d e : Db) → Write d e → Sound d → Sound e
Write-Sound d e write (ids, timed, tells, latest) = (
  subst Distinct (sym (Write-ids d e write)) ids,
  Write-Timed d e write timed,
  Write-Tells d e write tells,
  Write-UniqueLatest d e write latest,
)

greatest_id-le : (ts : List Task) (n : ℕ) → In n (map id_of ts) → n ≤ greatest_id ts
unfolding greatest_id
greatest_id-le [] n i = elim i [ ]
greatest_id-le (t ∷ ts) n (inl e) = ground arith
greatest_id-le (t ∷ ts) n (inr i) = ground (arith, greatest_id-le ts n i)

next_id-fresh : (ts : List Task) → ¬ In (next_id ts) (map id_of ts)
next_id-fresh ts i = let le = greatest_id-le ts (next_id ts) i in absurd (omega arith)

module _ (env : Env) (blank : Task) (day : String) (r : CreateTaskRequest) (res : Resolved)
    (workflow stamp : String) where
  cascaded-Write : (b : Bool) (d : Db) → Write d (cascaded env blank day r res workflow stamp b d)
  unfolding cascaded reopened
  cascaded-Write false d = nothing
  cascaded-Write true d =
      one_row (parent_of r) (reopened stamp) (reopened_row (parent_of r) r.agent stamp ∷ []) (
        status_Tidy (parent_of r) r.agent "DONE" "REOPENED" _ stamp (reopened stamp) (λ t. refl)
          (λ t. refl) (inl refl))

  Tells-inserted : (d : Db) → Tells d → Tells (inserted env blank day r res workflow stamp d)
  unfolding inserted find_task last_status
  Tells-inserted d tells n t s here said = elim (Bool-cases (eqb (next_id d.tasks) n)) [
    | inl y ↦
        let it : Path (Option Task) _ (some t) = rw y at here in
        let told : Path (Option String) (some "BACKLOG") (some s) = rw y at said in
        same_status _ t s it told
    | inr z ↦ tells n t s (rw z at here) (rw z at said)
  ]
    where
      same_status :
          (u t : Task) (s : String)
          → Path (Option Task) (some u) (some t)
          → Path (Option String) (some u.status) (some s)
          → t.status ≡ s
      same_status u t s p q =
          let e : u ≡ t = cc in let f : u.status ≡ s = cc in sym (ap (λ (x : Task). x.status) e) ∙ f

  inserted-Sound : (d : Db) → Sound d → Sound (inserted env blank day r res workflow stamp d)
  unfolding inserted
  inserted-Sound d (ids, timed, tells, latest) = (
    (next_id-fresh d.tasks, ids),
    ((λ i. absurd (not-In "BACKLOG" closing_statuses refl i)), timed),
    Tells-inserted d tells,
    latest,
  )

-- A write, or the making of a task.
pub data Change (d : Db) : Db → Type 0 where
  wrote : (e : Db) → Write d e → Change d e
  made :
      (env : Env) (blank : Task) (day : String) (r : CreateTaskRequest) (res : Resolved)
      (workflow stamp : String) (was_done : Bool)
      → Change d (
          inserted env blank day r res workflow stamp
            (cascaded env blank day r res workflow stamp was_done d))

pub Change-Sound : (d e : Db) → Change d e → Sound d → Sound e
Change-Sound d e (wrote _ write) sound = Write-Sound d e write sound
Change-Sound d e (made env blank day r res workflow stamp b) sound =
    inserted-Sound env blank day r res workflow stamp _
      (Write-Sound d _ (cascaded-Write env blank day r res workflow stamp b d) sound)

-- No row of tasks is dropped or renumbered.
pub Change-ids :
    (d e : Db) → Change d e → (n : ℕ) → In n (map id_of d.tasks) → In n (map id_of e.tasks)
unfolding inserted
Change-ids d e (wrote _ write) n i = subst (In n) (sym (Write-ids d e write)) i
Change-ids d e (made env blank day r res workflow stamp b) n i =
    let write = cascaded-Write env blank day r res workflow stamp b d in
    inr (subst (In n) (sym (Write-ids d _ write)) i)

-- The audit trail only grows.
pub Change-audit : (d e : Db) → Change d e → (rows : List Audit) × (e.audit ≡ rows ++ d.audit)
unfolding inserted
Change-audit d e (wrote _ write) = Write-audit d e write
Change-audit d e (made env blank day r res workflow stamp b) =
    let (rows, p) = Write-audit d _ (cascaded-Write env blank day r res workflow stamp b d) in
    let c = cascaded env blank day r res workflow stamp b d in
    let row =
      created_row (next_id c.tasks) r.agent (create_command res.source (parent_of r)) stamp in
    (row ∷ rows, ap (λ a. row ∷ a) p)
