-- ===== src/Store/Writes/Keeps.antt =====
-- What every operation keeps of the tables.
use backlog_server.Prelude.{
  ℕ, String, ◌≡◌, ◌≢◌, refl, sym, ap, ◌∙◌, inl, inr, none, List, [], ◌∷◌, ◌++◌, map, eqb,
  Bool-cases, In, All,
}
use mathlib.Core.Path.{subst}
use backlog_server.Scoring.Types as Types
use backlog_server.Store.Db.{Task, Audit, Db, update_where}
use backlog_server.Store.Tables.{id_of, ids-map, at_row, update_where-map, at_row-keeps}
use backlog_server.Store.Rescore.{persist}
use backlog_server.Store.Review.{review_audit}
use backlog_server.Store.Review.Latest.{filed, UniqueLatest, filed-UniqueLatest}
use backlog_server.Store.Writes.{closing_statuses, Timed, Write, nothing, one_row, close, review}

-- The columns that a rescore leaves alone.
pub persist-keeps :
    (stamp : String) (vs : List Types.Task) (t : Task)
    → ((persist stamp vs t).id ≡ t.id)
      × ((persist stamp vs t).status ≡ t.status)
      × ((persist stamp vs t).closed_at ≡ t.closed_at)
unfolding persist
persist-keeps stamp [] t = (refl, refl, refl)
persist-keeps stamp (v ∷ vs) t = elim (Bool-cases (eqb v.id t.id)) [
  | inl y ↦ rw y (refl, refl, refl)
  | inr n ↦ rw n (persist-keeps stamp vs t)
]

ids-applied :
    (n : ℕ) (f : Task → Task) (ts : List Task)
    → ((t : Task) → (f t).id ≡ t.id)
    → map id_of (update_where n f ts) ≡ map id_of ts
ids-applied n f ts keeps =
    ap (map id_of) (update_where-map n f ts) ∙ ids-map (at_row n f) (at_row-keeps n f keeps) ts

-- No operation adds, drops, renumbers or reorders a row of tasks.
pub Write-ids : (d e : Db) → Write d e → map id_of e.tasks ≡ map id_of d.tasks
unfolding filed
Write-ids d e nothing = refl
Write-ids d e (one_row n f rows tidy) = ids-applied n f d.tasks tidy.keeps_id
Write-ids d e (close n f rows scorer stamp tidy) =
    ids-map _ (λ t. (persist-keeps stamp _ t).0) (update_where n f d.tasks)
    ∙ ids-applied n f d.tasks tidy.keeps_id
Write-ids d e (review env n caller reviewer verdict summary agg stamp) = refl

-- The audit trail only grows.
pub Write-audit : (d e : Db) → Write d e → (rows : List Audit) × (e.audit ≡ rows ++ d.audit)
unfolding filed
Write-audit d e nothing = ([], refl)
Write-audit d e (one_row n f rows tidy) = (rows, refl)
Write-audit d e (close n f rows scorer stamp tidy) = (rows, refl)
Write-audit d e (review env n caller reviewer verdict summary agg stamp) =
    (review_audit env n caller reviewer verdict summary agg stamp ∷ [], refl)

pub Write-UniqueLatest : (d e : Db) → Write d e → UniqueLatest d.reviews → UniqueLatest e.reviews
Write-UniqueLatest d e nothing u = u
Write-UniqueLatest d e (one_row n f rows tidy) u = u
Write-UniqueLatest d e (close n f rows scorer stamp tidy) u = u
Write-UniqueLatest d e (review env n caller reviewer verdict summary agg stamp) u =
    filed-UniqueLatest env n caller reviewer verdict summary agg stamp d u

Timed-updated :
    (n : ℕ) (f : Task → Task) (ts : List Task)
    → ((t : Task) → Timed t → Timed (f t))
    → All Timed ts
    → All Timed (update_where n f ts)
unfolding update_where
Timed-updated n f [] keeps h = tt
Timed-updated n f (t ∷ ts) keeps h = (
  elim (Bool-cases (eqb t.id n)) [ inl y ↦ rw y (keeps t h.0) | inr z ↦ rw z (h.0) ],
  Timed-updated n f ts keeps h.1,
)

Timed-persist :
    (stamp : String) (vs : List Types.Task) (ts : List Task)
    → All Timed ts
    → All Timed (map (persist stamp vs) ts)
Timed-persist stamp vs [] h = tt
Timed-persist stamp vs (t ∷ ts) h =
    let (_, p, q) = persist-keeps stamp vs t in
    (
      subst (λ s. In s closing_statuses → (persist stamp vs t).closed_at ≢ none) (sym p)
          (subst (λ c. In t.status closing_statuses → c ≢ none) (sym q) h.0),
      Timed-persist stamp vs ts h.1,
    )

-- A task in a closing status keeps the time at which it was closed.
pub Write-Timed : (d e : Db) → Write d e → All Timed d.tasks → All Timed e.tasks
unfolding filed
Write-Timed d e nothing h = h
Write-Timed d e (one_row n f rows tidy) h = Timed-updated n f d.tasks tidy.keeps_time h
Write-Timed d e (close n f rows scorer stamp tidy) h =
    Timed-persist stamp _ _ (Timed-updated n f d.tasks tidy.keeps_time h)
Write-Timed d e (review env n caller reviewer verdict summary agg stamp) h = h
