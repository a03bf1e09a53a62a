-- ===== src/Store/Session/Reads.antt =====
-- Calls that only read: what they return, when they return, is a function of the tables.
use backlog_server.Prelude.{false, ◌≡◌, refl, ap, ◌∙◌, ◌⊎◌, inl, inr}
use backlog_server.Exec.{Exec, Outcome, ok, no_rows, failed, pure, continue, ◌>>=◌}
use backlog_server.Store.Db.{Db}
use backlog_server.Store.Session.{World, succeeded}

module _ {A : Type 0} where
  -- An error, or the value `v` of the tables; the tables and the cache stay.
  abbrev pub ReadsAt : (Db → A) → World → Outcome A × World → Type 0
  ReadsAt v w r =
      (r.1.db ≡ w.db) × (r.1.cache ≡ w.cache) × ((succeeded r.0 ≡ false) ⊎ (r.0 ≡ ok (v w.db)))

  abbrev pub Reads : Exec World A → (Db → A) → Type 0
  Reads m v = (w : World) → ReadsAt v w (m w)

  pub Reads-pure : (a : A) → Reads (pure a) (λ _. a)
  Reads-pure a w = (refl, refl, inr refl)

module _ {A B : Type 0} where
  pub Reads-bind :
      (m : Exec World A) (f : A → Exec World B) (v : Db → A) (g : A → Db → B)
      → Reads m v
      → ((a : A) → Reads (f a) (g a))
      → Reads (m >>= f) (λ d. g (v d) d)
  Reads-bind m f v g hm hf w = go (m w) (hm w)
    where
      go : (r : Outcome A × World) → ReadsAt v w r → ReadsAt (λ d. g (v d) d) w (continue r f)
      go (no_rows, x) (same, held, _) = (same, held, inl refl)
      go (failed e, x) (same, held, _) = (same, held, inl refl)
      go (ok a, x) (same, held, inl bad) = absurd (cc)
      go (ok a, x) (same, held, inr e) =
          let (next, held', result) = hf a x in
          let a_is : a ≡ v w.db = cc in
          (
            next ∙ same,
            held' ∙ held,
            elim result [
              | inl bad ↦ inl bad
              | inr p ↦ inr (p ∙ ap (λ d. ok (g a d)) same ∙ ap (λ x. ok (g x w.db)) a_is)
            ],
          )
