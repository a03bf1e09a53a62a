-- ===== src/Store/Session/Coherent.antt =====
-- Reads through the cache: what they return is the table's row, and the methods keep it so.
use backlog_server.Prelude.{
  ℕ, ◌+◌, ◌≤◌, String, Bool, not, ◌≡◌, refl, sym, ◌∙◌, inl, inr, Option, none, some, if◌then◌else◌,
  arith, Bool-cases,
}
use mathlib.Core.Path.{subst}
use text.Mathlib.TextLemmas.{append_cancel_left}
use backlog_server.Prelude.Decimal.{decimal, decimal_injective}
use backlog_server.Exec.{Exec, Outcome, ok, no_rows, failed, pure, continue, ◌>>=◌}
use backlog_server.Cache
use backlog_server.Cache.{Cache}
use backlog_server.Cache.Coherence.{
  Holds, Fresh, Room, get-Holds, set-Holds, bump-Holds, set-Fresh, bump-Fresh, version_of-set,
  bump-Room,
}
use backlog_server.Store.Db.{Task, Db, find_task}
use backlog_server.Store.Session.{
  Env, World, Conn, tick, task_suffix, get_task, fetch_task, cache_or_fetch, fill, read_through,
  refetch, or_else, change, row_or_none,
}
use backlog_server.Store.Session.Endings.{change-cases}
use backlog_server.Store.Session.Methods.{guarded}

-- An entry is the row of its task.
abbrev pub IsRow : Db → String → Task → Type 0
IsRow d k t = (n : ℕ) → k ≡ task_suffix n → find_task n d.tasks ≡ some t

abbrev CoherentAt : ℕ → Db → Option (Cache Task) → Type 0
CoherentAt k d c = Holds (IsRow d) c × Fresh c × Room k c

-- Every entry of the current version is the row of its task, and `k` more bumps do not wrap.
abbrev pub Coherent : ℕ → World → Type 0
Coherent k w = CoherentAt k w.db w.cache

pub same-Coherent :
    (k : ℕ) (w x : World) → x.db ≡ w.db → x.cache ≡ w.cache → Coherent k w → Coherent k x
same-Coherent k w x p q c =
    subst (λ d. CoherentAt k d x.cache) (sym p) (subst (CoherentAt k w.db) (sym q) c)

pub less_room : (k : ℕ) (w : World) → Coherent (k + 1) w → Coherent k w
less_room k w (h, f, r) = (h, f, omega (arith, r))

pub room-Coherent : (j k : ℕ) (w : World) → k ≤ j → Coherent j w → Coherent k w
room-Coherent j k w le (h, f, r) = (h, f, omega (arith, r, le))

task_suffix_injective : (m n : ℕ) → task_suffix m ≡ task_suffix n → m ≡ n
task_suffix_injective m n e =
    decimal_injective m n (append_cancel_left "task:" (decimal m) (decimal n) e)

-- A commit's world behind the bump: whatever it wrote, nothing stale is left to hit.
pub bumped-Coherent :
    (k : ℕ) (w : World) (d : Db) (m : ℕ)
    → Coherent (k + 1) w
    → Coherent k (record { db = d; cache = Cache.bump w.cache; calls = m })
bumped-Coherent k w d m (h, f, r) =
    let one : Room 1 w.cache = omega (arith, r) in
    (bump-Holds (IsRow d) w.cache f one, bump-Fresh w.cache f one, bump-Room k w.cache r)

module _ (env : Env) (n k : ℕ) where
  -- Kept, with a row where there is one.
  abbrev Fetched : World → Outcome Task × World → Type 0
  Fetched w r = Coherent k r.1 × ((t : Task) → r.0 ≡ ok t → find_task n w.db.tasks ≡ some t)

  fill_keeps :
      (w : World) (r : Outcome Task × World)
      → Coherent k w
      → r.1.db ≡ w.db
      → r.1.cache ≡ w.cache
      → ((t : Task) → r.0 ≡ ok t → find_task n w.db.tasks ≡ some t)
      → Fetched w (fill env (task_suffix n) r)
  unfolding fill
  fill_keeps w (no_rows, x) c p q row = (same-Coherent k w x p q c, row)
  fill_keeps w (failed e, x) c p q row = (same-Coherent k w x p q c, row)
  fill_keeps w (ok t, x) c p q row =
      let (h, f, r) = same-Coherent k w x p q c in
      let up = not (env.fails x.calls) in
      (
        (
          set-Holds (IsRow x.db) up x.cache (task_suffix n) t h (λ m e.
              subst (λ j. find_task j x.db.tasks ≡ some t) (task_suffix_injective n m e)
                (subst (λ (d : Db). find_task n d.tasks ≡ some t) (sym p) (row t refl))),
          set-Fresh up x.cache (task_suffix n) t f,
          rw (version_of-set up x.cache (task_suffix n) t) r,
        ),
        row,
      )

  fetch_task_row :
      (w : World) (t : Task) → (fetch_task env n w).0 ≡ ok t → find_task n w.db.tasks ≡ some t
  unfolding fetch_task
  fetch_task_row w t e = ground (arith, go (find_task n w.db.tasks) t)
    where
      go : (o : Option Task) (t : Task) → row_or_none o ≡ ok t → o ≡ some t
      go none t e = absurd (cc)
      go (some u) t e = cc

  fetch_task_same :
      (w : World) → ((fetch_task env n w).1.db ≡ w.db) × ((fetch_task env n w).1.cache ≡ w.cache)
  unfolding fetch_task
  fetch_task_same w = ground arith

  -- GetTask returns the table's row, and keeps the cache coherent.
  pub get_task-Coherent : (w : World) → Coherent k w → Fetched w (get_task env n w)
  unfolding get_task cache_or_fetch read_through
  get_task-Coherent w c = go (Cache.get (not (env.fails w.calls)) w.cache (task_suffix n)) refl
    where
      go :
          (o : Option Task)
          → Cache.get (not (env.fails w.calls)) w.cache (task_suffix n) ≡ o
          → Fetched w (read_through env o (task_suffix n) (fetch_task env n) (tick w))
      go (some t) e =
          let row =
            get-Holds (IsRow w.db) (not (env.fails w.calls)) w.cache (task_suffix n) t c.0 e n
              refl in
          (c, λ u p. row ∙ cc)
      go none e =
          let (p, q) = fetch_task_same (tick w) in
          fill_keeps w (fetch_task env n (tick w)) c p q (fetch_task_row (tick w))

  or_else-Coherent :
      (t : Task) (r : Outcome Task × World) → Coherent k r.1 → Coherent k (or_else t r).1
  unfolding or_else
  or_else-Coherent t (ok u, x) c = c
  or_else-Coherent t (no_rows, x) c = c
  or_else-Coherent t (failed e, x) c = c

  pub change-Coherent :
      (body : String → Exec Conn (Unit {0})) (t : Task) (w : World)
      → Coherent (k + 1) w
      → Coherent k (change env body n t w).1
  change-Coherent body t w c = elim (change-cases env body n t w) [
    | inl (a, m, e, p) ↦
        subst (λ r. Coherent k r.1) (sym p)
          (unfold refetch in
            or_else-Coherent t _ (get_task-Coherent _ (bumped-Coherent k w a.view m c)).0)
    | inr (o, m, f, p) ↦ subst (λ r. Coherent k r.1) (sym p) (less_room k w c)
  ]

pub settled :
    {R : Type 0} (done : Task → Task → R) (k : ℕ) (t : Task) (r : Outcome Task × World)
    → Coherent k r.1
    → Coherent k (continue r (λ u. pure (done t u))).1
settled done k t (ok u, x) c = c
settled done k t (no_rows, x) c = c
settled done k t (failed e, x) c = c

-- A method on one task, whichever way it ends.
module _ (env : Env) {R : Type 0} (n : ℕ) (bad : Task → Bool) (reject : Task → R)
    (done : Task → Task → R) (body : Task → String → Exec Conn (Unit {0}))
    (fallback : Task → Task) where
  pub guarded-Coherent :
      (k : ℕ) (w : World)
      → Coherent (k + 1) w
      → Coherent k (guarded env n bad reject done body fallback w).1
  guarded-Coherent k w c = go (get_task env n w) (get_task-Coherent env n (k + 1) w c).0
    where
      go :
          (r : Outcome Task × World)
          → Coherent (k + 1) r.1
          → Coherent k
              (continue r (λ t.
                if bad t
                then pure (reject t)
                else (change env (body t) n (fallback t) >>= λ u. pure (done t u)))).1
      go (no_rows, x) c = less_room k x c
      go (failed e, x) c = less_room k x c
      go (ok t, x) c = elim (Bool-cases (bad t)) [
        | inl y ↦ rw y (less_room k x c)
        | inr z ↦ rw z (
            settled done k t (change env (body t) n (fallback t) x)
              (change-Coherent env n k (body t) (fallback t) x c))
      ]
