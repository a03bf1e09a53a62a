-- ===== src/Store/Tables.antt =====
-- Lemmas on the table of tasks: lookups and rows behind an UPDATE of one row.
use backlog_server.Prelude.{
  ℕ, true, false, ◌≡◌, ◌≢◌, refl, sym, ap, ◌∙◌, inl, inr, none, some, List, [], ◌∷◌, map,
  if◌then◌else◌, eqb, eqb_iff, arith, Bool-cases, In,
}
use mathlib.Core.Path.{ap₂}
use backlog_server.Store.Db.{Task, find_task, update_where}

abbrev pub id_of : Task → ℕ
id_of t = t.id

-- The primary key: two rows of one id are one row.
abbrev pub KeyedById : List Task → Type 0
KeyedById ts = (t u : Task) → In t ts → In u ts → t.id ≡ u.id → t ≡ u

pub In-update_where :
    (n : ℕ) (f : Task → Task) (ts : List Task) (u : Task)
    → In u (update_where n f ts)
    → (t : Task) × In t ts × ((if eqb t.id n then f t else t) ≡ u)
unfolding update_where
In-update_where n f [] u i = elim i [ ]
In-update_where n f (t ∷ ts) u (inl e) = (t, inl refl, e)
In-update_where n f (t ∷ ts) u (inr i) = let (x, j, e) = In-update_where n f ts u i in (x, inr j, e)

module _ (n : ℕ) (f : Task → Task) (keeps : (t : Task) → (f t).id ≡ t.id) where
  id-updated : (t u : Task) → (if eqb t.id n then f t else t) ≡ u → u.id ≡ t.id
  id-updated t u e = elim (Bool-cases (eqb t.id n)) [
    | inl y ↦ sym (ap id_of (rw y at e)) ∙ keeps t
    | inr z ↦ sym (ap id_of (rw z at e))
  ]

  pub update_where-KeyedById : (ts : List Task) → KeyedById ts → KeyedById (update_where n f ts)
  update_where-KeyedById ts keyed u v i j e =
      let (t, k, p) = In-update_where n f ts u i in
      let (s, l, q) = In-update_where n f ts v j in
      let same = keyed t s k l (sym (id-updated t u p) ∙ e ∙ id-updated s v q) in
      sym p ∙ ap (λ (x : Task). if eqb x.id n then f x else x) same ∙ q

  -- No row is added, dropped or renumbered.
  pub ids-update_where : (ts : List Task) → map id_of (update_where n f ts) ≡ map id_of ts
  unfolding update_where
  ids-update_where [] = refl
  ids-update_where (t ∷ ts) = ap₂ ◌∷◌ (id-updated t _ refl) (ids-update_where ts)

  -- The row of `n` is changed.
  pub find_task-updated :
      (ts : List Task) (t : Task)
      → find_task n ts ≡ some t
      → find_task n (update_where n f ts) ≡ some (f t)
  unfolding update_where find_task
  find_task-updated [] t e = absurd (cc)
  find_task-updated (u ∷ us) t e = elim (Bool-cases (eqb u.id n)) [
    | inl y ↦
        let e' : some u ≡ some t = rw y at e in
        let same : u ≡ t = cc in
        let there : eqb (f u).id n ≡ true = ap (λ k. eqb k n) (keeps u) ∙ y in
        rw (y, there) (ap (λ x. some (f x)) same)
    | inr z ↦ rw (z, z) (find_task-updated us t (rw z at e))
  ]

  pub find_task-missing : (ts : List Task) → find_task n ts ≡ none → update_where n f ts ≡ ts
  unfolding update_where find_task
  find_task-missing [] e = refl
  find_task-missing (u ∷ us) e = elim (Bool-cases (eqb u.id n)) [
    | inl y ↦ let e' : some u ≡ none = rw y at e in absurd (cc)
    | inr z ↦ rw z (ap (λ rest. u ∷ rest) (find_task-missing us (rw z at e)))
  ]

  -- No other row is.
  pub find_task-other :
      (m : ℕ) (ts : List Task) → m ≢ n → find_task m (update_where n f ts) ≡ find_task m ts
  unfolding update_where find_task
  find_task-other m [] d = refl
  find_task-other m (u ∷ us) d =
      let rest = find_task-other m us d in
      elim (Bool-cases (eqb u.id n)) [
        | inl y ↦
            let not_m : eqb u.id m ≡ false = ground (arith, eqb_iff u.id n, eqb_iff u.id m) in
            let there : eqb (f u).id m ≡ false = ap (λ k. eqb k m) (keeps u) ∙ not_m in
            rw (y, there, not_m) rest
        | inr z ↦ rw z (ap (λ o. if eqb u.id m then some u else o) rest)
      ]

pub id-find_task : (m : ℕ) (ts : List Task) (t : Task) → find_task m ts ≡ some t → t.id ≡ m
unfolding find_task
id-find_task m [] t e = absurd (cc)
id-find_task m (u ∷ us) t e = elim (Bool-cases (eqb u.id m)) [
  | inl y ↦
      let e' : some u ≡ some t = rw y at e in
      let same : u ≡ t = cc in sym (ap id_of same) ∙ (eqb_iff u.id m).0 y
  | inr z ↦ id-find_task m us t (rw z at e)
]

-- A row that is found behind a change of every row comes from a row that was found.
module _ (g : Task → Task) (keeps : (t : Task) → (g t).id ≡ t.id) where
  pub find_task-map :
      (m : ℕ) (ts : List Task) (u : Task)
      → find_task m (map g ts) ≡ some u
      → (t : Task) × (find_task m ts ≡ some t) × (g t ≡ u)
  unfolding find_task
  find_task-map m [] u e = absurd (cc)
  find_task-map m (t ∷ ts) u e = elim (Bool-cases (eqb t.id m)) [
    | inl y ↦
        let there : eqb (g t).id m ≡ true = ap (λ k. eqb k m) (keeps t) ∙ y in
        let e' : some (g t) ≡ some u = rw there at e in rw y (t, refl, cc)
    | inr z ↦
        let there : eqb (g t).id m ≡ false = ap (λ k. eqb k m) (keeps t) ∙ z in
        let (x, p, q) = find_task-map m ts u (rw there at e) in rw z (x, p, q)
  ]

  pub ids-map : (ts : List Task) → map id_of (map g ts) ≡ map id_of ts
  ids-map [] = refl
  ids-map (t ∷ ts) = ap₂ ◌∷◌ (keeps t) (ids-map ts)

abbrev pub at_row : ℕ → (Task → Task) → Task → Task
at_row n f t = if eqb t.id n then f t else t

pub update_where-map :
    (n : ℕ) (f : Task → Task) (ts : List Task) → update_where n f ts ≡ map (at_row n f) ts
unfolding update_where
update_where-map n f [] = refl
update_where-map n f (t ∷ ts) = ap (λ rest. at_row n f t ∷ rest) (update_where-map n f ts)

pub at_row-keeps :
    (n : ℕ) (f : Task → Task)
    → ((t : Task) → (f t).id ≡ t.id)
    → (t : Task) → (at_row n f t).id ≡ t.id
at_row-keeps n f keeps t = id-updated n f keeps t (at_row n f t) refl
