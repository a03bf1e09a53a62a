-- ===== src/Store/Rescore/Rows.antt =====
-- store/rescore.go: which rows are loaded, what their priors are, and which are written.
use backlog_server.Prelude.{
  ℕ, String, Bool, true, false, ◌≡◌, ◌≢◌, refl, ap, ◌∙◌, ◌⊎◌, inl, inr, Option, none, some, List,
  [], ◌∷◌, map, eqb, eqb_iff, filter_by, In, In-filter_by, In-map, arith, Bool-cases,
}
use mathlib.Core.Path.{ap₂}
use backlog_server.Prelude.Assoc.{find, find-put, put}
use backlog_server.Float.{Float64}
use backlog_server.Scoring.Types as Types
use backlog_server.Store.Db.{Task}
use backlog_server.Store.Rescore.{
  Scorer, is_open, insert_by_id, sort_by_id, scoring_task, load_tasks_for_scoring, Priors, priors,
  int_slice_equal, persist, moved,
}

In-insert_by_id :
    (t u : Task) (us : List Task)
    → (In u (insert_by_id t us) → (t ≡ u) ⊎ In u us)
      × ((t ≡ u) ⊎ In u us → In u (insert_by_id t us))
unfolding insert_by_id
In-insert_by_id t u [] = (λ i. i, λ i. i)
In-insert_by_id t u (x ∷ us) = let (f, g) = In-insert_by_id t u us in ground (arith, f, g)

In-sort_by_id :
    (u : Task) (ts : List Task)
    → (In u (sort_by_id ts) → In u ts) × (In u ts → In u (sort_by_id ts))
unfolding sort_by_id
In-sort_by_id u [] = (λ i. i, λ i. i)
In-sort_by_id u (t ∷ ts) =
    let (f, g) = In-sort_by_id u ts in
    let (h, k) = In-insert_by_id t u (sort_by_id ts) in ground (arith, f, g, h, k)

pub In-filter_by-intro :
    {A : Type 0} (p : A → Bool) (xs : List A) (a : A) → In a xs → p a ≡ true → In a (filter_by p xs)
In-filter_by-intro p [] a i e = i
In-filter_by-intro p (x ∷ xs) a (inl q) e = rw (ap p q ∙ e) (inl q)
In-filter_by-intro p (x ∷ xs) a (inr i) e =
    let rest = In-filter_by-intro p xs a i e in
    elim (Bool-cases (p x)) [ inl y ↦ rw y (inr rest) | inr n ↦ rw n rest ]

pub In-map-elim :
    {A B : Type 0} (f : A → B) (xs : List A) (b : B)
    → In b (map f xs)
    → (a : A) × In a xs × (f a ≡ b)
In-map-elim f [] b i = elim i [ ]
In-map-elim f (x ∷ xs) b (inl e) = (x, inl refl, e)
In-map-elim f (x ∷ xs) b (inr i) = let (a, j, e) = In-map-elim f xs b i in (a, inr j, e)

-- The rows that are loaded are the open ones.
pub loaded_from :
    (closed : ℕ) (ts : List Task) (s : Types.Task)
    → In s (load_tasks_for_scoring closed ts)
    → (t : Task) × In t ts × (is_open closed t ≡ true) × (scoring_task t ≡ s)
unfolding load_tasks_for_scoring
loaded_from closed ts s i =
    let (t, j, e) = In-map-elim scoring_task (sort_by_id (filter_by (is_open closed) ts)) s i in
    let (k, o) =
      In-filter_by (is_open closed) ts t ((In-sort_by_id t (filter_by (is_open closed) ts)).0 j) in
    (t, k, o, e)

pub loaded_all :
    (closed : ℕ) (ts : List Task) (t : Task)
    → In t ts
    → is_open closed t ≡ true
    → In (scoring_task t) (load_tasks_for_scoring closed ts)
unfolding load_tasks_for_scoring
loaded_all closed ts t i o = In-map scoring_task (sort_by_id (filter_by (is_open closed) ts)) t (
    (In-sort_by_id t (filter_by (is_open closed) ts)).1
      (In-filter_by-intro (is_open closed) ts t i o))

-- Every loaded task of id `k` has the prior `v`.
abbrev pub HasPrior : ℕ → Float64 × List ℕ → List Types.Task → Type 0
HasPrior k v ts = (s : Types.Task) → In s ts → s.id ≡ k → (s.effective_score, s.blocked_by) ≡ v

pub find-priors :
    (k : ℕ) (v : Float64 × List ℕ) (ts : List Types.Task) (m : Priors)
    → HasPrior k v ts
    → ((s : Types.Task) × In s ts × (s.id ≡ k)) ⊎ (find k m ≡ some v)
    → find k (priors ts m) ≡ some v
unfolding priors
find-priors k v [] m h (inl (s, i, e)) = elim i [ ]
find-priors k v [] m h (inr e) = e
find-priors k v (s ∷ ts) m h f =
    let rest =
      find-priors k v ts (put s.id (s.effective_score, s.blocked_by) m) (λ u i. h u (inr i)) in
    let put_eq = find-put s.id k (s.effective_score, s.blocked_by) m in
    elim (Bool-cases (eqb s.id k)) [
      | inl y ↦ rest (inr (put_eq ∙ rw y (ap some (h s (inl refl) ((eqb_iff s.id k).0 y)))))
      | inr n ↦ elim f [
        | inl (u, i, e) ↦ elim i [
          | inl q ↦ absurd (other s u k n q e)
          | inr j ↦ rest (inl (u, j, e))
        ]
        | inr e ↦ rest (inr (put_eq ∙ rw n e))
      ]
    ]
  where
    other : (s u : Types.Task) (k : ℕ) → eqb s.id k ≡ false → s ≡ u → u.id ≡ k → ⊥
    other s u k n q e = let yes = (eqb_iff s.id k).1 (ap (λ (x : Types.Task). x.id) q ∙ e) in cc

int_slice_equal_sound : (xs ys : List ℕ) → int_slice_equal xs ys ≡ true → xs ≡ ys
unfolding int_slice_equal
int_slice_equal_sound [] [] e = refl
int_slice_equal_sound [] (b ∷ bs) e = absurd (cc)
int_slice_equal_sound (a ∷ xs) [] e = absurd (cc)
int_slice_equal_sound (a ∷ xs) (b ∷ bs) e =
    let same = int_slice_equal_sound xs bs (ground arith) in
    let first : a ≡ b = ground (arith, eqb_iff a b) in ap₂ ◌∷◌ first same

-- A row is written from a task of its id, or there is none and it stays.
abbrev pub Written : String → List Types.Task → Task → Type 0
Written stamp vs t =
    ((v : Types.Task) × In v vs × (v.id ≡ t.id) × ((persist stamp vs t).blocked_by ≡ v.blocked_by))
    ⊎ (((v : Types.Task) → In v vs → v.id ≢ t.id) × (persist stamp vs t ≡ t))

pub persist-Written : (stamp : String) (vs : List Types.Task) (t : Task) → Written stamp vs t
unfolding persist
persist-Written stamp [] t = inr (λ v i. elim i [ ], refl)
persist-Written stamp (v ∷ vs) t = elim (Bool-cases (eqb v.id t.id)) [
  | inl y ↦ inl (v, inl refl, (eqb_iff v.id t.id).0 y, rw y refl)
  | inr n ↦ elim (persist-Written stamp vs t) [
    | inl (w, i, e, p) ↦ inl (w, inr i, e, rw n p)
    | inr (f, p) ↦ inr (λ w i e. elim i [ inl q ↦ differ v w t.id n q e | inr j ↦ f w j e ], rw n p)
  ]
]
  where
    differ : (s u : Types.Task) (k : ℕ) → eqb s.id k ≡ false → s ≡ u → u.id ≡ k → ⊥
    differ s u k n q e = let yes = (eqb_iff s.id k).1 (ap (λ (x : Types.Task). x.id) q ∙ e) in cc

pub moved-none :
    (scorer : Scorer) (old : Float64 × List ℕ) (o : Option (Float64 × List ℕ)) (v : Types.Task)
    → o ≡ some old
    → moved scorer.ops o v ≡ false
    → v.blocked_by ≡ old.1
unfolding moved
moved-none scorer old none v e m = absurd (cc)
moved-none scorer old (some (score, blocked)) v e m =
    let same : blocked ≡ old.1 = cc in
    int_slice_equal_sound v.blocked_by blocked (ground arith) ∙ same
