-- ===== src/Scoring/Reachability/Paths.antt =====
-- The search of reachability.go ends, and finds exactly the tasks at the end of a path.
use backlog_server.Prelude.{
  ℕ, zero, suc, ◌+◌, ◌≤◌, ◌<◌, true, false, ◌≡◌, refl, sym, ◌⊎◌, inl, inr, some, List, [], ◌∷◌, eqb,
  eqb_iff, length, In, Bool-cases, arith, ◌↔◌,
}
use backlog_server.Scoring.Reachability.{
  Graph, blocks, mem, push, search_from, unseen_edges, reachable,
}
use mathlib.Core.Path.{subst}

-- A path of one edge or more.
pub data Leads (g : Graph) : ℕ → ℕ → Type 0 where
  edge : {n m : ℕ} → In m (blocks g n) → Leads g n m
  via : {n m k : ℕ} → In m (blocks g n) → Leads g m k → Leads g n k

pub mem-In : (n : ℕ) (ms : List ℕ) → mem n ms ≡ true → In n ms
unfolding mem
mem-In n [] h = cc
mem-In n (m ∷ ms) h = elim (Bool-cases (eqb m n)) [
  | inl e ↦ inl ((eqb_iff m n).0 e)
  | inr d ↦ inr (mem-In n ms (rw d at h))
]

pub In-mem : (n : ℕ) (ms : List ℕ) → In n ms → mem n ms ≡ true
unfolding mem
In-mem n [] i = elim i [ ]
In-mem n (m ∷ ms) (inl e) = rw ((eqb_iff m n).1 e)
In-mem n (m ∷ ms) (inr i) = ground (arith, In-mem n ms i)

length-push : (ns stack : List ℕ) → length (push ns stack) ≡ length ns + length stack
unfolding push
length-push [] stack = omega arith
length-push (n ∷ ns) stack = omega (arith, length-push ns (n ∷ stack))

In-push : (n : ℕ) (ns stack : List ℕ) → In n (push ns stack) → In n ns ⊎ In n stack
unfolding push
In-push n [] stack i = inr i
In-push n (m ∷ ns) stack i = elim (In-push n ns (m ∷ stack) i) [
  | inl j ↦ inl (inr j)
  | inr (inl e) ↦ inl (inl e)
  | inr (inr j) ↦ inr j
]

In-push_right : (n : ℕ) (ns stack : List ℕ) → In n stack → In n (push ns stack)
unfolding push
In-push_right n [] stack i = i
In-push_right n (m ∷ ns) stack i = In-push_right n ns (m ∷ stack) (inr i)

In-push_left : (n : ℕ) (ns stack : List ℕ) → In n ns → In n (push ns stack)
unfolding push
In-push_left n [] stack i = elim i [ ]
In-push_left n (m ∷ ns) stack (inl e) = In-push_right n ns (m ∷ stack) (inl e)
In-push_left n (m ∷ ns) stack (inr i) = In-push_left n ns (m ∷ stack) i

-- A task's edges leave the count when it is seen.
unseen_edges-cons_le :
    (g : Graph) (n : ℕ) (seen : List ℕ) → unseen_edges g (n ∷ seen) ≤ unseen_edges g seen
unfolding unseen_edges mem
unseen_edges-cons_le [] n seen = omega arith
unseen_edges-cons_le ((m, ms) ∷ g) n seen = ground (arith, unseen_edges-cons_le g n seen)

unseen_edges-cons :
    (g : Graph) (n : ℕ) (seen : List ℕ)
    → mem n seen ≡ false
    → unseen_edges g (n ∷ seen) + length (blocks g n) ≤ unseen_edges g seen
unfolding unseen_edges mem
unseen_edges-cons [] n seen h = omega arith
unseen_edges-cons ((m, ms) ∷ g) n seen h = elim (Bool-cases (eqb m n)) [
  | inl e ↦ rw (e, (eqb_iff m n).0 e) (ground (arith, unseen_edges-cons_le g n seen))
  | inr d ↦ ground (arith, unseen_edges-cons g n seen h)
]

-- With a round for each entry of the stack and each edge not yet followed, the search ends.
search_from_total :
    (fuel : ℕ) (g : Graph) (stack seen : List ℕ)
    → length stack + unseen_edges g seen < fuel
    → (r : List ℕ) × (search_from fuel g stack seen ≡ some r)
unfolding search_from
search_from_total zero g stack seen h = elim h [ ]
search_from_total (suc fuel) g [] seen h = (seen, refl)
search_from_total (suc fuel) g (n ∷ stack) seen h = elim (Bool-cases (mem n seen)) [
  | inl old ↦ rw old (search_from_total fuel g stack seen (omega arith))
  | inr new ↦ rw new (
      search_from_total fuel g (push (blocks g n) stack) (n ∷ seen)
        (omega (arith, length-push (blocks g n) stack, unseen_edges-cons g n seen new)))
]

-- The search returns on every graph, cycles included: one round for each edge is enough.
pub reachable_total : (g : Graph) (start : ℕ) → (r : List ℕ) × (reachable g start ≡ some r)
unfolding reachable
reachable_total g start =
    search_from_total (suc (length (blocks g start) + unseen_edges g [])) g
      (push (blocks g start) []) [] (omega (arith, length-push (blocks g start) []))

-- Whatever holds of the first stack and passes along edges holds of all that is found.
module _ (g : Graph) (P : ℕ → Type 0) (step : (n m : ℕ) → P n → In m (blocks g n) → P m) where
  search_from_sound :
      (fuel : ℕ) (stack seen r : List ℕ)
      → ((n : ℕ) → In n stack → P n)
      → ((n : ℕ) → In n seen → P n)
      → search_from fuel g stack seen ≡ some r
      → (n : ℕ) → In n r
      → P n
  unfolding search_from
  search_from_sound zero stack seen r a b h n i = absurd (cc)
  search_from_sound (suc fuel) [] seen r a b h n i = let e : r ≡ seen = cc in b n (subst (In n) e i)
  search_from_sound (suc fuel) (m ∷ stack) seen r a b h n i = elim (Bool-cases (mem m seen)) [
    | inl old ↦ search_from_sound fuel stack seen r (λ k j. a k (inr j)) b (rw old at h) n i
    | inr new ↦
        search_from_sound fuel (push (blocks g m) stack) (m ∷ seen) r
          (λ k j. elim (In-push k (blocks g m) stack j) [
            | inl q ↦ step m k (a m (inl refl)) q
            | inr q ↦ a k (inr q)
          ])
          (λ k j. elim j [ inl e ↦ subst P e (a m (inl refl)) | inr q ↦ b k q ]) (rw new at h) n i
  ]

-- All that was on the stack or seen is found, and so is all that a task which was found blocks.
abbrev Covered : Graph → List ℕ → List ℕ → Type 0
Covered g seen pool = (n m : ℕ) → In n seen → In m (blocks g n) → In m seen ⊎ In m pool

search_from_closed :
    (g : Graph) (fuel : ℕ) (stack seen r : List ℕ)
    → Covered g seen stack
    → search_from fuel g stack seen ≡ some r
    → ((n : ℕ) → In n seen ⊎ In n stack → In n r) × Covered g r []
unfolding search_from
search_from_closed g zero stack seen r c h = absurd (cc)
search_from_closed g (suc fuel) [] seen r c h =
    let e : seen ≡ r = cc in
    subst (λ q. ((n : ℕ) → In n seen ⊎ In n [] → In n q) × Covered g q []) e
      (λ n. elim [ inl i ↦ i | inr i ↦ elim i [ ] ], c)
search_from_closed g (suc fuel) (k ∷ stack) seen r c h = elim (Bool-cases (mem k seen)) [
  | inl old ↦
      let been = mem-In k seen old in
      let ih =
        search_from_closed g fuel stack seen r
          (λ n m i j. elim (c n m i j) [
            | inl q ↦ inl q
            | inr (inl e) ↦ inl (subst (λ x. In x seen) e been)
            | inr (inr q) ↦ inr q
          ])
          (rw old at h) in
      (
        λ n. elim [
          | inl i ↦ ih.0 n (inl i)
          | inr (inl e) ↦ ih.0 n (inl (subst (λ x. In x seen) e been))
          | inr (inr q) ↦ ih.0 n (inr q)
        ],
        ih.1,
      )
  | inr new ↦
      let ih =
        search_from_closed g fuel (push (blocks g k) stack) (k ∷ seen) r
          (λ n m i j. elim i [
            | inl e ↦
                inr (In-push_left m (blocks g k) stack (subst (λ x. In m (blocks g x)) (sym e) j))
            | inr i' ↦ elim (c n m i' j) [
              | inl q ↦ inl (inr q)
              | inr (inl e) ↦ inl (inl e)
              | inr (inr q) ↦ inr (In-push_right m (blocks g k) stack q)
            ]
          ])
          (rw new at h) in
      (
        λ n. elim [
          | inl i ↦ ih.0 n (inl (inr i))
          | inr (inl e) ↦ ih.0 n (inl (inl e))
          | inr (inr q) ↦ ih.0 n (inr (In-push_right n (blocks g k) stack q))
        ],
        ih.1,
      )
]

Leads-closed : (g : Graph) (r : List ℕ) → Covered g r [] → {n m : ℕ} → Leads g n m → In n r → In m r
Leads-closed g r c (edge {n} {m} j) i = elim (c n m i j) [ inl q ↦ q | inr q ↦ elim q [ ] ]
Leads-closed g r c (via {n} {m} j l) i =
    Leads-closed g r c l (elim (c n m i j) [ inl q ↦ q | inr q ↦ elim q [ ] ])

pub Leads-extend : (g : Graph) {n m k : ℕ} → Leads g n m → In k (blocks g m) → Leads g n k
Leads-extend g (edge i) j = via i (edge j)
Leads-extend g (via i l) j = via i (Leads-extend g l j)

-- The tasks that the search from a task returns are exactly those that a path of blocking leads to.
pub reachable_iff :
    (g : Graph) (start : ℕ) (r : List ℕ)
    → reachable g start ≡ some r
    → (n : ℕ) → In n r ↔ Leads g start n
unfolding reachable
reachable_iff g start r h n = (
  search_from_sound g (Leads g start) (λ a b l j. Leads-extend g l j) fuel stack [] r
      (λ m i. elim (In-push m (blocks g start) [] i) [ inl j ↦ edge j | inr j ↦ elim j [ ] ])
      (λ m i. elim i [ ]) h n,
  found,
)
  where
    stack : List ℕ
    stack = push (blocks g start) []

    fuel : ℕ
    fuel = suc (length (blocks g start) + unseen_edges g [])

    closed : ((m : ℕ) → In m [] ⊎ In m stack → In m r) × Covered g r []
    closed = search_from_closed g fuel stack [] r (λ a b i j. elim i [ ]) h

    found : Leads g start n → In n r
    found (edge j) = closed.0 n (inr (In-push_left n (blocks g start) [] j))
    found (via {m = k} j l) =
        Leads-closed g r closed.1 l (closed.0 k (inr (In-push_left k (blocks g start) [] j)))
