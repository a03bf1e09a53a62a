-- ===== src/Scoring/Reachability.antt =====
-- internal/scoring/reachability.go. A graph is the map from a task to those that it blocks.
pub mod Paths
use backlog_server.Prelude.{
  ℕ, zero, suc, ◌+◌, Bool, true, false, ◌||◌, Option, none, some, List, [], ◌∷◌, eqb, length,
  if◌then◌else◌,
}
use backlog_server.Prelude.Assoc.{find, find_or, put}

abbrev pub Graph : Type 0
Graph = List (ℕ × List ℕ)

-- blocksMap[n]
abbrev pub blocks : Graph → ℕ → List ℕ
blocks g n = find_or [] n g

unfoldable pub mem : ℕ → List ℕ → Bool
mem n [] = false
mem n (m ∷ ms) = eqb m n || mem n ms

-- append(stack, ns...): the last one is the new top.
unfoldable pub push : List ℕ → List ℕ → List ℕ
push [] stack = stack
push (n ∷ ns) stack = push ns (n ∷ stack)

-- The loop of `reachable`: the stack's top is the head, `seen` the keys of the map. `none` is a run
-- out of fuel.
unfoldable pub search_from : ℕ → Graph → List ℕ → List ℕ → Option (List ℕ)
search_from zero g stack seen = none
search_from (suc fuel) g [] seen = some seen
search_from (suc fuel) g (n ∷ stack) seen =
    let old = search_from fuel g stack seen in
    let fresh = search_from fuel g (push (blocks g n) stack) (n ∷ seen) in
    if mem n seen then old else fresh

-- The edges that leave the tasks which are not in `seen`.
unfoldable pub unseen_edges : Graph → List ℕ → ℕ
unseen_edges [] seen = 0
unseen_edges ((n, ns) ∷ g) seen = (if mem n seen then 0 else length ns) + unseen_edges g seen

-- `reachable(start)`, with a round for each edge
unfoldable pub reachable : Graph → ℕ → Option (List ℕ)
unfolding search_from unseen_edges push
reachable g start =
    search_from (suc (length (blocks g start) + unseen_edges g [])) g (push (blocks g start) []) []
