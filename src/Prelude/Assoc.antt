-- ===== src/Prelude/Assoc.antt =====
-- Go maps with int keys, as association lists in the order in which keys first came.
use Prim.Native.Nat.{ℕ}
use mathlib.Core.Path.{◌≡◌, refl}
use mathlib.Core.Option.{Option, none, some}
use mathlib.Core.List.{List, [], ◌∷◌}
use native.Mathlib.Omega.{arith}
use backlog_server.Prelude.Tests.{eqb, if◌then◌else◌}

module _ {ℓ} {V : Type ℓ} where
  abbrev pub find : ℕ → List (ℕ × V) → Option V
  find k [] = none
  find k ((j, v) ∷ m) = if eqb j k then some v else find k m

  -- m[k], with the zero value of a missing key
  abbrev pub find_or : V → ℕ → List (ℕ × V) → V
  find_or d k [] = d
  find_or d k ((j, v) ∷ m) = if eqb j k then v else find_or d k m

  -- m[k] = v
  abbrev pub put : ℕ → V → List (ℕ × V) → List (ℕ × V)
  put k v [] = (k, v) ∷ []
  put k v ((j, w) ∷ m) = if eqb j k then (k, v) ∷ m else (j, w) ∷ put k v m

  pub find-put :
      (k j : ℕ) (v : V) (m : List (ℕ × V))
      → find j (put k v m) ≡ (if eqb k j then some v else find j m)
  find-put k j v [] = refl
  find-put k j v ((i, w) ∷ m) = ground (arith, find-put k j v m)

  pub find_or-put :
      (d : V) (k j : ℕ) (v : V) (m : List (ℕ × V))
      → find_or d j (put k v m) ≡ (if eqb k j then v else find_or d j m)
  find_or-put d k j v [] = refl
  find_or-put d k j v ((i, w) ∷ m) = ground (arith, find_or-put d k j v m)
