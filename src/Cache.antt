-- ===== src/Cache.antt =====
-- internal/cache/cache.go: the version-keyed cache, and store.go's read-through helper.
-- `entries` is what Redis holds, latest write first; an entry that expired or a call that failed is
-- a miss. JSON encoding is the identity. A key is the pair that "bs:v%d:%s" prints.
pub mod Coherence
use backlog_server.Prelude.{
  ℕ, ◌+◌, ◌%◌, ◌^◌, String, Bool, true, false, ◌&&◌, Option, none, some, List, [], ◌∷◌, ◌==◌, eqb,
  if◌then◌else◌,
}

pub record Cache {ℓ} (V : Type ℓ) : Type ℓ where
  pub version : ℕ  -- atomic.Uint64
  pub entries : List ((ℕ × String) × V)

module _ {ℓ} {V : Type ℓ} where
  unfoldable pub find_entry : ℕ → String → List ((ℕ × String) × V) → Option V
  find_entry v k [] = none
  find_entry v k (((w, j), x) ∷ es) = if eqb w v && j == k then some x else find_entry v k es

  -- The first argument says whether Redis answers.
  unfoldable pub get : Bool → Option (Cache V) → String → Option V
  get up none suffix = none
  get up (some c) suffix = if up then find_entry c.version suffix c.entries else none

  unfoldable pub set : Bool → Option (Cache V) → String → V → Option (Cache V)
  set up none suffix x = none
  set up (some c) suffix x =
      if up then some (record c { entries = ((c.version, suffix), x) ∷ c.entries }) else some c

  -- `Bump`: ver.Add(1), which wraps.
  unfoldable pub bump : Option (Cache V) → Option (Cache V)
  bump none = none
  bump (some c) = some (record c { version = (c.version + 1) % 2 ^ 64 })

  -- `Version`
  unfoldable pub version_of : Option (Cache V) → ℕ
  version_of none = 0
  version_of (some c) = c.version
