-- ===== src/Cache/Coherence.antt =====
-- What the cache promises: a hit at the current version was stored at that version, and a bump
-- leaves nothing to hit.
use backlog_server.Prelude.{
  ℕ, ◌+◌, ◌%◌, ◌^◌, ◌<◌, String, Bool, true, false, ◌&&◌, ◌≡◌, refl, inl, inr, Option, none, some,
  ◌==◌, eqb, eqb_iff, eq_of_==_true, arith, Bool-cases,
}
use mathlib.Core.Path.{subst}
use backlog_server.Cache.{Cache, find_entry, get, set, bump, version_of}

module _ {V : Type 0} where
  -- What is stored at the current version satisfies `P`, key by key.
  abbrev pub Holds : (String → V → Type 0) → Option (Cache V) → Type 0
  Holds P none = Unit
  Holds P (some c) = (k : String) (x : V) → find_entry c.version k c.entries ≡ some x → P k x

  -- Nothing is stored at a version that is still to come.
  abbrev pub Fresh : Option (Cache V) → Type 0
  Fresh none = Unit
  Fresh (some c) = (v : ℕ) (k : String) → c.version < v → find_entry v k c.entries ≡ none

  -- At least `k` more bumps before the version wraps.
  abbrev pub Room : ℕ → Option (Cache V) → Type 0
  Room k c = version_of c + k < 2 ^ 64

  module _ (P : String → V → Type 0) where
    pub get-Holds :
        (up : Bool) (c : Option (Cache V)) (k : String) (x : V)
        → Holds P c
        → get up c k ≡ some x
        → P k x
    unfolding get
    get-Holds up none k x h e = absurd (cc)
    get-Holds true (some c) k x h e = h k x e
    get-Holds false (some c) k x h e = absurd (cc)

    pub set-Holds :
        (up : Bool) (c : Option (Cache V)) (k : String) (x : V)
        → Holds P c
        → P k x
        → Holds P (set up c k x)
    unfolding set find_entry
    set-Holds up none k x h p = tt
    set-Holds false (some c) k x h p = h
    set-Holds true (some c) k x h p = λ j y e.
        elim (Bool-cases (eqb c.version c.version && k == j)) [
          | inl hit ↦
              let e' : some x ≡ some y = rw hit at e in
              let same : x ≡ y = cc in
              let key : k ≡ j = eq_of_==_true k j (ground arith) in
              subst (λ i. P i y) key (subst (P k) same p)
          | inr miss ↦ h j y (rw miss at e)
        ]

    pub bump-Holds : (c : Option (Cache V)) → Fresh c → Room 1 c → Holds P (bump c)
    unfolding bump version_of
    bump-Holds none f r = tt
    bump-Holds (some c) f r =
        λ k x e. let none_there = f ((c.version + 1) % 2 ^ 64) k (ground arith) in absurd (cc)

  pub set-Fresh :
      (up : Bool) (c : Option (Cache V)) (k : String) (x : V) → Fresh c → Fresh (set up c k x)
  unfolding set find_entry
  set-Fresh up none k x f = tt
  set-Fresh false (some c) k x f = f
  set-Fresh true (some c) k x f = λ v j l. ground (arith, f v j l, eqb_iff c.version v)

  pub bump-Fresh : (c : Option (Cache V)) → Fresh c → Room 1 c → Fresh (bump c)
  unfolding bump version_of
  bump-Fresh none f r = tt
  bump-Fresh (some c) f r = λ v k l. f v k (ground arith)

  pub version_of-set :
      (up : Bool) (c : Option (Cache V)) (k : String) (x : V)
      → version_of (set up c k x) ≡ version_of c
  unfolding set version_of
  version_of-set up none k x = refl
  version_of-set false (some c) k x = refl
  version_of-set true (some c) k x = refl

  -- A bump takes one off the room.
  pub bump-Room : (n : ℕ) (c : Option (Cache V)) → Room (n + 1) c → Room n (bump c)
  unfolding bump version_of
  bump-Room n none r = omega (arith, r)
  bump-Room n (some c) r = ground arith
