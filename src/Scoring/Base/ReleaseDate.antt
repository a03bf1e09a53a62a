-- ===== src/Scoring/Base/ReleaseDate.antt =====
-- scoring.go: parseReleaseDays, the default release date and the release bonus.
use backlog_server.Prelude.{
  ℕ, ◌+◌, ◌-◌, ◌≤◌, ◌<◌, ◌%◌, true, false, ◌≡◌, refl, ap, ◌∙◌, Option, none, some, inl, inr,
  Bool-cases, arith,
}
use backlog_server.Prelude.Int.{ℤ, pos, ◌-ℤ◌}
use backlog_server.Scoring.Types.{Task}
use backlog_server.Scoring.Base.{next_friday, parse_release_days, is_sprint, release_bonus}

-- With no release date given the release is the first Friday from today on, today included.
pub next_friday_lem :
    (today : ℕ)
    → (next_friday today % 7 ≡ 5)
      × (today ≤ next_friday today)
      × ((day : ℕ) → today ≤ day → day % 7 ≡ 5 → next_friday today ≤ day)
unfolding next_friday
next_friday_lem today = (omega arith, omega arith, λ day h f. omega arith)

-- With the days to the release, of a sprint task: five less the days, and nothing from five on.
sprint-bonus :
    (days : ℕ) (t : Task) → is_sprint t ≡ true → release_bonus (pos days) t ≡ pos (5 - days)
unfolding release_bonus ◌-ℤ◌
sprint-bonus days t y = rw y (ground arith)

past : (today rel : ℕ) → rel ≤ today → parse_release_days today (some rel) ≡ pos 0
unfolding parse_release_days ◌-ℤ◌
past today rel h = ground arith

ahead : (today k : ℕ) → parse_release_days today (some (today + k)) ≡ pos k
unfolding parse_release_days ◌-ℤ◌
ahead today k = ground arith

-- The release bonus of a sprint task is 5 on the day of the release and behind it, one less for
-- each day before it, and 0 from five days before on; that of any other task, and that for a
-- release text that is no date, is 0.
pub release_bonus_bounds :
    (today : ℕ) (t : Task)
    → (is_sprint t ≡ false → (o : Option ℕ) → release_bonus (parse_release_days today o) t ≡ pos 0)
      × (release_bonus (parse_release_days today none) t ≡ pos 0)
      × (is_sprint t ≡ true
          → ((rel : ℕ)
              → rel ≤ today
              → release_bonus (parse_release_days today (some rel)) t ≡ pos 5)
            × ((k : ℕ)
                → k < 5
                → release_bonus (parse_release_days today (some (today + k))) t ≡ pos (5 - k))
            × ((k : ℕ)
                → 5 ≤ k
                → release_bonus (parse_release_days today (some (today + k))) t ≡ pos 0))
unfolding release_bonus parse_release_days ◌-ℤ◌
release_bonus_bounds today t = (
  λ n o. other n (parse_release_days today o),
  no_date,
  λ y. (
    λ rel h. ap (λ d. release_bonus d t) (past today rel h) ∙ sprint-bonus 0 t y,
    λ k h. ap (λ d. release_bonus d t) (ahead today k) ∙ sprint-bonus k t y,
    λ k h. ap (λ d. release_bonus d t) (ahead today k) ∙ sprint-bonus k t y ∙ ap pos (nothing k h),
  ),
)
  where
    other : is_sprint t ≡ false → (d : ℤ) → release_bonus d t ≡ pos 0
    other n d = rw n refl

    no_date : release_bonus (parse_release_days today none) t ≡ pos 0
    no_date = elim (Bool-cases (is_sprint t)) [ inl y ↦ rw y refl | inr n ↦ rw n refl ]

    nothing : (k : ℕ) → 5 ≤ k → 5 - k ≡ 0
    nothing k h = omega (arith, h)
