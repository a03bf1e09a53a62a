-- ===== src/Prelude/Atoi.antt =====
-- strconv.Atoi: an optional sign and decimal digits, in the range of a 64-bit integer.
use Prim.Native.Nat.{ℕ, zero, suc, ◌+◌, ◌-◌, ◌*◌, ◌/◌, ◌%◌, ◌^◌, ◌<◌}
use Prim.Native.Char.{code}
use Prim.Native.String.{String}
use mathlib.Core.Path.{◌≡◌, refl, ◌∙◌, ap}
use mathlib.Core.Logic.{inl, inr}
use mathlib.Core.Bool.{Bool, true, false, ◌&&◌}
use mathlib.Core.Option.{Option, none, some}
use native.Mathlib.Omega.{arith}
use backlog_server.Prelude.Tests.{ltb, leb, eqb, if◌then◌else◌, Bool-cases, ltb→lt}
use backlog_server.Prelude.Text.{chr, code-chr}
use backlog_server.Prelude.Decimal.{digits, decimal}
use backlog_server.Prelude.Int.{ℤ, pos, negsuc}

abbrev is_digit : ℕ → Bool
is_digit c = leb 48 c && leb c 57

-- The digits of `s` behind the number that was read.
scan : ℕ → String → Option ℕ
scan n String.[] = some n
scan n (String.◌∷◌ c s) =
    let rest = scan (n * 10 + (code c - 48)) s in if is_digit (code c) then rest else none

scan_some : String → Option ℕ
unfolding scan
scan_some String.[] = none
scan_some (String.◌∷◌ c s) = scan 0 (String.◌∷◌ c s)

positive : Option ℕ → Option ℤ
positive none = none
positive (some n) = if ltb n (2 ^ 63) then some (pos n) else none

negative : Option ℕ → Option ℤ
negative none = none
negative (some zero) = some (pos 0)
negative (some (suc n)) = if ltb n (2 ^ 63) then some (negsuc n) else none

unfoldable pub atoi : String → Option ℤ
unfolding positive negative scan_some
atoi String.[] = none
atoi (String.◌∷◌ c s) =
    if eqb (code c) b'-'
    then negative (scan_some s)
    else if eqb (code c) b'+'
    then positive (scan_some s)
    else positive (scan 0 (String.◌∷◌ c s))

digit : (m : ℕ) → m < 10 → is_digit (48 + m) ≡ true
digit m h = ground arith

scan_digit :
    (m n : ℕ) (s : String) → m < 10 → scan n (String.◌∷◌ (chr (48 + m)) s) ≡ scan (n * 10 + m) s
unfolding scan
scan_digit m n s h =
    let spelled = code-chr (48 + m) (omega arith) in
    rw (spelled, digit m h) (ap (λ d. scan (n * 10 + d) s) (omega arith))

scan-digits : (f n : ℕ) (acc : String) → n < f → scan 0 (digits f n acc) ≡ scan n acc
unfolding digits
scan-digits zero n acc h = elim h [ ]
scan-digits (suc f) n acc h = elim (Bool-cases (ltb n 10)) [
  | inl small ↦ rw small (
      scan_digit (n % 10) 0 acc (omega arith)
      ∙ ap (λ d. scan d acc) (omega (arith, ltb→lt n 10 small)))
  | inr large ↦ rw large (
      scan-digits f (n / 10) (String.◌∷◌ (chr (48 + n % 10)) acc) (ground arith)
      ∙ scan_digit (n % 10) (n / 10) acc (omega arith)
      ∙ ap (λ d. scan d acc) (omega arith))
]

abbrev Headed : String → Type 0
Headed String.[] = ⊥
Headed (String.◌∷◌ c s) = is_digit (code c) ≡ true

digits-Headed : (f n : ℕ) (acc : String) → Headed acc → Headed (digits f n acc)
unfolding digits
digits-Headed zero n acc h = h
digits-Headed (suc f) n acc h =
    let one : is_digit (code (chr (48 + n % 10))) ≡ true =
      ap is_digit (code-chr (48 + n % 10) (omega arith)) ∙ digit (n % 10) (omega arith) in
    elim (Bool-cases (ltb n 10)) [
      | inl small ↦ rw small one
      | inr large ↦ rw large (digits-Headed f (n / 10) (String.◌∷◌ (chr (48 + n % 10)) acc) one)
    ]

decimal-Headed : (n : ℕ) → Headed (decimal n)
unfolding decimal digits
decimal-Headed n =
    let one : is_digit (code (chr (48 + n % 10))) ≡ true =
      ap is_digit (code-chr (48 + n % 10) (omega arith)) ∙ digit (n % 10) (omega arith) in
    elim (Bool-cases (ltb n 10)) [
      | inl small ↦ rw small one
      | inr large ↦
          rw large (digits-Headed n (n / 10) (String.◌∷◌ (chr (48 + n % 10)) String.[]) one)
    ]

no_sign : (c : ℕ) → is_digit c ≡ true → (eqb c 45 ≡ false) × (eqb c 43 ≡ false)
no_sign c h = ground arith

atoi-unsigned : (s : String) → Headed s → atoi s ≡ positive (scan 0 s)
unfolding atoi
atoi-unsigned String.[] h = elim h [ ]
atoi-unsigned (String.◌∷◌ c s) h = let (m, p) = no_sign (code c) h in rw (m, p) refl

scan-decimal : (n : ℕ) → scan 0 (decimal n) ≡ some n
unfolding decimal scan
scan-decimal n = scan-digits (suc n) n String.[] (omega arith)

pub atoi-decimal : (n : ℕ) → n < 2 ^ 63 → atoi (decimal n) ≡ some (pos n)
unfolding positive
atoi-decimal n h =
    let small : ltb n (2 ^ 63) ≡ true = ground arith in
    atoi-unsigned (decimal n) (decimal-Headed n) ∙ rw (scan-decimal n, small) refl

atoi_test : atoi "-12" ≡ some (negsuc 11)
unfolding atoi scan
atoi_test = refl
