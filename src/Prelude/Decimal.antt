-- ===== src/Prelude/Decimal.antt =====
-- `%d` of a number that is not negative: decimal digits, no leading zero.
use Prim.Native.Nat.{ℕ, zero, suc, ◌+◌, ◌-◌, ◌*◌, ◌/◌, ◌%◌, ◌<◌}
use Prim.Native.Char.{code}
use Prim.Native.String.{String}
use mathlib.Core.Path.{◌≡◌, refl, sym, ◌∙◌, ap}
use mathlib.Core.Logic.{inl, inr}
use native.Mathlib.Omega.{arith}
use backlog_server.Prelude.Tests.{ltb, if◌then◌else◌, Bool-cases, ltb→lt}
use backlog_server.Prelude.Text.{chr, code-chr}

unfoldable pub digits : ℕ → ℕ → String → String
digits zero n acc = acc
digits (suc f) n acc =
    let acc' = String.◌∷◌ (chr (48 + n % 10)) acc in
    let rest = digits f (n / 10) acc' in if ltb n 10 then acc' else rest

unfoldable pub decimal : ℕ → String
unfolding digits
decimal n = digits (suc n) n String.[]

-- The number that digits spell, behind those read already.
read : ℕ → String → ℕ
read n String.[] = n
read n (String.◌∷◌ c s) = read (n * 10 + (code c - 48)) s

read_digit :
    (m n : ℕ) (s : String) → m < 10 → read n (String.◌∷◌ (chr (48 + m)) s) ≡ read (n * 10 + m) s
unfolding read
read_digit m n s h = ap (λ d. read (n * 10 + d) s) (omega (arith, code-chr (48 + m) (omega arith)))

read-digits : (f n : ℕ) (acc : String) → n < f → read 0 (digits f n acc) ≡ read n acc
unfolding digits
read-digits zero n acc h = elim h [ ]
read-digits (suc f) n acc h = elim (Bool-cases (ltb n 10)) [
  | inl small ↦ rw small (
      read_digit (n % 10) 0 acc (omega arith)
      ∙ ap (λ d. read d acc) (omega (arith, ltb→lt n 10 small)))
  | inr large ↦ rw large (
      read-digits f (n / 10) (String.◌∷◌ (chr (48 + n % 10)) acc) (ground arith)
      ∙ read_digit (n % 10) (n / 10) acc (omega arith)
      ∙ ap (λ d. read d acc) (omega arith))
]

read-decimal : (n : ℕ) → read 0 (decimal n) ≡ n
unfolding decimal read
read-decimal n = read-digits (suc n) n String.[] (omega arith)

pub decimal_injective : (m n : ℕ) → decimal m ≡ decimal n → m ≡ n
decimal_injective m n e = sym (read-decimal m) ∙ ap (read 0) e ∙ read-decimal n

decimal_test : decimal 1730 ≡ "1730"
unfolding decimal chr
decimal_test = refl
