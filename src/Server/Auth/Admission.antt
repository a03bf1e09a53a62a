-- ===== src/Server/Auth/Admission.antt =====
-- Which requests pass authMiddleware.
use Prim.Native.Nat.{bit_or, bit_xor}
use backlog_server.Prelude.{
  ℕ, Bool, true, false, not, ◌&&◌, ◌≡◌, ◌≢◌, ◌↔◌, ◌⊎◌, inl, inr, refl, sym, ap, List, [], ◌∷◌, ◌==◌,
  eqb, length, any_by, if◌then◌else◌, eq_iff, arith, eqb_iff, eqb_refl, Bool-cases,
}
use backlog_server.Prelude.Bits.{bit_xor-zero, bit_xor_refl, bit_or-zero}
use backlog_server.Server.Auth.{
  HttpRequest, HttpResponse, write_error, diff_bits, constant_time_eq, auth_middleware,
}

-- The path of the health check, or the key itself: not empty and without a zero byte.
abbrev pub Admitted : List ℕ → HttpRequest → Type 0
Admitted expected r =
    (r.path ≡ "/healthz")
    ⊎ ((r.agent_key ≡ expected) × (r.agent_key ≢ []) × (any_by (eqb 0) r.agent_key ≡ false))

diff_bits-zero :
    (v : ℕ) (xs ys : List ℕ) → length xs ≡ length ys → diff_bits v xs ys ≡ 0 → (v ≡ 0) × (xs ≡ ys)
unfolding diff_bits
diff_bits-zero v [] [] same h = (h, refl)
diff_bits-zero v [] (y ∷ ys) same h = absurd (omega arith)
diff_bits-zero v (x ∷ xs) [] same h = absurd (omega arith)
diff_bits-zero v (x ∷ xs) (y ∷ ys) same h =
    let rest = diff_bits-zero (bit_or v (bit_xor x y)) xs ys (omega arith) h in
    let both = bit_or-zero v (bit_xor x y) rest.0 in
    (both.0, λ i. bit_xor-zero x y both.1 i ∷ rest.1 i)

diff_bits_refl : (xs : List ℕ) → diff_bits 0 xs xs ≡ 0
unfolding diff_bits
diff_bits_refl [] = refl
diff_bits_refl (x ∷ xs) = let ih = diff_bits_refl xs in rw (bit_xor_refl x) ih

false_eq : {b : Bool} → b ≡ false → b ≡ true → ⊥
false_eq p q = cc

refused :
    {expected : List ℕ} (r : HttpRequest)
    → (r.path == "/healthz") ≡ false
    → ¬ ((r.agent_key ≡ expected) × (r.agent_key ≢ []) × (any_by (eqb 0) r.agent_key ≡ false))
    → ¬ Admitted expected r
refused r n k (inl p) = false_eq n ((eq_iff _ _).1 p)
refused r n k (inr q) = k q

tests-all :
    (same zeroed nul : Bool)
    → (if not same then false else zeroed && not nul) ≡ true
    → (same ≡ true) × (zeroed ≡ true) × (nul ≡ false)
tests-all false zeroed nul h = absurd (cc)
tests-all true false nul h = absurd (cc)
tests-all true true true h = absurd (cc)
tests-all true true false h = (refl, refl, refl)

pub constant_time_eq_lem :
    (xs ys : List ℕ) → (constant_time_eq xs ys ≡ true) ↔ ((xs ≡ ys) × (any_by (eqb 0) xs ≡ false))
unfolding constant_time_eq
constant_time_eq_lem xs ys = (
  λ h.
      let t =
        tests-all (eqb (length xs) (length ys)) (eqb (diff_bits 0 xs ys) 0) (any_by (eqb 0) xs) h in
      let same = (eqb_iff (length xs) (length ys)).0 t.0 in
      ((diff_bits-zero 0 xs ys same ((eqb_iff _ _).0 t.1)).1, t.2),
  λ h. rw (sym h.0, eqb_refl (length xs), diff_bits_refl xs, h.1) refl,
)

length-nil : (xs : List ℕ) → (eqb (length xs) 0 ≡ true) ↔ (xs ≡ [])
length-nil [] = (λ _. refl, λ _. refl)
length-nil (x ∷ xs) = (
  λ e. let z = (eqb_iff _ _).0 e in absurd (omega arith),
  λ e. let z = ap length e in absurd (omega arith),
)

-- authMiddleware hands a request to the next handler exactly when its path is /healthz or its
-- X-Agent-Key is the expected key, not empty and without a zero byte (the byte-wise comparison by ^
-- and | decides equality); it answers any other request with status 401 and does not run the next
-- handler.
pub auth_middleware-Admitted :
    {A : Type 0} (expected : List ℕ) (next : HttpRequest → HttpResponse A) (r : HttpRequest)
    → (Admitted expected r × (auth_middleware expected next r ≡ next r))
      ⊎ ((¬ Admitted expected r)
          × (auth_middleware expected next r ≡ write_error 401 "X-Agent-Key required or invalid"))
unfolding auth_middleware
auth_middleware-Admitted expected next r = elim (Bool-cases (r.path == "/healthz")) [
  | inl y ↦ inl (inl ((eq_iff _ _).0 y), rw y refl)
  | inr n ↦ elim (Bool-cases (eqb (length r.agent_key) 0)) [
    | inl y ↦ inr (refused r n (λ k. k.1 ((length-nil r.agent_key).0 y)), rw (n, y) refl)
    | inr m ↦ elim (Bool-cases (constant_time_eq r.agent_key expected)) [
      | inl y ↦
          let key = (constant_time_eq_lem r.agent_key expected).0 y in
          let full : r.agent_key ≢ [] = λ e. false_eq m ((length-nil r.agent_key).1 e) in
          inl (inr (key.0, full, key.1), rw (n, m, y) refl)
      | inr q ↦ inr (
        refused r n (λ k. false_eq q ((constant_time_eq_lem r.agent_key expected).1 (k.0, k.2))),
        rw (n, m, q) refl,
      )
    ]
  ]
]
