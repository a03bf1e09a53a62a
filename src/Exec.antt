-- ===== src/Exec.antt =====
-- Calls that may fail: an action over a state returns an outcome and the state that it leaves. An
-- action over a `World` is a method of the store; one over a `Conn` is the body of a transaction.
use backlog_server.Prelude.{String}

-- `no_rows` is pgx.ErrNoRows; `failed` holds the words that the source wraps the driver's error in.
pub data Outcome (A : Type 0) : Type 0 where
  ok : A → Outcome A
  no_rows : Outcome A
  failed : String → Outcome A

abbrev pub Exec : Type 0 → Type 0 → Type 0
Exec S A = S → Outcome A × S

module _ {S A : Type 0} where
  abbrev pub pure : A → Exec S A
  pure a s = (ok a, s)

  abbrev pub throw : String → Exec S A
  throw e s = (failed e, s)

module _ {S A B : Type 0} where
  abbrev pub continue : Outcome A × S → (A → Exec S B) → Outcome B × S
  continue (ok a, s) f = f a s
  continue (no_rows, s) f = (no_rows, s)
  continue (failed e, s) f = (failed e, s)

  infixl 10 ◌>>=◌ ◌>>◌
  abbrev pub ◌>>=◌ : Exec S A → (A → Exec S B) → Exec S B
  ◌>>=◌ m f s = continue (m s) f

  abbrev pub ◌>>◌ : Exec S A → Exec S B → Exec S B
  m >> n = m >>= λ _. n
