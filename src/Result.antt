-- ===== src/Result.antt =====
-- The exceptions that the handlers throw, and computations over a state that may throw. What was
-- written before a throw stays written: the state comes back beside the exception too.
use nestjs_app.Prelude.{String, Option, none, some}

-- The `HttpException` classes of @nestjs/common that the code throws.
pub data Status : Type 0 where
  bad_request unauthorized forbidden not_found conflict : Status

-- What the database driver reports: code 23505, code 23503, a failed findOneByOrFail, or another.
pub data DbError : Type 0 where
  unique_violation foreign_key_violation entity_not_found : DbError
  other : String → DbError

pub data Exception : Type 0 where
  http : Status → String → Exception
  database : DbError → Exception

pub data Result {ℓ} (A : Type ℓ) : Type ℓ where
  ok : A → Result A
  err : Exception → Result A

abbrev pub Exec {ℓ} : Type ℓ → Type ℓ → Type ℓ
Exec S A = S → Result A × S

module _ {ℓ} {S A : Type ℓ} where
  abbrev pub pure : A → Exec S A
  pure a s = (ok a, s)

  abbrev pub throw : Exception → Exec S A
  throw e s = (err e, s)

  abbrev pub gets : (S → A) → Exec S A
  gets f s = (ok (f s), s)

  abbrev pub lift : Result A → Exec S A
  lift r s = (r, s)

  -- `if (!value) throw …`
  abbrev pub or_throw : Exception → Option A → Exec S A
  or_throw e none = throw e
  or_throw e (some a) = pure a

module _ {ℓ} {S A B : Type ℓ} where
  abbrev pub continue : Result A → (A → Exec S B) → Exec S B
  continue (ok a) f s = f a s
  continue (err e) f s = (err e, s)

  infixl 5 ◌>>=◌ ◌>>◌
  abbrev pub ◌>>=◌ : Exec S A → (A → Exec S B) → Exec S B
  ◌>>=◌ m f s = let (r, s') = m s in continue r f s'

  abbrev pub ◌>>◌ : Exec S A → Exec S B → Exec S B
  m >> n = m >>= λ _. n
