-- ===== src/Seeds/Success.antt =====
-- Reading a run that succeeded step by step.
use nestjs_app.Prelude.{◌≡◌, refl, subst, arith}
use nestjs_app.Result.{Exec, Result, ok, err, pure, continue, ◌>>=◌}
use nestjs_app.Db.{Db}
use nestjs_app.Seeds.Growth.{Grows, Grows-trans, IsRepeatable}

-- The computation succeeded with a result, and a database has only grown since.
pub record Succeeded {A : Type 0} (later : Db) (m : Exec Db A) (a : A) : Type 0 where
  pub before : Db
  pub after : Db
  pub ran : m before ≡ (ok a, after)
  pub grown : Grows after later

-- The two steps of a sequence, each of which succeeded.
pub record Both {A B : Type 0} (later : Db) (m : Exec Db A) (f : A → Exec Db B) (b : B)
    : Type 0 where
  pub value : A
  pub first : Succeeded later m value
  pub second : Succeeded later (f value) b

module _ {A B : Type 0} (later : Db) (m : Exec Db A) (f : A → Exec Db B)
    (repeatable : (a : A) → IsRepeatable (f a) (f a)) (b : B) where
  steps_of :
      (before after : Db) (r : Result A × Db)
      → m before ≡ r
      → continue r.0 f r.1 ≡ (ok b, after)
      → Grows after later
      → Both later m f b
  steps_of before after (ok a, middle) e h g = record {
    value = a;
    first = record {
      before = before;
      after = middle;
      ran = e;
      grown =
          Grows-trans
            (subst (λ (x : Result B × Db). Grows middle x.1) h ((repeatable a).grows middle)) g;
    };
    second = record { before = middle; after = after; ran = h; grown = g };
  }
  steps_of before after (err x, middle) e h g = absurd (ground arith)

  pub steps : Succeeded later (m >>= f) b → Both later m f b
  steps s = steps_of s.before s.after (m s.before) refl s.ran s.grown

pub pure_value : {A : Type 0} {later : Db} {a b : A} → Succeeded later (pure a) b → a ≡ b
pure_value s = let e = s.ran in ground arith
