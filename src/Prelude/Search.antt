-- ===== src/Prelude/Search.antt =====
-- How a search, and a test of all elements, read through changes of a list.
use mathlib.Core.Path.{◌≡◌, refl, sym}
use mathlib.Core.Logic.{inl, inr}
use mathlib.Core.Bool.{Bool, true, false}
use mathlib.Core.List.{List, [], ◌∷◌, ◌++◌}
use mathlib.Core.Option.{Option, none, some}
use native.Mathlib.Omega.{arith}
use nestjs_app.Prelude.Tests.{if◌then◌else◌, Bool-cases}
use nestjs_app.Prelude.Lists.{find?, any, modify, All}

module _ {ℓ} {A : Type ℓ} where
  abbrev pub changed : (A → Bool) → (A → A) → Option A → Option A
  changed q f none = none
  changed q f (some x) = some (if q x then f x else x)

  -- A change that leaves the searched property alone changes what is found, and not where.
  pub find?-modify :
      (p q : A → Bool) (f : A → A) (xs : List A)
      → ((x : A) → p (f x) ≡ p x)
      → find? p (modify q f xs) ≡ changed q f (find? p xs)
  find?-modify p q f [] h = refl
  find?-modify p q f (x ∷ xs) h = ground (arith, h x, find?-modify p q f xs h)

  pub find?-append :
      (p : A → Bool) (xs ys : List A) {x : A} → find? p xs ≡ some x → find? p (xs ++ ys) ≡ some x
  find?-append p [] ys h = cc
  find?-append p (y ∷ xs) ys {x} h = ground (arith, find?-append p xs ys {x = x})

  pub find?-append_last :
      (p : A → Bool) (xs : List A) (y : A)
      → any p xs ≡ false
      → p y ≡ true
      → find? p (xs ++ y ∷ []) ≡ some y
  find?-append_last p [] y h k = ground arith
  find?-append_last p (x ∷ xs) y h k = ground (arith, find?-append_last p xs y)

  pub find?-holds : (p : A → Bool) (xs : List A) {x : A} → find? p xs ≡ some x → p x ≡ true
  find?-holds p [] h = cc
  find?-holds p (y ∷ xs) {x} h = ground (arith, find?-holds p xs {x = x})

  pub find?-any : (p : A → Bool) (xs : List A) → any p xs ≡ false → find? p xs ≡ none
  find?-any p [] h = refl
  find?-any p (y ∷ xs) h = ground (arith, find?-any p xs)

module _ {ℓ} {A : Type ℓ} where
  pub any_of_missing : (p : A → Bool) (xs : List A) → find? p xs ≡ none → any p xs ≡ false
  any_of_missing p [] h = refl
  any_of_missing p (y ∷ xs) h = ground (arith, any_of_missing p xs)

  pub any-modify :
      (p q : A → Bool) (f : A → A) (xs : List A)
      → ((x : A) → p (f x) ≡ p x)
      → any p (modify q f xs) ≡ any p xs
  any-modify p q f [] h = refl
  any-modify p q f (x ∷ xs) h = ground (arith, h x, any-modify p q f xs h)

module _ {ℓ κ} {A : Type ℓ} (P : A → Type κ) where
  -- What the change establishes where it acts, and the rest has already, holds of all.
  pub All-modify :
      (q : A → Bool) (f : A → A) (xs : List A)
      → ((x : A) → q x ≡ true → P (f x))
      → ((x : A) → q x ≡ false → P x)
      → All P (modify q f xs)
  All-modify q f [] h k = tt
  All-modify q f (x ∷ xs) h k = (
    elim (Bool-cases (q x)) [ inl e ↦ rw e (h x e) | inr e ↦ rw e (k x e) ],
    All-modify q f xs h k,
  )

  pub All-append : (xs ys : List A) → All P xs → All P ys → All P (xs ++ ys)
  All-append [] ys h k = k
  All-append (x ∷ xs) ys (p, h) k = (p, All-append xs ys h k)

  pub All-find? : (q : A → Bool) (xs : List A) {x : A} → All P xs → find? q xs ≡ some x → P x
  All-find? q [] h e = cc
  All-find? q (y ∷ xs) {x} (p, h) e = elim (Bool-cases (q y)) [
    | inl hit ↦ let same : y ≡ x = ground arith in rw (sym same) p
    | inr miss ↦ All-find? q xs h (ground arith)
  ]

module _ {ℓ} {A : Type ℓ} where
  pub any_of_found : (p : A → Bool) (xs : List A) {x : A} → find? p xs ≡ some x → any p xs ≡ true
  any_of_found p [] h = cc
  any_of_found p (y ∷ xs) {x} h = ground (arith, any_of_found p xs {x = x})
