-- ===== src/Users/Listing/Samples.antt =====
-- A query on lists, for the tests: the rows in the order of the table.
use nestjs_app.Prelude.{
  ℕ, zero, suc, ◌≡◌, refl, Bool, true, false, ◌&&◌, List, [], ◌∷◌, arith, str_eq, eq_refl, any,
  keep, length, All, if◌then◌else◌,
}
use nestjs_app.Db.{User}
use nestjs_app.Users.Listing.{Query}
use nestjs_app.Users.Listing.Items.{IsQuery}

abbrev first : ℕ → List User → List User
first n [] = []
first zero (u ∷ us) = []
first (suc n) (u ∷ us) = u ∷ first n us

abbrev skipped : ℕ → List User → List User
skipped n [] = []
skipped zero (u ∷ us) = u ∷ us
skipped (suc n) (u ∷ us) = skipped n us

abbrev pub list_query : Query
list_query = record {
  find_and_count = λ p skip take users. record {
    rows = first take (skipped skip (keep p users));
    count = length (keep p users);
  };
  i_like = λ pattern text. str_eq pattern text;
}

All-first : (P : User → Type 0) (n : ℕ) (us : List User) → All P us → All P (first n us)
All-first P n [] h = tt
All-first P zero (u ∷ us) h = tt
All-first P (suc n) (u ∷ us) (p, h) = (p, All-first P n us h)

All-skipped : (P : User → Type 0) (n : ℕ) (us : List User) → All P us → All P (skipped n us)
All-skipped P n [] h = tt
All-skipped P zero (u ∷ us) h = h
All-skipped P (suc n) (u ∷ us) (p, h) = All-skipped P n us h

All-mono : (P Q : User → Type 0) (us : List User) → ((u : User) → P u → Q u) → All P us → All Q us
All-mono P Q [] f h = tt
All-mono P Q (u ∷ us) f (p, h) = (f u p, All-mono P Q us f h)

All-if :
    (P : User → Type 0) (b : Bool) (u : User) (us : List User)
    → (b ≡ true → P u)
    → All P us
    → All P (if b then u ∷ us else us)
All-if P true u us f h = (f refl, h)
All-if P false u us f h = h

-- What is stored and passes, as far as its id tells.
abbrev IsStored : (User → Bool) → List User → User → Type 0
IsStored p us user = any (λ stored. p stored && str_eq stored.id user.id) us ≡ true

All-keep : (p : User → Bool) (us : List User) → All (IsStored p us) (keep p us)
All-keep p [] = tt
All-keep p (u ∷ us) =
    All-if (IsStored p (u ∷ us)) (p u) u (keep p us) (λ hit. rw (hit, eq_refl u.id))
      (All-mono (IsStored p us) (IsStored p (u ∷ us)) (keep p us) (λ user h. ground arith)
        (All-keep p us))

pub list_query-IsQuery : IsQuery list_query
list_query-IsQuery = record {
  rows-live = λ p skip take users.
      All-first _ take _ (All-skipped _ skip (keep p users) (All-keep p users));
}
