-- ===== src/Db/Naming/Snake.antt =====
-- A name in snake case stays as it is.
use Prim.Native.Char.{Char, code}
use Prim.Native.String.{String, [], ◌∷◌}
use nestjs_app.Prelude.{
  ℕ, ◌+◌, ◌≤◌, ◌≡◌, refl, ap, ◌∙◌, Bool, true, false, ◌&&◌, ◌==◌, arith, Bool-cases, inl, inr,
}
use nestjs_app.Js.{to_lower_case, swap_case}
use nestjs_app.Db.Naming.{is_upper, split_words, split_acronyms, snake_case}

abbrev pub NoUpper : String → Type 0
NoUpper [] = Unit
NoUpper (c ∷ s) = (is_upper c ≡ false) × NoUpper s

-- The first alphabet has the codes from a number to 90, and the second has no upper case.
abbrev AreCases : ℕ → String → String → Type 0
AreCases k [] ls = k ≡ 91
AreCases k (u ∷ us) [] = ⊥
AreCases k (u ∷ us) (l ∷ ls) = (code u ≡ k) × (is_upper l ≡ false) × AreCases (k + 1) us ls

swap_case-lower :
    (k : ℕ) (us ls : String) (c : Char)
    → AreCases k us ls
    → (is_upper c ≡ true → k ≤ code c)
    → is_upper (swap_case us ls c) ≡ false
unfolding swap_case
swap_case-lower k [] ls c e h = ground arith
swap_case-lower k (u ∷ us) [] c e h = absurd e
swap_case-lower k (u ∷ us) (l ∷ ls) c (same, lower, rest) h = elim (Bool-cases (code u == code c)) [
  | inl hit ↦ rw hit lower
  | inr miss ↦ rw miss (swap_case-lower (k + 1) us ls c rest (λ upper. ground (arith, h upper)))
]

AreCases-bound : (k : ℕ) (us ls : String) → AreCases k us ls → k ≤ 91
AreCases-bound k [] ls e = omega arith
AreCases-bound k (u ∷ us) [] e = absurd e
AreCases-bound k (u ∷ us) (l ∷ ls) (same, lower, rest) =
    let more = AreCases-bound (k + 1) us ls rest in omega arith

swap_case-kept :
    (k : ℕ) (us ls : String) (c : Char)
    → 65 ≤ k
    → AreCases k us ls
    → is_upper c ≡ false
    → swap_case us ls c ≡ c
unfolding swap_case
swap_case-kept k [] ls c from e h = refl
swap_case-kept k (u ∷ us) [] c from e h = absurd e
swap_case-kept k (u ∷ us) (l ∷ ls) c from (same, lower, rest) h =
    let bound = AreCases-bound (k + 1) us ls rest in
    elim (Bool-cases (code u == code c)) [
      | inl hit ↦ absurd (ground arith)
      | inr miss ↦ rw miss (swap_case-kept (k + 1) us ls c (omega arith) rest h)
    ]

alphabet : AreCases 65 "ABCDEFGHIJKLMNOPQRSTUVWXYZ" "abcdefghijklmnopqrstuvwxyz"
alphabet = ground arith

to_lower_case-NoUpper : (s : String) → NoUpper (to_lower_case s)
unfolding to_lower_case
to_lower_case-NoUpper [] = tt
to_lower_case-NoUpper (c ∷ s) = (
  swap_case-lower 65 "ABCDEFGHIJKLMNOPQRSTUVWXYZ" "abcdefghijklmnopqrstuvwxyz" c alphabet
      (λ upper. ground (arith, upper)),
  to_lower_case-NoUpper s,
)

to_lower_case-kept : (s : String) → NoUpper s → to_lower_case s ≡ s
unfolding to_lower_case
to_lower_case-kept [] h = refl
to_lower_case-kept (c ∷ s) (lower, rest) =
    rw
      (swap_case-kept 65 "ABCDEFGHIJKLMNOPQRSTUVWXYZ" "abcdefghijklmnopqrstuvwxyz" c (ground arith)
        alphabet lower)
      (ap (λ t. c ∷ t) (to_lower_case-kept s rest))

and_false : (a : Bool) → (a && false) ≡ false
and_false true = refl
and_false false = refl

split_words-kept : (s : String) → NoUpper s → split_words s ≡ s
unfolding split_words
split_words-kept [] h = refl
split_words-kept (c ∷ []) h = refl
split_words-kept (c ∷ (d ∷ s)) (_, (lower, rest)) =
    rw (lower, and_false) (ap (λ t. c ∷ t) (split_words-kept (d ∷ s) (lower, rest)))

split_acronyms-kept : (s : String) → NoUpper s → split_acronyms s ≡ s
unfolding split_acronyms
split_acronyms-kept [] h = refl
split_acronyms-kept (c ∷ []) h = refl
split_acronyms-kept (c ∷ (d ∷ [])) h = refl
split_acronyms-kept (c ∷ (d ∷ (e ∷ s))) (lower, rest) =
    rw lower (ap (λ t. c ∷ t) (split_acronyms-kept (d ∷ (e ∷ s)) rest))

-- A name that is in snake case stays as it is, so that a name that was converted before is not
-- changed again.
pub snake_case_idem : (value : String) → snake_case (snake_case value) ≡ snake_case value
unfolding snake_case
snake_case_idem value =
    let name = to_lower_case (split_acronyms (split_words value)) in
    let lower = to_lower_case-NoUpper (split_acronyms (split_words value)) in
    ap (λ s. to_lower_case (split_acronyms s)) (split_words-kept name lower)
    ∙ ap to_lower_case (split_acronyms-kept name lower)
    ∙ to_lower_case-kept name lower
