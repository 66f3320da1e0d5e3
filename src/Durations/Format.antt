-- ===== src/Durations/Format.antt =====
-- Which texts are durations, and what they stand for.
use Prim.Native.Char.{Char, code}
use Prim.Native.String
use Prim.Native.String.{String, [], ◌∷◌}
use text.Mathlib.TextLemmas.{nil-append, cons-append}
use nestjs_app.Prelude.{
  ℕ, suc, ◌+◌, ◌-◌, ◌*◌, ◌^◌, ◌<◌, ◌≡◌, refl, ap, sym, ◌∙◌, Bool, true, false, Option, none, some,
  arith, if◌then◌else◌, Bool-cases, inl, inr, ◌⊎◌, ◌↔◌,
}
use nestjs_app.Js.{trim}
use nestjs_app.Durations.{
  is_digit, unit_to_ms, take_digits, times_unit, match_duration, parse_duration_to_ms,
}

infixr 65 ◌++◌
abbrev ◌++◌ : String → String → String
a ++ b = String.◌++◌ a b

abbrev pub AllDigits : String → Type 0
AllDigits [] = Unit
AllDigits (c ∷ s) = (is_digit c ≡ true) × AllDigits s

abbrev pub length : String → ℕ
length [] = 0
length (c ∷ s) = suc (length s)

-- The number that decimal digits stand for, the first with the highest place.
abbrev pub value : String → ℕ
value [] = 0
value (c ∷ s) = (code c - 48) * 10 ^ length s + value s

pow-suc : (k : ℕ) → 10 ^ suc k ≡ 10 * 10 ^ k
pow-suc k = omega arith

spread : (n d p : ℕ) → (n * 10 + d) * p ≡ n * (10 * p) + d * p
spread n d p = grind arith

take_digits-value :
    (n : ℕ) (s : String) (c : Char) (more : String)
    → AllDigits s
    → is_digit c ≡ false
    → take_digits n (s ++ (c ∷ more)) ≡ (n * 10 ^ length s + value s, c ∷ more)
unfolding take_digits
take_digits-value n [] c more h d = rw (nil-append (c ∷ more)) (stopped (is_digit c) d)
  where
    stopped :
        (b : Bool)
        → b ≡ false
        → (if b then take_digits (n * 10 + (code c - 48)) more else (n, c ∷ more))
          ≡ (n * 10 ^ length "" + value "", c ∷ more)
    stopped b e = ground arith
take_digits-value n (x ∷ s) c more (p, h) d = rw (cons-append x s (c ∷ more)) (
    ground (
      arith,
      take_digits-value (n * 10 + (code x - 48)) s c more h d,
      pow-suc (length s),
      spread n (code x - 48) (10 ^ length s),
    ))

-- What is taken is digits, and they are read as their value.
pub record IsTaken (n : ℕ) (t : String) : Type 0 where
  pub digits : String
  pub rest : String
  pub split : t ≡ digits ++ rest
  pub all_digits : AllDigits digits
  pub taken : take_digits n t ≡ (n * 10 ^ length digits + value digits, rest)

took_one :
    (n : ℕ) (c : Char) (t : String) (b : Bool)
    → is_digit c ≡ b
    → IsTaken (n * 10 + (code c - 48)) t
    → IsTaken n (c ∷ t)
unfolding take_digits
took_one n c t true digit r = record {
  digits = c ∷ r.digits;
  rest = r.rest;
  split = ap (λ u. c ∷ u) r.split ∙ sym (cons-append c r.digits r.rest);
  all_digits = (digit, r.all_digits);
  taken =
      ground
        (arith, r.taken, pow-suc (length r.digits), spread n (code c - 48) (10 ^ length r.digits));
}
took_one n c t false other r = record {
  digits = [];
  rest = c ∷ t;
  split = sym (nil-append (c ∷ t));
  all_digits = tt;
  taken = ground arith;
}

take_digits-IsTaken : (n : ℕ) (t : String) → IsTaken n t
unfolding take_digits
take_digits-IsTaken n [] = record {
  digits = [];
  rest = [];
  split = sym (nil-append []);
  all_digits = tt;
  taken = ground arith;
}
take_digits-IsTaken n (c ∷ t) =
    took_one n c t (is_digit c) refl (take_digits-IsTaken (n * 10 + (code c - 48)) t)

-- What the letters stand for.
abbrev pub IsUnit : Char → ℕ → Type 0
IsUnit c ms =
    ((code c ≡ b's') × (ms ≡ 1000))
    ⊎ ((code c ≡ b'm') × (ms ≡ 60000))
    ⊎ ((code c ≡ b'h') × (ms ≡ 3600000))
    ⊎ ((code c ≡ b'd') × (ms ≡ 86400000))
    ⊎ ((code c ≡ b'w') × (ms ≡ 604800000))

-- The format `^(\d+)(s|m|h|d|w)$`, and the number of milliseconds.
pub record IsDuration (t : String) (ms : ℕ) : Type 0 where
  pub digits : String
  pub letter : Char
  pub unit : ℕ
  pub split : t ≡ digits ++ (letter ∷ [])
  pub all_digits : AllDigits digits
  pub some_digits : 0 < length digits
  pub unit_of_letter : IsUnit letter unit
  pub product : ms ≡ value digits * unit

unit_to_ms-IsUnit :
    (u : String) (unit : ℕ) → unit_to_ms u ≡ some unit → (c : Char) × (u ≡ c ∷ []) × IsUnit c unit
unfolding unit_to_ms
unit_to_ms-IsUnit [] unit e = absurd (ground arith)
unit_to_ms-IsUnit (c ∷ []) unit e = (c, refl, ground arith)
unit_to_ms-IsUnit (c ∷ (d ∷ s)) unit e = absurd (ground arith)

IsUnit-unit_to_ms :
    (c : Char) (unit : ℕ) → IsUnit c unit → (unit_to_ms (c ∷ []) ≡ some unit) × (is_digit c ≡ false)
unfolding unit_to_ms
IsUnit-unit_to_ms c unit e = ground arith

times_unit-eq-some :
    (n : ℕ) (o : Option ℕ) (ms : ℕ)
    → times_unit n o ≡ some ms
    → (unit : ℕ) × (o ≡ some unit) × (ms ≡ n * unit)
times_unit-eq-some n none ms e = absurd (ground arith)
times_unit-eq-some n (some unit) ms e = (unit, refl, ground arith)

-- What is read of a text that starts with a digit.
match_digit :
    (c : Char) (t : String)
    → is_digit c ≡ true
    → match_duration (c ∷ t)
      ≡ (let (n, rest) = take_digits 0 (c ∷ t) in times_unit n (unit_to_ms rest))
unfolding match_duration
match_digit c t digit = rw digit refl

took_digit :
    (c : Char) (t : String) → is_digit c ≡ true → (r : IsTaken 0 (c ∷ t)) × (0 < length r.digits)
unfolding took_one
took_digit c t digit =
    (took_one 0 c t true digit (take_digits-IsTaken (0 * 10 + (code c - 48)) t), omega arith)

taken_matches :
    (c : Char) (t : String) (ms : ℕ)
    → is_digit c ≡ true
    → match_duration (c ∷ t) ≡ some ms
    → IsDuration (c ∷ t) ms
taken_matches c t ms digit e =
    let (r, positive) = took_digit c t digit in
    let counted : times_unit (0 * 10 ^ length r.digits + value r.digits) (unit_to_ms r.rest)
        ≡ some ms =
      ap (λ (p : ℕ × String). times_unit p.0 (unit_to_ms p.1)) (sym r.taken)
      ∙ sym (match_digit c t digit)
      ∙ e in
    let (unit, known, product) = times_unit-eq-some _ (unit_to_ms r.rest) ms counted in
    let (letter, single, meaning) = unit_to_ms-IsUnit r.rest unit known in
    record {
      digits = r.digits;
      letter = letter;
      unit = unit;
      split = r.split ∙ ap (λ u. r.digits ++ u) single;
      all_digits = r.all_digits;
      some_digits = positive;
      unit_of_letter = meaning;
      product = ground (arith, product);
    }

match-IsDuration : (t : String) (ms : ℕ) → match_duration t ≡ some ms → IsDuration t ms
unfolding match_duration
match-IsDuration [] ms e = absurd (ground arith)
match-IsDuration (c ∷ t) ms e = elim (Bool-cases (is_digit c)) [
  | inl digit ↦ taken_matches c t ms digit e
  | inr other ↦ let nothing : none ≡ some ms = rw other at e in absurd (ground arith)
]

spelled :
    (s : String) (c : Char) (unit : ℕ)
    → AllDigits s
    → 0 < length s
    → IsUnit c unit
    → match_duration (s ++ (c ∷ [])) ≡ some (value s * unit)
spelled [] c unit h positive u = absurd (omega arith)
spelled (x ∷ s) c unit h positive u =
    let (known, other) = IsUnit-unit_to_ms c unit u in
    let text = cons-append x s (c ∷ []) in
    ap match_duration text
    ∙ match_digit x (s ++ (c ∷ [])) h.0
    ∙ ap (λ (t : String). let (n, rest) = take_digits 0 t in times_unit n (unit_to_ms rest))
        (sym text)
    ∙ ap (λ (p : ℕ × String). times_unit p.0 (unit_to_ms p.1))
        (take_digits-value 0 (x ∷ s) c [] h other)
    ∙ rw known (ground arith)

IsDuration-match : (t : String) (ms : ℕ) → IsDuration t ms → match_duration t ≡ some ms
IsDuration-match t ms d =
    ap match_duration d.split
    ∙ spelled d.digits d.letter d.unit d.all_digits d.some_digits d.unit_of_letter
    ∙ ap (λ n. some n) (sym d.product)

-- A text is read exactly if, trimmed, it is one or more digits and one of the letters s, m, h, d
-- and w; the result is the number that the digits stand for in decimal notation, times what the
-- letter stands for.
pub parse_duration_iff :
    (duration : String) (ms : ℕ)
    → (parse_duration_to_ms duration ≡ some ms) ↔ IsDuration (trim duration) ms
unfolding parse_duration_to_ms
parse_duration_iff duration ms =
    (match-IsDuration (trim duration) ms, IsDuration-match (trim duration) ms)
