-- ===== src/Users/JoinRows/Sets.antt =====
-- Lists of ids as sets: what `distinct` keeps, and how many ids two duplicate-free lists share.
use nestjs_app.Prelude.{
  ℕ, ◌+◌, ◌≡◌, refl, sym, ap, ◌∙◌, ◌↔◌, String, Bool, true, false, not, ◌&&◌, List, [], ◌∷◌, arith,
  str_eq, eq_iff, eq_refl, ◌==◌, if◌then◌else◌, length, all, keep,
}
use nestjs_app.Users.JoinRows.{has, distinct_from, distinct, missing_ids}

abbrev pub IsDistinct : List String → Type 0
IsDistinct [] = Unit
IsDistinct (x ∷ xs) = (has x xs ≡ false) × IsDistinct xs

has-distinct_from :
    (id : String) (seen ids : List String)
    → has id (distinct_from seen ids) ≡ (not (has id seen) && has id ids)
unfolding distinct_from
has-distinct_from id seen [] = ground arith
has-distinct_from id seen (x ∷ ids) =
    ground (arith, has-distinct_from id seen ids, has-distinct_from id (x ∷ seen) ids, eq_iff id x)

distinct_from-IsDistinct : (seen ids : List String) → IsDistinct (distinct_from seen ids)
unfolding distinct_from
distinct_from-IsDistinct seen [] = tt
distinct_from-IsDistinct seen (x ∷ ids) = ground (
  arith,
  distinct_from-IsDistinct seen ids,
  distinct_from-IsDistinct (x ∷ seen) ids,
  has-distinct_from x (x ∷ seen) ids,
  eq_refl x,
)

-- `distinct` keeps the members,
pub has-distinct : (id : String) (ids : List String) → has id (distinct ids) ≡ has id ids
unfolding distinct
has-distinct id ids = has-distinct_from id [] ids

-- and holds each once.
pub distinct-IsDistinct : (ids : List String) → IsDistinct (distinct ids)
unfolding distinct
distinct-IsDistinct ids = distinct_from-IsDistinct [] ids

one_if : Bool → ℕ
one_if b = if b then 1 else 0

-- How often the id stands in the list.
occurs : String → List String → ℕ
unfolding one_if
occurs id [] = 0
occurs id (x ∷ xs) = one_if (str_eq id x) + occurs id xs

-- How many pairs of equal ids the two lists have.
shared : List String → List String → ℕ
shared [] ys = 0
shared (x ∷ xs) ys = occurs x ys + shared xs ys

occurs-has : (id : String) (xs : List String) → IsDistinct xs → occurs id xs ≡ one_if (has id xs)
unfolding occurs
occurs-has id [] d = refl
occurs-has id (x ∷ xs) (new, d) = ground (arith, occurs-has id xs d, eq_iff id x)

shared-nil : (xs : List String) → shared xs [] ≡ 0
unfolding shared occurs
shared-nil [] = refl
shared-nil (x ∷ xs) = omega (arith, shared-nil xs)

str_eq_comm : (a b : String) → str_eq a b ≡ str_eq b a
str_eq_comm a b = ground (arith, eq_iff a b, eq_iff b a)

shared-cons :
    (xs : List String) (y : String) (ys : List String)
    → shared xs (y ∷ ys) ≡ occurs y xs + shared xs ys
unfolding shared occurs
shared-cons [] y ys = refl
shared-cons (x ∷ xs) y ys = rw (str_eq_comm x y) (omega (arith, shared-cons xs y ys))

shared_comm : (xs ys : List String) → shared xs ys ≡ shared ys xs
unfolding shared
shared_comm xs [] = shared-nil xs
shared_comm xs (y ∷ ys) = omega (arith, shared-cons xs y ys, shared_comm xs ys)

shared-keep :
    (xs ys : List String) → IsDistinct ys → shared xs ys ≡ length (keep (λ x. has x ys) xs)
unfolding shared one_if
shared-keep [] ys d = refl
shared-keep (x ∷ xs) ys d = ground (arith, shared-keep xs ys d, occurs-has x ys d)

-- Two duplicate-free lists have as many of each other's ids.
pub length-keep_comm :
    (xs ys : List String)
    → IsDistinct xs
    → IsDistinct ys
    → length (keep (λ x. has x ys) xs) ≡ length (keep (λ y. has y xs) ys)
length-keep_comm xs ys dx dy = sym (shared-keep xs ys dy) ∙ shared_comm xs ys ∙ shared-keep ys xs dx

length-keep-missing :
    (p : String → Bool) (xs : List String)
    → length (keep p xs) + length (keep (λ x. not (p x)) xs) ≡ length xs
length-keep-missing p [] = refl
length-keep-missing p (x ∷ xs) = ground (arith, length-keep-missing p xs)

pub nil_of_length : (xs : List String) → length xs ≡ 0 → xs ≡ []
nil_of_length [] h = refl
nil_of_length (x ∷ xs) h = absurd (omega arith)

-- So the query finds as many rows as there are ids exactly when no id is missing.
pub length-found_iff :
    (known ids : List String)
    → IsDistinct known
    → IsDistinct ids
    → ((length (keep (λ id. has id ids) known) == length ids) ≡ true) ↔ (missing_ids known ids ≡ [])
length-found_iff known ids dk di = (
  λ e. nil_of_length (missing_ids known ids) (
      ground
        (arith, length-keep_comm known ids dk di, length-keep-missing (λ id. has id known) ids)),
  λ e. ground (
    arith,
    length-keep_comm known ids dk di,
    length-keep-missing (λ id. has id known) ids,
    ap length e,
  ),
)

-- What the query found decides the same ids as the whole table.
pub has-keep :
    (id : String) (p : String → Bool) (xs : List String) → has id (keep p xs) ≡ (has id xs && p id)
has-keep id p [] = refl
has-keep id p (x ∷ xs) = ground (arith, has-keep id p xs, eq_iff id x)

pub all-has :
    (ids xs : List String)
    → ((x : String) → has x xs ≡ true → has x ids ≡ true)
    → all (λ x. has x ids) xs ≡ true
all-has ids [] h = refl
all-has ids (x ∷ xs) h = ground (arith, h x, eq_refl x, all-has ids xs (λ y k. h y (ground arith)))
