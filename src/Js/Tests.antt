-- ===== src/Js/Tests.antt =====
-- The string functions on small inputs.
use nestjs_app.Prelude.{◌≡◌, refl, some, none, [], ◌∷◌}
use nestjs_app.Js.{trim, to_lower_case, trim_or_null, join}

trim_test : trim " a b " ≡ "a b"
unfolding trim
trim_test = refl

to_lower_case_test : to_lower_case "Jane.DOE@Example.com" ≡ "jane.doe@example.com"
unfolding to_lower_case
to_lower_case_test = refl

trim_or_null_test : trim_or_null (some "  ") ≡ none
unfolding trim_or_null
trim_or_null_test = refl

join_test : join ", " ("a" ∷ "b" ∷ "c" ∷ []) ≡ "a, b, c"
unfolding join
join_test = refl
