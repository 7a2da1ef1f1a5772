-- ===== src/Validation/Examples.antt =====
-- Arguments that are accepted.
use merlya.Common.{◌≡◌, refl, none, [], ◌∷◌, ◌++◌}
use merlya.Common.Text.{codes}
use merlya.Validation.{validate_service_name, is_service_char, whole_matches}

-- A newline at the end is accepted.
newline_is_accepted : validate_service_name (codes "sshd" ++ (10 ∷ [])) ≡ none
unfolding validate_service_name is_service_char whole_matches
newline_is_accepted = refl
