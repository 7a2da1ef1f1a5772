-- ===== src/References/Examples.antt =====
-- Commands with references to secrets.
use merlya.Common.{◌≡◌, refl, Option, none, some, [], ◌∷◌, if◌then◌else◌}
use merlya.Common.Text.{Text, codes, text_eq, is_space}
use merlya.References.{
  SecretStore, references, replace_all, is_boundary, is_name_char, opens, starts_with_letter,
  resolve_secrets,
}
use merlya.References.Substitution.{expand, replace_all-expand}
use merlya.References.Logging.{if-alike, logged_command-hides_values}

-- A store with one password.
abbrev store : Text → SecretStore
store password = record {
  get_secret = λ n. if text_eq n (codes "sudo:web:password") then some password else none;
  list_names = codes "sudo:web:password" ∷ [];
}

abbrev values : Text → Option Text
values n = if text_eq n (codes "db") then some (codes "secret") else none

abbrev command : Text
command = codes "me@web x=@db @no"

replace_all-expand_example :
    replace_all values (references command) command ≡ codes "me@web x=secret @no"
unfolding expand is_boundary is_name_char opens starts_with_letter text_eq is_space
replace_all-expand_example = replace_all-expand values command

logged_command-hides_values_example :
    (resolve_secrets (store (codes "p1")) [] command).1
    ≡ (resolve_secrets (store (codes "another")) [] command).1
logged_command-hides_values_example =
    logged_command-hides_values (store (codes "p1")) (store (codes "another")) [] command (
      refl,
      λ n.
          if-alike (text_eq n (codes "sudo:web:password")) (some (codes "p1")) none
            (some (codes "another")) none refl refl,
    )
