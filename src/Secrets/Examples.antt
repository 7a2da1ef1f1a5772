-- ===== src/Secrets/Examples.antt =====
-- Runs of the session's password store.
use merlya.Common.{ℕ, ◌≡◌, refl, String, true, Option, none, some, List, [], ◌∷◌}
use merlya.Common.Outcome.{raised}
use merlya.Common.Dict.{lookup}
use merlya.Secrets.{Prompts, get, get_or_prompt_async, prompt_password_async, prompt_password_sync}
use Prim.Native.Nat.{◌+◌}

-- A world counts the prompts; the interface fails and the terminal answers.
abbrev io : Prompts ℕ
io = record {
  getpass = λ p n. (some "hunter2", n + 1);
  prompt_secret = some λ p n. (raised "no terminal", n + 1);
}

abbrev writes : List (String × Option String)
writes = ("sudo:db", some "secret") ∷ ("ssh:web", none) ∷ []

asked_twice : (get_or_prompt_async io "sudo:web" "Password" (some "web") true 0 []).1 ≡ 2
unfolding get_or_prompt_async prompt_password_async prompt_password_sync get lookup
asked_twice = refl
