-- ===== src/Secrets/Session.antt =====
-- When a password is asked for again.
use merlya.Common.{
  ◌≡◌, refl, String, Bool, true, false, Option, none, some, List, [], ◌∷◌, str_eq, eq_refl, arith,
  Bool-cases, ◌∙◌, ap, inl, inr,
}
use merlya.Common.Outcome.{Outcome, returned, raised, cancelled}
use merlya.Common.Dict.{lookup-insert, lookup-delete}
use merlya.Secrets.{
  Passwords, get, set, remove, Prompts, truthy, prompt_password_async, entered, cached_or,
  get_or_prompt_async, get_or_prompt_sync,
}

-- The state of the store after these writes for other keys: a password, or none to remove it.
abbrev pub written : List (String × Option String) → Passwords → Passwords
written [] d = d
written ((k, none) ∷ ws) d = written ws (remove k d)
written ((k, some p) ∷ ws) d = written ws (set k p d)

abbrev pub OtherKeys : String → List (String × Option String) → Type 0
OtherKeys key [] = Unit
OtherKeys key ((k, o) ∷ ws) = (str_eq k key ≡ false) × OtherKeys key ws

get-written :
    (key : String) (ws : List (String × Option String)) (d : Passwords)
    → OtherKeys key ws
    → get key (written ws d) ≡ get key d
unfolding get set remove
get-written key [] d o = refl
get-written key ((k, none) ∷ ws) d (n, o) =
    get-written key ws (remove k d) o ∙ ground (arith, n, lookup-delete k key d)
get-written key ((k, some p) ∷ ws) d (n, o) =
    get-written key ws (set k p d) o ∙ ground (arith, n, lookup-insert k key p d)

module _ {W : Type 0} (io : Prompts W) where
  returned-injective : {p q : String} → Path (Outcome String) (returned p) (returned q) → p ≡ q
  returned-injective e = ground (arith, e)

  cached_or-some :
      (p : String) (r : Outcome String × W × Passwords) (w : W) (d : Passwords) (o : Option String)
      → o ≡ some p
      → truthy p ≡ true
      → cached_or io o r w d ≡ (returned p, w, d)
  cached_or-some p r w d o e h = rw e (rw h refl)

  -- A stored password that is not empty is returned by both functions with no prompt, and nothing
  -- changes.
  cached-no_prompt :
      (key prompt p : String) (host : Option String) (store : Bool) (w : W) (d : Passwords)
      → get key d ≡ some p
      → truthy p ≡ true
      → (get_or_prompt_async io key prompt host store w d ≡ (returned p, w, d))
        × (get_or_prompt_sync io key prompt host store w d ≡ (returned p, w, d))
  unfolding get_or_prompt_async get_or_prompt_sync
  cached-no_prompt key prompt p host store w d e h =
      (cached_or-some p _ w d _ e h, cached_or-some p _ w d _ e h)

  entered-stored :
      (key p : String) (r : Outcome String × W) (d : Passwords)
      → (entered io true key r d).0 ≡ returned p
      → truthy p ≡ true
      → get key (entered io true key r d).2 ≡ some p
  unfolding get set
  entered-stored key p (returned q, w) d e h =
      ground (arith, e, h, lookup-insert key key q d, eq_refl key)
  entered-stored key p (raised x, w) d e h = absurd (ground (arith, e))
  entered-stored key p (cancelled, w) d e h = absurd (ground (arith, e))

  cached_or-stored :
      (key p : String) (o : Option String) (r : Outcome String × W) (w : W) (d : Passwords)
      → get key d ≡ o
      → (cached_or io o (entered io true key r d) w d).0 ≡ returned p
      → truthy p ≡ true
      → get key (cached_or io o (entered io true key r d) w d).2 ≡ some p
  cached_or-stored key p none r w d g e h = entered-stored key p r d e h
  cached_or-stored key p (some q) r w d g e h = elim (Bool-cases (truthy q)) [
    | inl t ↦ rw t (g ∙ ap some (returned-injective (rw t at e)))
    | inr t ↦ rw t (entered-stored key p r d (rw t at e) h)
  ]

  -- A password that was entered, or found, with `store` on and is not empty is what both functions
  -- return for its key from then on, with no prompt and no change, whatever is written for other keys
  -- in between.
  pub entered_once :
      (key prompt p : String) (host : Option String) (w : W) (d : Passwords)
      (ws : List (String × Option String))
      → (get_or_prompt_async io key prompt host true w d).0 ≡ returned p
      → truthy p ≡ true
      → OtherKeys key ws
      → (w' : W) (store : Bool)
      → let d' = written ws (get_or_prompt_async io key prompt host true w d).2 in
        (get_or_prompt_async io key prompt host store w' d' ≡ (returned p, w', d'))
        × (get_or_prompt_sync io key prompt host store w' d' ≡ (returned p, w', d'))
  unfolding get_or_prompt_async
  entered_once key prompt p host w d ws e h o w' store =
      cached-no_prompt key prompt p host store w' _
        (get-written key ws _ o
          ∙ cached_or-stored key p (get key d) (prompt_password_async io prompt host w) w d refl e
              h)
        h
