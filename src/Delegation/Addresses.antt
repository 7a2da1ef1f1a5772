-- ===== src/Delegation/Addresses.antt =====
-- merlya/agent/orchestrator/target_normalization.py: where a delegation goes.
use mathlib.Core.Path.{subst}
use merlya.Common.{
  ℕ, ◌≡◌, refl, sym, ap, ◌⊎◌, inl, inr, Bool, true, false, Bool-cases, Option, none, some, [], ◌∷◌,
  ◌++◌, arith, ◌==◌, ==_iff, if◌then◌else◌,
}
use merlya.Common.Text.{Text, lower, one_of}
use merlya.Delegation.Targets.{
  Entry, Inventory, local_names, is_ip, split_at, local_target, user_and_host, onto, user_at_host,
  has_char, entry_or_local, find_entry, resolve_name, resolve_other, found_or, resolve_target,
}

-- No alias of this machine, no user and host, no address, and no name of an entry after a sign.
abbrev pub IsUnknown : Inventory → Text → Type 0
IsUnknown i s =
    (one_of (lower s) local_names ≡ false)
    × (user_at_host s ≡ none)
    × (is_ip s ≡ false)
    × ((name : Text) → s ≡ 64 ∷ name → (has_char 58 name ≡ true) ⊎ (find_entry i name ≡ none))

-- The ways in which a target says where a delegation goes: an alias of this machine, a user and a
-- host, an address, or the name of an entry of the inventory after a sign; all else is this machine.
pub data Names (i : Inventory) : Text → Text × Option Text → Type 0 where
  an_alias : (s : Text) → one_of (lower s) local_names ≡ true → Names i s local_target
  a_user :
      (c : ℕ) (u : Text) (d : ℕ) (h : Text)
      → one_of (lower ((c ∷ u) ++ (64 ∷ d ∷ h))) local_names ≡ false
      → has_char 64 (c ∷ u) ≡ false
      → Names i ((c ∷ u) ++ (64 ∷ d ∷ h)) (d ∷ h, some (c ∷ u))
  an_address :
      (s : Text) → one_of (lower s) local_names ≡ false → is_ip s ≡ true → Names i s (s, none)
  an_entry :
      (name : Text) (e : Entry)
      → has_char 58 name ≡ false
      → find_entry i name ≡ some e
      → Names i (64 ∷ name) (e.hostname, e.username)
  unknown : (s : Text) → IsUnknown i s → Names i s local_target

-- What a split gives: the texts before and after the first such character.
abbrev IsSplit : ℕ → Text → Option (Text × Text) → Type 0
IsSplit c s none = Unit
IsSplit c s (some p) = (s ≡ p.0 ++ (c ∷ p.1)) × (has_char c p.0 ≡ false)

onto-IsSplit :
    (c d : ℕ) (s : Text) (o : Option (Text × Text))
    → (d == c) ≡ false
    → IsSplit c s o
    → IsSplit c (d ∷ s) (onto d o)
unfolding has_char
onto-IsSplit c d s none e h = tt
onto-IsSplit c d s (some p) e h = (ap (λ x. d ∷ x) h.0, ground (arith, e, h.1))

split_at-IsSplit : (c : ℕ) (s : Text) → IsSplit c s (split_at c s)
unfolding split_at has_char
split_at-IsSplit c [] = tt
split_at-IsSplit c (d ∷ s) = elim (Bool-cases (d == c)) [
  | inl e ↦ rw e (ap (λ x. x ∷ s) ((==_iff d c).0 e), refl)
  | inr e ↦ rw e (onto-IsSplit c d s (split_at c s) e (split_at-IsSplit c s))
]

module _ (i : Inventory) where
  abbrev NamesUser : Text → Option (Text × Option Text) → Type 0
  NamesUser s none = Unit
  NamesUser s (some r) = Names i s r

  user_and_host-NamesUser :
      (s : Text) (o : Option (Text × Text))
      → one_of (lower s) local_names ≡ false
      → IsSplit 64 s o
      → NamesUser s (user_and_host o)
  user_and_host-NamesUser s none e h = tt
  user_and_host-NamesUser s (some ([], h)) e p = tt
  user_and_host-NamesUser s (some (c ∷ u, [])) e p = tt
  user_and_host-NamesUser s (some (c ∷ u, d ∷ h)) e p =
      subst (λ x. Names i x (d ∷ h, some (c ∷ u))) (sym p.0)
        (a_user c u d h (subst (λ x. one_of (lower x) local_names ≡ false) p.0 e) p.1)

  -- The rest of a target that starts with the sign.
  name_unknown :
      (name : Text)
      → one_of (lower (64 ∷ name)) local_names ≡ false
      → user_at_host (64 ∷ name) ≡ none
      → is_ip (64 ∷ name) ≡ false
      → (has_char 58 name ≡ true) ⊎ (find_entry i name ≡ none)
      → Names i (64 ∷ name) local_target
  name_unknown name a u p w = unknown (64 ∷ name) (
    a,
    u,
    p,
    λ n e. subst (λ x. (has_char 58 x ≡ true) ⊎ (find_entry i x ≡ none)) (ground (arith, e)) w,
  )

  entry_or_local-Names :
      (name : Text) (o : Option Entry)
      → find_entry i name ≡ o
      → has_char 58 name ≡ false
      → (find_entry i name ≡ none → Names i (64 ∷ name) local_target)
      → Names i (64 ∷ name) (entry_or_local o)
  entry_or_local-Names name none e h k = k e
  entry_or_local-Names name (some x) e h k = an_entry name x h e

  resolve_name-Names :
      (name : Text)
      → one_of (lower (64 ∷ name)) local_names ≡ false
      → user_at_host (64 ∷ name) ≡ none
      → is_ip (64 ∷ name) ≡ false
      → Names i (64 ∷ name) (resolve_name (some i) name)
  unfolding resolve_name
  resolve_name-Names name a u p = elim (Bool-cases (has_char 58 name)) [
    | inl c ↦ rw c (name_unknown name a u p (inl c))
    | inr c ↦ rw c (
        entry_or_local-Names name (find_entry i name) refl c (λ n. name_unknown name a u p (inr n)))
  ]

  resolve_other-Names :
      (s : Text)
      → one_of (lower s) local_names ≡ false
      → user_at_host s ≡ none
      → Names i s (resolve_other (some i) s)
  unfolding resolve_other
  resolve_other-Names [] a u = unknown [] (a, u, refl, λ n e. absurd (ground (arith, e)))
  resolve_other-Names (c ∷ s) a u = elim (Bool-cases (is_ip (c ∷ s))) [
    | inl p ↦ rw p (an_address (c ∷ s) a p)
    | inr p ↦ rw p (sign c s (c == 64) refl a u p)
  ]
    where
      sign :
          (c : ℕ) (s : Text) (t : Bool)
          → (c == 64) ≡ t
          → one_of (lower (c ∷ s)) local_names ≡ false
          → user_at_host (c ∷ s) ≡ none
          → is_ip (c ∷ s) ≡ false
          → Names i (c ∷ s) (if t then resolve_name (some i) s else local_target)
      sign c s true e a u p =
          subst
            (λ x.
              one_of (lower (x ∷ s)) local_names ≡ false
              → user_at_host (x ∷ s) ≡ none
              → is_ip (x ∷ s) ≡ false
              → Names i (x ∷ s) (resolve_name (some i) s))
            (sym ((==_iff c 64).0 e)) (resolve_name-Names s) a u p
      sign c s false e a u p = unknown (c ∷ s) (a, u, p, λ n q. absurd (ground (arith, e, q)))

  -- The resolution of a target with the inventory goes where the target says: to this machine for
  -- an alias of it, to the host after the first sign with the user before it, to an address, to the
  -- entry of a name without a colon; and to this machine for everything else, an unknown name and a
  -- plain name among them.
  pub resolve_target-Names : (s : Text) → Names i s (resolve_target (some i) s)
  unfolding resolve_target user_at_host
  resolve_target-Names s = elim (Bool-cases (one_of (lower s) local_names)) [
    | inl a ↦ rw a (an_alias s a)
    | inr a ↦ rw a (
        named (user_and_host (split_at 64 s)) refl a
          (user_and_host-NamesUser s (split_at 64 s) a (split_at-IsSplit 64 s)))
  ]
    where
      named :
          (o : Option (Text × Option Text))
          → user_and_host (split_at 64 s) ≡ o
          → one_of (lower s) local_names ≡ false
          → NamesUser s o
          → Names i s (found_or o (resolve_other (some i) s))
      named none e a h = resolve_other-Names s a e
      named (some r) e a h = h
