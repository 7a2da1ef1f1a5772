-- ===== src/References/Substitution.antt =====
-- The substitution of the references, read from left to right.
use mathlib.Core.List.{reverse, append_assoc, append-nil, reverse-cons}
use merlya.Common.{
  ℕ, zero, suc, ◌+◌, ◌≡◌, refl, sym, ap, ◌∙◌, Bool, true, Bool-cases, inl, inr, Option, none, some,
  List, [], ◌∷◌, ◌++◌, take, drop, length, length-append, if◌then◌else◌, arith,
}
use merlya.Common.Text.{Text}
use merlya.References.{
  outside, inside, is_boundary, is_name_char, opens, find_from, references, splice, replaced,
  replace_all,
}

-- A text that is read from left to right: whether a reference may start here, or its name so far.
pub data Reading : Type 0 where
  between : Bool → Reading
  named : Text → Reading

-- The value of a reference, or the reference itself.
abbrev pub value_or_reference : Option Text → Text → Text
value_or_reference none n = 64 ∷ n
value_or_reference (some v) n = v

-- The text with the references written out, in one pass.
unfoldable pub expand : (Text → Option Text) → Reading → Text → Text
expand f (between ok) [] = []
expand f (named acc) [] = value_or_reference (f acc) acc
expand f (between ok) (c ∷ s) =
    let rest = expand f (if opens ok c s then named [] else between (is_boundary c)) s in
    if opens ok c s then rest else c ∷ rest
expand f (named acc) (c ∷ s) =
    let rest =
      expand f (if is_name_char c then named (acc ++ (c ∷ [])) else between (is_boundary c)) s in
    if is_name_char c then rest else value_or_reference (f acc) acc ++ (c ∷ rest)

module _ {A : Type 0} where
  take-prefix : (n : ℕ) (xs ys : List A) → n ≡ length xs → take n (xs ++ ys) ≡ xs
  take-prefix zero [] ys e = refl
  take-prefix zero (x ∷ xs) ys e = absurd (omega (arith, e))
  take-prefix (suc n) [] ys e = absurd (omega (arith, e))
  take-prefix (suc n) (x ∷ xs) ys e = ap (λ zs. x ∷ zs) (take-prefix n xs ys (omega (arith, e)))

  drop-prefix : (n : ℕ) (xs ys : List A) → n ≡ length xs → drop n (xs ++ ys) ≡ ys
  drop-prefix zero [] ys e = refl
  drop-prefix zero (x ∷ xs) ys e = absurd (omega (arith, e))
  drop-prefix (suc n) [] ys e = absurd (omega (arith, e))
  drop-prefix (suc n) (x ∷ xs) ys e = drop-prefix n xs ys (omega (arith, e))

opens-at : (ok : Bool) (c : ℕ) (s : Text) → opens ok c s ≡ true → c ≡ 64
unfolding opens
opens-at ok c s h = ground (arith, h)

-- A reference between two texts is replaced by its value, or stays.
replaced-between :
    (p n q : Text) (start end : ℕ) (r : Option Text)
    → start ≡ length p
    → end ≡ length p + 1 + length n
    → replaced (record { name = n; start = start; end = end }) r (p ++ ((64 ∷ n) ++ q))
      ≡ p ++ (value_or_reference r n ++ q)
unfolding splice
replaced-between p n q start end none e g = refl
replaced-between p n q start end (some v) e g =
    ap (λ x. (x ++ v) ++ drop end (p ++ ((64 ∷ n) ++ q))) (take-prefix start p ((64 ∷ n) ++ q) e)
    ∙ ap (λ x. (p ++ v) ++ x)
        (ap (drop end) (sym (append_assoc p (64 ∷ n) q))
          ∙ drop-prefix end (p ++ (64 ∷ n)) q (omega (arith, g, length-append p (64 ∷ n))))
    ∙ append_assoc p v q

module _ (f : Text → Option Text) where
  -- The search from a place, on a text of which `p`, and the name so far, are read.
  Expands : Text → Type 0
  Expands s =
      ((p : Text) (ok : Bool) (at : ℕ)
        → at ≡ length p
        → replace_all f (find_from at (outside ok) s) (p ++ s) ≡ p ++ expand f (between ok) s)
      × ((p acc : Text) (start at : ℕ)
          → start ≡ length p
          → at ≡ length p + 1 + length (reverse acc)
          → replace_all f (find_from at (inside start acc) s) (p ++ ((64 ∷ reverse acc) ++ s))
            ≡ p ++ expand f (named (reverse acc)) s)

  outside-nil :
      (p : Text) (ok : Bool) (at : ℕ)
      → replace_all f (find_from at (outside ok) []) (p ++ []) ≡ p ++ expand f (between ok) []
  unfolding replace_all find_from expand
  outside-nil p ok at = refl

  inside-nil :
      (p acc : Text) (start at : ℕ)
      → start ≡ length p
      → at ≡ length p + 1 + length (reverse acc)
      → replace_all f (find_from at (inside start acc) []) (p ++ ((64 ∷ reverse acc) ++ []))
        ≡ p ++ expand f (named (reverse acc)) []
  unfolding replace_all find_from expand
  inside-nil p acc start at e g =
      replaced-between p (reverse acc) [] start at (f (reverse acc)) e g
      ∙ ap (λ x. p ++ x) (append-nil (value_or_reference (f (reverse acc)) (reverse acc)))

  outside-cons :
      (c : ℕ) (s p : Text) (ok : Bool) (at : ℕ)
      → Expands s
      → at ≡ length p
      → replace_all f (find_from at (outside ok) (c ∷ s)) (p ++ (c ∷ s))
        ≡ p ++ expand f (between ok) (c ∷ s)
  unfolding replace_all find_from expand Expands
  outside-cons c s p ok at (o, i) e = elim (Bool-cases (opens ok c s)) [
    | inl t ↦ let k = opens-at ok c s t in rw (t, k) (i p [] at (at + 1) e (omega (arith, e)))
    | inr t ↦ rw t (
        ap (replace_all f (find_from (at + 1) (outside (is_boundary c)) s))
          (sym (append_assoc p (c ∷ []) s))
        ∙ o (p ++ (c ∷ [])) (is_boundary c) (at + 1) (omega (arith, e, length-append p (c ∷ [])))
        ∙ append_assoc p (c ∷ []) (expand f (between (is_boundary c)) s))
  ]

  -- A text after a reference and a character.
  after_reference :
      (p n y : Text) (c : ℕ) → (p ++ ((64 ∷ n) ++ (c ∷ []))) ++ y ≡ p ++ ((64 ∷ n) ++ (c ∷ y))
  after_reference p n y c =
      append_assoc p ((64 ∷ n) ++ (c ∷ [])) y ∙ ap (λ x. p ++ x) (append_assoc (64 ∷ n) (c ∷ []) y)

  inside-cons :
      (c : ℕ) (s p acc : Text) (start at : ℕ)
      → Expands s
      → start ≡ length p
      → at ≡ length p + 1 + length (reverse acc)
      → replace_all f
          (find_from at (inside start acc) (c ∷ s))
          (p ++ ((64 ∷ reverse acc) ++ (c ∷ s)))
        ≡ p ++ expand f (named (reverse acc)) (c ∷ s)
  unfolding replace_all find_from expand Expands
  inside-cons c s p acc start at (o, i) e g =
      let n = reverse acc in
      let l = length-append (64 ∷ n) (c ∷ []) in
      elim (Bool-cases (is_name_char c)) [
        | inl t ↦
            let k = reverse-cons c acc in
            rw t (
              ap
                (λ x. replace_all f (find_from (at + 1) (inside start (c ∷ acc)) s) (p ++ (64 ∷ x)))
                (sym (append_assoc n (c ∷ []) s) ∙ ap (λ x. x ++ s) (sym k))
              ∙ i p (c ∷ acc) start (at + 1) e
                  (omega (arith, g, ap length k, length-append n (c ∷ [])))
              ∙ ap (λ x. p ++ expand f (named x) s) k)
        | inr t ↦ rw t (
            ap (replaced (record { name = n; start = start; end = at }) (f n)) (
              ap (replace_all f (find_from (at + 1) (outside (is_boundary c)) s))
                (sym (after_reference p n s c))
              ∙ o (p ++ ((64 ∷ n) ++ (c ∷ []))) (is_boundary c) (at + 1)
                  (omega (arith, g, l, length-append p ((64 ∷ n) ++ (c ∷ []))))
              ∙ after_reference p n (expand f (between (is_boundary c)) s) c)
            ∙ replaced-between p n (c ∷ expand f (between (is_boundary c)) s) start at (f n) e g)
      ]

  all-Expands : (s : Text) → Expands s
  unfolding Expands
  all-Expands [] =
      (λ p ok at e. outside-nil p ok at, λ p acc start at e g. inside-nil p acc start at e g)
  all-Expands (c ∷ s) = (
    λ p ok at e. outside-cons c s p ok at (all-Expands s) e,
    λ p acc start at e g. inside-cons c s p acc start at (all-Expands s) e g,
  )

  -- Replacing the matches from the last to the first, by their positions in the original command,
  -- gives the command with each reference written out as it is read from left to right, whatever
  -- the values.
  pub replace_all-expand :
      (command : Text)
      → replace_all f (references command) command ≡ expand f (between true) command
  unfolding references Expands
  replace_all-expand command = (all-Expands command).0 [] true 0 refl
