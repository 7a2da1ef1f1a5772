-- ===== src/Logs/Lines.antt =====
-- merlya/tools/logs/store.py: the lines of a text, and the text of lines.
use merlya.Common.{
  ℕ, ◌≡◌, refl, ap, ◌∙◌, Bool, true, false, Bool-cases, List, [], ◌∷◌, ◌++◌, arith, ◌==◌,
  if◌then◌else◌, All, take, drop, zero, suc, inl, inr,
}
use merlya.Common.Text.{Text}
use merlya.Logs.{split_lines, join_lines, onto_first}

-- The text has no newline.
unfoldable pub is_line : Text → Bool
is_line [] = true
is_line (c ∷ s) = if c == 10 then false else is_line s

abbrev pub IsLine : Text → Type 0
IsLine s = is_line s ≡ true

split_lines-append : (l s : Text) → IsLine l → split_lines (l ++ (10 ∷ s)) ≡ l ∷ split_lines s
unfolding split_lines is_line
split_lines-append [] s h = refl
split_lines-append (c ∷ l) s h = ground (arith, h, split_lines-append l s)

split_lines-line : (l : Text) → IsLine l → split_lines l ≡ l ∷ []
unfolding split_lines is_line
split_lines-line [] h = refl
split_lines-line (c ∷ l) h = ground (arith, h, split_lines-line l)

pub split_lines-join_lines :
    (l : Text) (ls : List Text) → All IsLine (l ∷ ls) → split_lines (join_lines (l ∷ ls)) ≡ l ∷ ls
unfolding join_lines
split_lines-join_lines l [] h = split_lines-line l h.0
split_lines-join_lines l (m ∷ ls) h =
    split_lines-append l (join_lines (m ∷ ls)) h.0
    ∙ ap (λ x. l ∷ x) (split_lines-join_lines m ls h.1)

onto_first-IsLine :
    (c : ℕ) (ls : List Text) → (c == 10) ≡ false → All IsLine ls → All IsLine (onto_first c ls)
unfolding is_line
onto_first-IsLine c [] e h = (ground (arith, e), tt)
onto_first-IsLine c (l ∷ ls) e h = (ground (arith, e, h.0), h.1)

pub split_lines-IsLine : (s : Text) → All IsLine (split_lines s)
unfolding split_lines is_line
split_lines-IsLine [] = (refl, tt)
split_lines-IsLine (c ∷ s) = elim (Bool-cases (c == 10)) [
  | inl e ↦ rw e (refl, split_lines-IsLine s)
  | inr e ↦ rw e (onto_first-IsLine c (split_lines s) e (split_lines-IsLine s))
]

pub take-All : (P : Text → Type 0) (n : ℕ) (ls : List Text) → All P ls → All P (take n ls)
take-All P zero ls h = tt
take-All P (suc n) [] h = tt
take-All P (suc n) (l ∷ ls) h = (h.0, take-All P n ls h.1)

pub drop-All : (P : Text → Type 0) (n : ℕ) (ls : List Text) → All P ls → All P (drop n ls)
drop-All P zero ls h = h
drop-All P (suc n) [] h = tt
drop-All P (suc n) (l ∷ ls) h = drop-All P n ls h.1
