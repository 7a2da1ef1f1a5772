-- ===== src/Logs/Slices.antt =====
-- merlya/tools/logs/store.py: which lines a slice of a log has.
use mathlib.Core.Path.{subst}
use mathlib.Core.Option.{some-injective}
use merlya.Common.{
  ℕ, zero, suc, ◌+◌, ◌-◌, ◌≤◌, ◌≡◌, refl, sym, ap, ◌∙◌, String, eq_refl, Option, none, some, List,
  [], ◌∷◌, ◌++◌, arith, take, drop, length, length-take, length-drop, min, All,
}
use merlya.Common.Text.{Text}
use merlya.Logs.{
  RawLogEntry, Table, new_entry, store_raw_log, get_raw_log, split_lines, join_lines, slice_bounds,
  sublist, slice_of, slice_found, get_raw_log_slice,
}
use merlya.Logs.Lines.{IsLine, split_lines-join_lines, split_lines-IsLine, take-All, drop-All}

-- The text has the lines numbered from `start` to `end` of the output, counted from 1.
abbrev pub HasLines : Text → Text × ℕ × ℕ → Type 0
HasLines output (s, start, end) =
    (1 ≤ start)
    × (end ≤ length (split_lines output))
    × (split_lines s ≡ take (end + 1 - start) (drop (start - 1) (split_lines output)))

split-join : (ls : List Text) → 1 ≤ length ls → All IsLine ls → split_lines (join_lines ls) ≡ ls
split-join [] h a = absurd (omega (arith, h))
split-join (l ∷ ls) h a = split_lines-join_lines l ls a

take_exact : (n m : ℕ) (ls : List Text) → m ≡ length (take n ls) → take m ls ≡ take n ls
take_exact zero m ls e = subst (λ x. take x ls ≡ []) (sym e) refl
take_exact (suc n) m [] e = subst (λ x. take {A = Text} x [] ≡ []) (sym e) refl
take_exact (suc n) m (l ∷ ls) e =
    subst (λ x. take x (l ∷ ls) ≡ l ∷ take n ls) (sym e) (ap (λ x. l ∷ x) (take_exact n _ ls refl))

slice_of-HasLines :
    (output : Text) (i j : ℕ)
    → (slice_of output (i, j)).1 ≤ (slice_of output (i, j)).2
    → HasLines output (slice_of output (i, j))
unfolding slice_of sublist
slice_of-HasLines output i j h =
    let all = split_lines output in
    let ls = take (j - i) (drop i all) in
    let n = length-take (j - i) (drop i all) in
    let d = length-drop i all in
    (
      omega arith,
      omega (arith, n, d, h),
      split-join ls (omega (arith, h)) (
            take-All IsLine (j - i) (drop i all)
              (drop-All IsLine i all (split_lines-IsLine output)))
          ∙ sym (
              ap (λ k. take k (drop (i + 1 - 1) all)) (omega arith)
              ∙ ap (λ k. take (length ls) (drop k all)) (omega arith)
              ∙ take_exact (j - i) (length ls) (drop i all) refl),
    )

get_raw_log-append :
    (t : Table) (e : RawLogEntry)
    → get_raw_log t e.id ≡ none
    → get_raw_log (t ++ (e ∷ [])) e.id ≡ some e
unfolding get_raw_log
get_raw_log-append [] e h = ground (arith, eq_refl e.id)
get_raw_log-append (f ∷ t) e h = ground (arith, h, get_raw_log-append t e)

module _ (id : String) (now : ℕ) (command text : Text) (host : Option String) (code : Option ℕ)
    (ttl : ℕ) (t : Table) where
  get_raw_log-stored :
      get_raw_log t id ≡ none
      → get_raw_log (store_raw_log id now command text host code ttl t).1 id
        ≡ some (new_entry id now command text host code ttl)
  unfolding store_raw_log
  get_raw_log-stored h = get_raw_log-append t (new_entry id now command text host code ttl) h

  slice-stored :
      (around start end : Option ℕ) (window : ℕ)
      → get_raw_log t id ≡ none
      → get_raw_log_slice
          (store_raw_log id now command text host code ttl t).1
          id
          around
          start
          end
          window
        ≡ some (slice_of text (slice_bounds around start end window (length (split_lines text))))
  unfolding get_raw_log_slice slice_found new_entry
  slice-stored around start end window new =
      ap (λ o. slice_found o around start end window) (get_raw_log-stored new)

  -- Of an output stored under a new id, a slice that is not empty has exactly the lines of the
  -- output with the numbers from the first to the last that come with it, counted from 1, and the
  -- last is no more than the number of lines.
  pub get_raw_log_slice-HasLines :
      (around start end : Option ℕ) (window : ℕ) (s : Text) (a b : ℕ)
      → get_raw_log t id ≡ none
      → get_raw_log_slice
          (store_raw_log id now command text host code ttl t).1
          id
          around
          start
          end
          window
        ≡ some (s, a, b)
      → a ≤ b
      → HasLines text (s, a, b)
  get_raw_log_slice-HasLines around start end window s a b new h le =
      let r = slice_bounds around start end window (length (split_lines text)) in
      let e : slice_of text r ≡ (s, a, b) =
        some-injective _ _ (sym (slice-stored around start end window new) ∙ h) in
      subst (HasLines text) e (slice_of-HasLines text r.0 r.1 (subst (λ x. x.1 ≤ x.2) (sym e) le))

  -- A slice of an output stored under a new id, around the number n of one of its lines, has the
  -- line n in it, and no line further from it than the window.
  pub get_raw_log_slice-around :
      (n window : ℕ) (start end : Option ℕ) (s : Text) (a b : ℕ)
      → get_raw_log t id ≡ none
      → get_raw_log_slice
          (store_raw_log id now command text host code ttl t).1
          id
          (some n)
          start
          end
          window
        ≡ some (s, a, b)
      → 1 ≤ n
      → n ≤ length (split_lines text)
      → (a ≤ n) × (n ≤ b) × (n ≤ a + window) × (b ≤ n + window)
  unfolding slice_bounds slice_of sublist
  get_raw_log_slice-around n window start end s a b new h lo hi =
      let e = some-injective _ _ (sym (slice-stored (some n) start end window new) ∙ h) in
      let all = split_lines text in
      let i = n - 1 - window in
      let j = min (length all) (n - 1 + window + 1) in
      let k = length-take (j - i) (drop i all) in
      let d = length-drop i all in
      let first : i + 1 ≡ a = ap (λ x. x.1) e in
      let end : i + length (take (j - i) (drop i all)) ≡ b = ap (λ x. x.2) e in
      (omega arith, omega arith, omega arith, omega arith)
