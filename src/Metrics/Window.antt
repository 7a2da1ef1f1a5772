-- ===== src/Metrics/Window.antt =====
-- The sliding window of a histogram.
use merlya.Common.{
  ℕ, ◌+◌, ◌-◌, ◌≤◌, ◌≡◌, refl, sym, ap, ◌∙◌, ◌⊎◌, ◌<◌, true, false, List, [], ◌∷◌, ◌++◌, length,
  drop, ltb, leb, arith, length-append, length-drop, Bool-cases, inl, inr,
}
use merlya.Common.{drop-append, drop-drop}
use mathlib.Core.List.{append-nil, append_assoc}
use merlya.Metrics.{Histogram, last, observe}

unfoldable pub observe_all : List ℕ → Histogram → Histogram
observe_all [] h = h
observe_all (v ∷ vs) h = observe_all vs (observe v h)

last-all : (n : ℕ) (xs : List ℕ) → length xs ≤ n → last n xs ≡ xs
last-all n xs h = let e : length xs - n ≡ 0 = omega arith in rw e refl

last-append-last :
    (n : ℕ) (xs : List ℕ) (v : ℕ) → 1 ≤ n → last n (last n xs ++ (v ∷ [])) ≡ last n (xs ++ (v ∷ []))
last-append-last n xs v h = elim (Bool-cases (leb (length xs) n)) [
  | inl t ↦ let e = last-all n xs (ground (arith, t)) in rw e refl
  | inr t ↦
      let k = length xs - n in
      let l : n < length xs = ground (arith, t) in
      let e : length (drop k xs ++ (v ∷ [])) - n ≡ 1 =
        omega (arith, length-append (drop k xs) (v ∷ []), length-drop k xs) in
      let f : length (xs ++ (v ∷ [])) - n ≡ k + 1 = omega (arith, length-append xs (v ∷ [])) in
      ap (λ m. drop m (drop k xs ++ (v ∷ []))) e
      ∙ drop-append 1 (drop k xs) (v ∷ []) (omega (arith, length-drop k xs))
      ∙ ap (λ ys. ys ++ (v ∷ [])) (drop-drop 1 k (k + 1) xs refl)
      ∙ sym (drop-append (k + 1) xs (v ∷ []) (omega arith))
      ∙ sym (ap (λ m. drop m (xs ++ (v ∷ []))) f)
]

observe-last :
    (h : Histogram) (seen : List ℕ) (v : ℕ)
    → 1 ≤ h.max_observations
    → h.observations ≡ last h.max_observations seen
    → (observe v h).observations ≡ last h.max_observations (seen ++ (v ∷ []))
unfolding observe
observe-last h seen v p e =
    cut (Bool-cases (ltb h.max_observations (length (h.observations ++ (v ∷ [])))))
    ∙ ap (λ xs. last h.max_observations (xs ++ (v ∷ []))) e
    ∙ last-append-last h.max_observations seen v p
  where
    cut :
        (ltb h.max_observations (length (h.observations ++ (v ∷ []))) ≡ true)
          ⊎ (ltb h.max_observations (length (h.observations ++ (v ∷ []))) ≡ false)
        → (observe v h).observations ≡ last h.max_observations (h.observations ++ (v ∷ []))
    cut (inl t) = rw t refl
    cut (inr t) =
        rw t (sym (last-all h.max_observations (h.observations ++ (v ∷ [])) (ground (arith, t))))

observe_all-from :
    (h : Histogram) (seen vs : List ℕ)
    → 1 ≤ h.max_observations
    → h.observations ≡ last h.max_observations seen
    → (observe_all vs h).observations ≡ last h.max_observations (seen ++ vs)
unfolding observe_all observe
observe_all-from h seen [] p e = e ∙ ap (last h.max_observations) (sym (append-nil seen))
observe_all-from h seen (v ∷ vs) p e =
    observe_all-from (observe v h) (seen ++ (v ∷ [])) vs p (observe-last h seen v p e)
    ∙ ap (last h.max_observations) (append_assoc seen (v ∷ []) vs)

-- A histogram with no observations and a window of a positive size has, after any observations, the
-- last `max_observations` of them in their order, or all if they are no more.
pub observe_all-last :
    (h : Histogram) (vs : List ℕ)
    → 1 ≤ h.max_observations
    → h.observations ≡ []
    → (observe_all vs h).observations ≡ last h.max_observations vs
observe_all-last h vs p e =
    observe_all-from h [] vs p (e ∙ sym (last-all h.max_observations [] (omega arith)))
