-- ===== src/Common/Outcome/Triple.antt =====
-- Hoare triples over actions: from a state with `P`, a returned value `a` leaves a state with
-- `Q a`, and a raised exception or a cancellation leaves a state with `E`. One rule for each way
-- to build an action.
use mathlib.Core.Path.{◌≡◌, refl}
use mathlib.Core.Bool.{Bool, true, false}
use merlya.Common.Tests.{if◌then◌else◌}
use merlya.Common.Outcome.{
  Outcome, returned, raised, cancelled, Exec, pure, modify, zoom, continue, ◌>>=◌,
}

abbrev pub Ends : {S A : Type 0} → (A → S → Type 0) → (S → Type 0) → Outcome A → S → Type 0
Ends Q E (returned a) s = Q a s
Ends Q E (raised e) s = E s
Ends Q E cancelled s = E s

pub record Triple {S A : Type 0} (P : S → Type 0) (m : Exec S A) (Q : A → S → Type 0)
    (E : S → Type 0) : Type 0 where
  pub at : (s : S) → P s → Ends Q E (m s).0 (m s).1

-- Where every way to end has one postcondition, the last state satisfies it.
pub Triple-state :
    {S A : Type 0} {P : S → Type 0} (G : S → Type 0) (m : Exec S A)
    → Triple P m (λ _. G) G
    → (s : S) → P s
    → G (m s).1
Triple-state {S} {A} G m t s p = always (m s).0 (m s).1 (t.at s p)
  where
    always : (o : Outcome A) (s : S) → Ends (λ _. G) G o s → G s
    always (returned a) s h = h
    always (raised e) s h = h
    always cancelled s h = h

module _ {S A : Type 0} {P : S → Type 0} {Q : A → S → Type 0} {E : S → Type 0} where
  pub Triple-pure : (a : A) → ((s : S) → P s → Q a s) → Triple P (pure a) Q E
  unfolding pure
  Triple-pure a h = record { at = h }

  pub Triple-if :
      (b : Bool) (m n : Exec S A)
      → (b ≡ true → Triple P m Q E)
      → (b ≡ false → Triple P n Q E)
      → Triple P (if b then m else n) Q E
  Triple-if true m n h k = h refl
  Triple-if false m n h k = k refl

  -- A weaker postcondition.
  pub Triple-post :
      {Q' : A → S → Type 0} {E' : S → Type 0} (m : Exec S A)
      → ((a : A) (s : S) → Q a s → Q' a s)
      → ((s : S) → E s → E' s)
      → Triple P m Q E
      → Triple P m Q' E'
  Triple-post {Q'} {E'} m h k t = record { at = λ s p. go (m s).0 (m s).1 (t.at s p) }
    where
      go : (o : Outcome A) (s : S) → Ends Q E o s → Ends Q' E' o s
      go (returned a) s q = h a s q
      go (raised x) s e = k s e
      go cancelled s e = k s e

  -- A stronger precondition.
  pub Triple-pre :
      {P' : S → Type 0} (m : Exec S A) → ((s : S) → P' s → P s) → Triple P m Q E → Triple P' m Q E
  Triple-pre m h t = record { at = λ s p. t.at s (h s p) }

module _ {S : Type 0} {P : S → Type 0} {Q : Unit {0} → S → Type 0} {E : S → Type 0} where
  pub Triple-modify : (f : S → S) → ((s : S) → P s → Q tt (f s)) → Triple P (modify f) Q E
  unfolding modify
  Triple-modify f h = record { at = h }

module _ {S W A : Type 0} {P : S → Type 0} {Q : A → S → Type 0} {E : S → Type 0} where
  -- The postcondition may use how the inner action ended, and both may use the state after it.
  pub Triple-zoom :
      (get : S → W) (put : W → S → S) (m : Exec W A)
      → ((s : S) → P s → (a : A) → (m (get s)).0 ≡ returned a → Q a (put (m (get s)).1 s))
      → ((s : S) → P s → E (put (m (get s)).1 s))
      → Triple P (zoom get put m) Q E
  unfolding zoom
  Triple-zoom get put m h k = record { at = λ s p. ends (m (get s)).0 _ (λ a e. h s p a e) (k s p) }
    where
      ends : (o : Outcome A) (s : S) → ((a : A) → o ≡ returned a → Q a s) → E s → Ends Q E o s
      ends (returned a) s q e = q a refl
      ends (raised x) s q e = e
      ends cancelled s q e = e

module _ {S A B : Type 0} {P : S → Type 0} {Q : B → S → Type 0} {E : S → Type 0} where
  pub Triple-bind :
      {R : A → S → Type 0} (m : Exec S A) (f : A → Exec S B)
      → Triple P m R E
      → ((a : A) → Triple (R a) (f a) Q E)
      → Triple P (m >>= f) Q E
  unfolding ◌>>=◌
  Triple-bind {R} m f t k = record { at = λ s p. go (m s).0 (m s).1 (t.at s p) }
    where
      go : (o : Outcome A) (s : S) → Ends R E o s → Ends Q E (continue o f s).0 (continue o f s).1
      go (returned a) s r = (k a).at s r
      go (raised x) s r = r
      go cancelled s r = r

  -- The first action keeps `P`.
  pub Triple-seq :
      (m : Exec S A) (f : A → Exec S B)
      → Triple P m (λ _. P) E
      → ((a : A) → Triple P (f a) Q E)
      → Triple P (m >>= f) Q E
  Triple-seq = Triple-bind

pub ruleset triple_rules = (Triple-pure, Triple-if, Triple-modify, Triple-zoom, Triple-seq)
