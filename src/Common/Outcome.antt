-- ===== src/Common/Outcome.antt =====
-- How a Python call ends, and methods that act on a state. `raised` carries the text of an
-- `Exception`; `cancelled` stands for `asyncio.CancelledError`, which `except Exception` lets pass.
-- What was written before a raise stays written, so the state comes back in every case.
pub mod Triple
use Prim.Native.String.{String}

pub data Outcome {ℓ} (A : Type ℓ) : Type ℓ where
  returned : A → Outcome A
  raised : String → Outcome A
  cancelled : Outcome A

abbrev pub Exec {ℓ} : Type ℓ → Type ℓ → Type ℓ
Exec S A = S → Outcome A × S

module _ {S A : Type 0} where
  pub pure : A → Exec S A
  pure a s = (returned a, s)

module _ {S : Type 0} where
  -- A statement that changes the state and cannot raise.
  pub modify : (S → S) → Exec S (Unit {0})
  modify f s = (returned tt, f s)

module _ {S W A : Type 0} where
  -- An action on a part of the state: `get` reads the part and `put` writes it back.
  pub zoom : (S → W) → (W → S → S) → Exec W A → Exec S A
  zoom get put m s = let r = m (get s) in (r.0, put r.1 s)

module _ {S A B : Type 0} where
  abbrev pub continue : Outcome A → (A → Exec S B) → Exec S B
  continue (returned a) f s = f a s
  continue (raised e) f s = (raised e, s)
  continue cancelled f s = (cancelled, s)

  infixl 5 ◌>>=◌
  -- Opening this opens `pure`, `modify` and `zoom` too.
  unfoldable pub ◌>>=◌ : Exec S A → (A → Exec S B) → Exec S B
  unfolding pure modify zoom
  ◌>>=◌ m f s = continue (m s).0 f (m s).1

module _ {S B : Type 0} where
  infixl 5 ◌>>◌
  abbrev pub ◌>>◌ : Exec S (Unit {0}) → Exec S B → Exec S B
  m >> k = m >>= λ _. k

module _ {S A B : Type 0} where
  -- What `try: ... except Exception` does after an action that ended so.
  unfoldable pub try_except : Outcome A → (A → Exec S B) → (String → Exec S B) → Exec S B
  try_except (returned a) f g s = f a s
  try_except (raised e) f g s = g e s
  try_except cancelled f g s = (cancelled, s)
