-- ===== src/Common/Names.antt =====
-- Python's `set` of texts, as a list: only membership is read.
use Prim.Native.String.{String}
use mathlib.Core.Path.{◌≡◌, refl}
use mathlib.Core.Bool.{Bool, true, false, not, ◌&&◌, ◌||◌}
use mathlib.Core.List.{List, [], ◌∷◌, ◌++◌}
use native.Mathlib.Omega.{arith}
use text.Mathlib.Text.{◌==◌}
use text.Mathlib.TextEquality.{eq_iff}
use text.Mathlib.TextPositions.{eq_refl}
use merlya.Common.Tests.{if◌then◌else◌}

abbrev pub Names : Type 0
Names = List String

-- k in s
unfoldable pub member : String → Names → Bool
member k [] = false
member k (x ∷ xs) = if x == k then true else member k xs

-- s - t
unfoldable pub difference : Names → Names → Names
unfolding member
difference [] ys = []
difference (x ∷ xs) ys = let rest = difference xs ys in if member x ys then rest else x ∷ rest

-- s & t
unfoldable pub intersection : Names → Names → Names
unfolding member
intersection [] ys = []
intersection (x ∷ xs) ys = let rest = intersection xs ys in if member x ys then x ∷ rest else rest

-- s.discard(k)
unfoldable pub discard : String → Names → Names
discard k [] = []
discard k (x ∷ xs) = let rest = discard k xs in if x == k then rest else x ∷ rest

abbrev pub empty : Names → Bool
empty [] = true
empty (x ∷ xs) = false

pub member-append :
    (k : String) (xs ys : Names) → member k (xs ++ ys) ≡ (member k xs || member k ys)
unfolding member
member-append k [] ys = refl
member-append k (x ∷ xs) ys = ground (arith, member-append k xs ys)

pub member-difference :
    (k : String) (xs ys : Names) → member k (difference xs ys) ≡ (member k xs && not (member k ys))
unfolding member difference
member-difference k [] ys = refl
member-difference k (x ∷ xs) ys = ground (arith, eq_iff x k, member-difference k xs ys)

pub member-intersection :
    (k : String) (xs ys : Names) → member k (intersection xs ys) ≡ (member k xs && member k ys)
unfolding member intersection
member-intersection k [] ys = refl
member-intersection k (x ∷ xs) ys = ground (arith, eq_iff x k, member-intersection k xs ys)

pub member-discard :
    (k j : String) (xs : Names) → member k (discard j xs) ≡ (if j == k then false else member k xs)
unfolding member discard
member-discard k j [] = ground arith
member-discard k j (x ∷ xs) =
    ground (arith, eq_iff x k, eq_iff x j, eq_iff j k, member-discard k j xs)

-- A set is empty if it has no member.
pub empty-member : (xs : Names) → empty xs ≡ true → (k : String) → member k xs ≡ false
unfolding member
empty-member [] h k = refl
empty-member (x ∷ xs) h k = ground (arith, h)

pub witness-empty : (xs : Names) → ((k : String) → member k xs ≡ false) → empty xs ≡ true
unfolding member
witness-empty [] f = refl
witness-empty (x ∷ xs) f = ground (arith, f x, eq_refl x)
