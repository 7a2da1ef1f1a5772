-- ===== src/Common/Value.antt =====
-- Python's values where the program looks at their type: what a YAML or JSON document holds. A
-- number, `int` or `float`, is a whole multiple of a fixed unit, of either sign, or not a number;
-- the infinities are left out. `True` and `False` are the numbers 1 and 0 as well, with `unit`
-- the multiple that is 1.
use Prim.Native.Nat.{ℕ, ◌+◌}
use Prim.Native.String.{String}
use mathlib.Core.Bool.{Bool, true, false, not, ◌&&◌, ◌||◌}
use mathlib.Core.Option.{Option, none, some}
use mathlib.Core.List.{List, [], ◌∷◌}
use text.Mathlib.Text.{◌==◌ as str_eq}
use merlya.Common.Tests.{ltb, ◌==◌, if◌then◌else◌}

pub data Number : Type 0 where
  nan : Number
  positive negative : ℕ → Number

-- a < b
unfoldable pub less : Number → Number → Bool
less nan b = false
less (positive m) nan = false
less (positive m) (positive n) = ltb m n
less (positive m) (negative n) = false
less (negative m) nan = false
less (negative m) (positive n) = ltb 0 m || ltb 0 n
less (negative m) (negative n) = ltb n m

-- a == b
unfoldable pub same_number : Number → Number → Bool
unfolding less
same_number nan b = false
same_number (positive m) nan = false
same_number (negative m) nan = false
same_number a b = not (less a b) && not (less b a)

mutual
  pub data Value : Type 0 where
    none_value : Value
    bool : Bool → Value
    number : Number → Value
    string : String → Value
    list : Items → Value
    dict : Entries → Value

  pub data Items : Type 0 where
    nil : Items
    item : Value → Items → Items

  pub data Entries : Type 0 where
    end : Entries
    entry : String → Value → Entries → Entries

-- The number that a Boolean is.
unfoldable pub of_bool : (unit : ℕ) → Bool → Number
of_bool unit true = positive unit
of_bool unit false = positive 0

-- What isinstance(v, int | float) holds of, as a number.
unfoldable pub as_number : (unit : ℕ) → Value → Option Number
unfolding of_bool
as_number unit (bool b) = some (of_bool unit b)
as_number unit (number n) = some n
as_number unit _ = none

-- isinstance(v, bool)
unfoldable pub is_bool : Value → Bool
is_bool (bool _) = true
is_bool _ = false

-- isinstance(v, list)
unfoldable pub is_list : Value → Bool
is_list (list _) = true
is_list _ = false

-- isinstance(v, dict)
unfoldable pub is_dict : Value → Bool
is_dict (dict _) = true
is_dict _ = false

-- v is None
unfoldable pub is_none : Value → Bool
is_none none_value = true
is_none _ = false

-- The value of a key, if it is there.
unfoldable pub find_entry : String → Entries → Option Value
find_entry k end = none
find_entry k (entry j v es) = if str_eq j k then some v else find_entry k es

unfoldable pub count_entries : Entries → ℕ
count_entries end = 0
count_entries (entry _ _ es) = 1 + count_entries es

unfoldable pub same_as_number : Option Number → Option Number → Bool
unfolding same_number
same_as_number (some a) (some b) = same_number a b
same_as_number _ _ = false

-- v == w: numbers and Booleans by their number, lists in order, dictionaries key by key.
unfoldable mutual
  unfolding is_none of_bool as_number same_as_number find_entry count_entries

  pub same : (unit : ℕ) → Value → Value → Bool
  same unit none_value w = is_none w
  same unit (bool b) w = same_as_number (some (of_bool unit b)) (as_number unit w)
  same unit (number n) w = same_as_number (some n) (as_number unit w)
  same unit (string s) (string t) = str_eq s t
  same unit (string s) _ = false
  same unit (list xs) (list ys) = same_items unit xs ys
  same unit (list xs) _ = false
  same unit (dict es) (dict fs) = count_entries es == count_entries fs && same_entries unit es fs
  same unit (dict es) _ = false

  pub same_items : (unit : ℕ) → Items → Items → Bool
  same_items unit nil nil = true
  same_items unit nil (item _ _) = false
  same_items unit (item _ _) nil = false
  same_items unit (item x xs) (item y ys) = same unit x y && same_items unit xs ys

  pub same_entries : (unit : ℕ) → Entries → Entries → Bool
  same_entries unit end fs = true
  same_entries unit (entry k v es) fs = elim (find_entry k fs) [
    | none ↦ false
    | some w ↦ same unit v w && same_entries unit es fs
  ]

-- v in vs
unfoldable pub among : (unit : ℕ) → Value → List Value → Bool
unfolding same
among unit v [] = false
among unit v (w ∷ ws) = same unit v w || among unit v ws
