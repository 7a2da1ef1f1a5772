-- ===== src/Elevation/Prefix.antt =====
-- merlya/security/permissions.py: the two patterns of the prefixes with their options, matched as
-- Python's re does, by trying the longest way first and going back.
use merlya.Common.{
  ℕ, zero, suc, ◌≤◌, ◌≡◌, refl, Bool, true, false, ◌&&◌, ◌||◌, not, Option, none, some, List, [],
  ◌∷◌, leb, ◌==◌, if◌then◌else◌, length, ap, arith,
}
use merlya.Common.Text.{Text, codes, lower_char, is_space, lstrip}
use merlya.Common.Match.{after_word, after_spaces, then_match, first_of}

-- \w in ASCII
unfoldable pub is_word : ℕ → Bool
is_word c =
    leb b'a' c && leb c b'z' || leb b'A' c && leb c b'Z' || leb b'0' c && leb c b'9' || c == b'_'

-- \b after a letter
abbrev boundary : Text → Bool
boundary [] = true
boundary (c ∷ s) = not (is_word c)

unfoldable pub among : ℕ → List ℕ → Bool
among c [] = false
among c (x ∷ xs) = c == x || among c xs

-- \S*
unfoldable pub after_token : Text → Text
unfolding is_space
after_token [] = []
after_token (c ∷ s) = let rest = after_token s in if is_space c then c ∷ s else rest

-- \S+, after white space
abbrev token : Option Text → Option Text
token none = none
token (some []) = none
token (some (c ∷ s)) = some (after_token s)

-- The letters of the options without a value and of those with one, in lower case.
pub record Options : Type 0 where
  pub flags : List ℕ
  pub valued : List ℕ

-- -[flags]\b or -[valued]\s+\S+
abbrev option_here : Options → Text → Option Text
option_here o [] = none
option_here o (_ ∷ []) = none
option_here o (d ∷ c ∷ s) =
    if d == 45
    then (if among (lower_char c) o.flags && boundary s
        then some s
        else if among (lower_char c) o.valued
        then token (after_spaces s)
        else none)
    else none

-- \s+-[flags]\b or \s+-[valued]\s+\S+
unfoldable pub option : Options → Text → Option Text
unfolding is_word among
option o s = then_match (after_spaces s) (option_here o)

-- .+$, with a newline at the end or without one
abbrev begin : ℕ → Option Text → Option Text
begin c none = none
begin c (some s) = some (c ∷ s)

unfoldable pub line_from : Text → Option Text
line_from [] = some []
line_from (c ∷ []) = if c == 10 then some [] else some (c ∷ [])
line_from (c ∷ d ∷ s) = let rest = line_from (d ∷ s) in if c == 10 then none else begin c rest

abbrev line : Text → Option Text
line [] = none
line (c ∷ s) = if c == 10 then none else line_from (c ∷ s)

-- \s+(?P<rest>.+)$
unfoldable rest_of : Text → Option Text
unfolding line_from is_space
rest_of [] = none
rest_of (c ∷ s) = let deeper = rest_of s in if is_space c then first_of deeper (line s) else none

-- (?:option)*\s+(?P<rest>.+)$
unfoldable pub after_options : ℕ → Options → Text → Option Text
unfolding option rest_of
after_options zero o s = rest_of s
after_options (suc n) o s =
    first_of (then_match (option o s) (λ t. after_options n o t)) (rest_of s)

abbrev sudo_options : Options
sudo_options = record { flags = codes "nsehki"; valued = codes "up" }

abbrev doas_options : Options
doas_options = record { flags = codes "ns"; valued = codes "u" }

abbrev prefixed : Text → Options → Text → Option Text
prefixed word o s = then_match (after_word word (lstrip s)) (λ t. after_options (length t) o t)

abbrev or_whole : Text → Option Text → Text
or_whole s none = s
or_whole s (some t) = t

unfoldable pub strip_prefix : Text → Text
unfolding after_options
strip_prefix s =
    or_whole s
      (first_of (prefixed (codes "sudo") sudo_options s) (prefixed (codes "doas") doas_options s))

-- What is left, if anything is, has at most this length.
abbrev AtMost : ℕ → Option Text → Type 0
AtMost n none = Unit
AtMost n (some t) = length t ≤ n

length-lstrip : (s : Text) → length (lstrip s) ≤ length s
unfolding lstrip
length-lstrip [] = omega arith
length-lstrip (c ∷ s) = ground (arith, length-lstrip s)

length-after_token : (s : Text) → length (after_token s) ≤ length s
unfolding after_token
length-after_token [] = omega arith
length-after_token (c ∷ s) = ground (arith, length-after_token s)

if-AtMost :
    (n : ℕ) (b : Bool) (r q : Option Text) → AtMost n r → AtMost n q → AtMost n (if b then r else q)
if-AtMost n true r q h g = h
if-AtMost n false r q h g = g

AtMost-mono : (m n : ℕ) (r : Option Text) → m ≤ n → AtMost m r → AtMost n r
AtMost-mono m n none l h = tt
AtMost-mono m n (some t) l h = omega arith

after_spaces-AtMost : (c : ℕ) (s : Text) → AtMost (length s) (after_spaces (c ∷ s))
after_spaces-AtMost c s =
    if-AtMost (length s) (is_space c) (some (lstrip s)) none (length-lstrip s) tt

token-AtMost : (n : ℕ) (r : Option Text) → AtMost n r → AtMost n (token r)
token-AtMost n none h = tt
token-AtMost n (some []) h = tt
token-AtMost n (some (c ∷ s)) h = omega (arith, length-after_token s)

value-AtMost : (s : Text) → AtMost (length s) (token (after_spaces s))
value-AtMost [] = tt
value-AtMost (c ∷ s) =
    AtMost-mono (length s) (length (c ∷ s)) (token (after_spaces (c ∷ s))) (omega arith)
      (token-AtMost (length s) (after_spaces (c ∷ s)) (after_spaces-AtMost c s))

option_here-AtMost : (o : Options) (s : Text) → AtMost (length s) (option_here o s)
option_here-AtMost o [] = tt
option_here-AtMost o (d ∷ []) = tt
option_here-AtMost o (d ∷ c ∷ s) =
    AtMost-mono (length s) (length (d ∷ c ∷ s)) (option_here o (d ∷ c ∷ s)) (omega arith) (
      if-AtMost (length s) (d == 45) _ none
        (if-AtMost (length s) (among (lower_char c) o.flags && boundary s) (some s) _ (omega arith)
          (if-AtMost (length s) (among (lower_char c) o.valued) (token (after_spaces s)) none
            (value-AtMost s) tt))
        tt)

then-AtMost :
    (n : ℕ) (o : Options) (r : Option Text) → AtMost n r → AtMost n (then_match r (option_here o))
then-AtMost n o none h = tt
then-AtMost n o (some t) h = AtMost-mono (length t) n (option_here o t) h (option_here-AtMost o t)

-- An option takes a character at least.
option-AtMost : (o : Options) (c : ℕ) (s : Text) → AtMost (length s) (option o (c ∷ s))
unfolding option
option-AtMost o c s = then-AtMost (length s) o (after_spaces (c ∷ s)) (after_spaces-AtMost c s)

option-nil : (o : Options) → option o [] ≡ none
unfolding option
option-nil o = refl

then_match-eq :
    (n : ℕ) (r : Option Text) (f g : Text → Option Text)
    → AtMost n r
    → ((t : Text) → length t ≤ n → f t ≡ g t)
    → then_match r f ≡ then_match r g
then_match-eq n none f g h e = refl
then_match-eq n (some t) f g h e = e t h

-- The number of repetitions that is looked at, the length of the text, is enough: any larger one
-- gives the same match.
pub after_options-enough :
    (n m : ℕ) (o : Options) (s : Text)
    → length s ≤ n
    → n ≤ m
    → after_options n o s ≡ after_options m o s
unfolding after_options rest_of
after_options-enough zero zero o s h l = refl
after_options-enough zero (suc m) o [] h l = rw (option-nil o) refl
after_options-enough zero (suc m) o (c ∷ s) h l = absurd (omega arith)
after_options-enough (suc n) zero o s h l = absurd (omega arith)
after_options-enough (suc n) (suc m) o [] h l = rw (option-nil o) refl
after_options-enough (suc n) (suc m) o (c ∷ s) h l =
    ap (λ r. first_of r (rest_of (c ∷ s)))
      (then_match-eq (length s) (option o (c ∷ s)) (after_options n o) (after_options m o)
        (option-AtMost o c s) (λ t g. after_options-enough n m o t (omega arith) (omega arith)))
