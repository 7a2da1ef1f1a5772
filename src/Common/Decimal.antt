-- ===== src/Common/Decimal.antt =====
-- The decimal digits of a natural number, as an f-string prints it.
use Prim.Native.Nat.{ℕ, zero, suc, ◌+◌, ◌/◌, ◌%◌}
use Prim.Native.String.{String, ◌++◌ as ◌<>◌}
use merlya.Common.Clock.{ℤ, pos, negsuc}
use merlya.Common.Tests.{ltb, ◌==◌, if◌then◌else◌}

digit : ℕ → String
digit d =
    if d == 0
    then "0"
    else if d == 1
    then "1"
    else if d == 2
    then "2"
    else if d == 3
    then "3"
    else if d == 4
    then "4"
    else if d == 5
    then "5"
    else if d == 6
    then "6"
    else if d == 7
    then "7"
    else if d == 8
    then "8"
    else "9"

-- With one round of fuel for each digit; a number has no more digits than its value and one.
digits_of : ℕ → ℕ → String
digits_of zero n = ""
digits_of (suc f) n =
    let more = digits_of f (n / 10) <> digit (n % 10) in if ltb n 10 then digit n else more

unfoldable pub show : ℕ → String
unfolding digits_of digit
show n = digits_of (n + 1) n

unfoldable pub show_int : ℤ → String
unfolding show
show_int (pos n) = show n
show_int (negsuc n) = "-" <> show (n + 1)
