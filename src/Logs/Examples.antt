-- ===== src/Logs/Examples.antt =====
-- A log of four lines, of which the last is open.
use merlya.Common.{◌+◌, ◌≡◌, ◌≤◌, refl, none, some, [], ◌∷◌, arith, length}
use merlya.Common.Text.{Text}
use merlya.Logs.{
  Table, count_lines, store_raw_log, get_raw_log, get_raw_log_slice, cleanup_expired_logs,
  split_lines, hour,
}
use merlya.Logs.Slices.{HasLines, get_raw_log_slice-HasLines, get_raw_log_slice-around}

-- a, b, c and d, with newlines between them
abbrev text : Text
text = b'a' ∷ 10 ∷ b'b' ∷ 10 ∷ b'c' ∷ 10 ∷ b'd' ∷ []

abbrev table : Table
table = (store_raw_log "x" 5 [] text (some "web") none 1 []).1

around_b :
    get_raw_log_slice table "x" (some 2) none none 1
    ≡ some (b'a' ∷ 10 ∷ b'b' ∷ 10 ∷ b'c' ∷ [], 1, 3)
unfolding get_raw_log_slice store_raw_log
around_b = refl

-- A last line of 0 is taken for none.
last_line_zero : get_raw_log_slice table "x" none (some 4) (some 0) 50 ≡ some (b'd' ∷ [], 4, 4)
unfolding get_raw_log_slice store_raw_log
last_line_zero = refl

-- A start after the end has a last line before the first.
start_after_the_end : get_raw_log_slice table "x" none (some 9) none 50 ≡ some ([], 9, 8)
unfolding get_raw_log_slice store_raw_log
start_after_the_end = refl

-- A clean-up deletes an expired log.
expired_is_deleted : cleanup_expired_logs (6 + hour) table ≡ (1, [])
unfolding cleanup_expired_logs store_raw_log
expired_is_deleted = refl

-- A closed line counts once; a slice counts the empty text after it as a line.
closed_line : count_lines (b'a' ∷ 10 ∷ []) ≡ 1
unfolding count_lines
closed_line = refl

closed_line_split : length (split_lines (b'a' ∷ 10 ∷ [])) ≡ 2
unfolding split_lines
closed_line_split = refl

get_raw_log_slice-HasLines_example : HasLines text (b'b' ∷ 10 ∷ b'c' ∷ [], 2, 3)
unfolding get_raw_log get_raw_log_slice store_raw_log
get_raw_log_slice-HasLines_example =
    get_raw_log_slice-HasLines "x" 5 [] text none none 1 [] none (some 2) (some 3) 50
      (b'b' ∷ 10 ∷ b'c' ∷ []) 2 3 refl refl (omega arith)

get_raw_log_slice-around_example : (1 ≤ 2) × (2 ≤ 3) × (2 ≤ 1 + 1) × (3 ≤ 2 + 1)
unfolding get_raw_log get_raw_log_slice store_raw_log
get_raw_log_slice-around_example =
    get_raw_log_slice-around "x" 5 [] text none none 1 [] 2 1 none none
      (b'a' ∷ 10 ∷ b'b' ∷ 10 ∷ b'c' ∷ []) 1 3 refl refl (omega arith) (omega arith)
