-- ===== src/Logs.antt =====
-- merlya/tools/logs/store.py: the outputs that are kept for later, and slices of them. The table
-- raw_logs is the list of its rows in the order of insertion, on which the SQL statements act; the
-- id of a new row and the time are arguments. Line numbers, hours and times are naturals; a time is
-- a number of microseconds.
pub mod Lines
pub mod Slices
mod Examples
use merlya.Common.{
  ℕ, zero, suc, ◌+◌, ◌-◌, ◌*◌, min, String, str_eq, Bool, true, false, not, ◌&&◌, Option, none,
  some, List, [], ◌∷◌, ◌++◌, take, drop, length, ltb, leb, ◌==◌, if◌then◌else◌,
}
use merlya.Common.Text.{Text}

pub record LogRef : Type 0 where
  pub id : String
  pub host_id : Option String
  pub command : Text
  pub line_count : ℕ
  pub byte_size : ℕ
  pub created_at : ℕ

pub record RawLogEntry : Type 0 where
  pub id : String
  pub host_id : Option String
  pub command : Text
  pub output : Text
  pub exit_code : Option ℕ
  pub line_count : ℕ
  pub byte_size : ℕ
  pub created_at : ℕ
  pub expires_at : ℕ

abbrev pub Table : Type 0
Table = List RawLogEntry

-- output.count("\n")
unfoldable pub count_newlines : Text → ℕ
count_newlines [] = 0
count_newlines (c ∷ s) = let rest = count_newlines s in if c == 10 then rest + 1 else rest

-- 1 if output and not output.endswith("\n") else 0
unfoldable pub open_line : Text → ℕ
open_line [] = 0
open_line (c ∷ []) = if c == 10 then 0 else 1
open_line (_ ∷ d ∷ s) = open_line (d ∷ s)

unfoldable pub count_lines : Text → ℕ
unfolding count_newlines open_line
count_lines s = count_newlines s + open_line s

-- The length of a code point in UTF-8.
abbrev bytes_of : ℕ → ℕ
bytes_of c = if ltb c 128 then 1 else if ltb c 2048 then 2 else if ltb c 65536 then 3 else 4

-- len(output.encode("utf-8"))
unfoldable pub byte_length : Text → ℕ
byte_length [] = 0
byte_length (c ∷ s) = bytes_of c + byte_length s

abbrev pub hour : ℕ
hour = 3600000000

unfoldable pub ref_of : RawLogEntry → LogRef
ref_of e = record {
  id = e.id;
  host_id = e.host_id;
  command = e.command;
  line_count = e.line_count;
  byte_size = e.byte_size;
  created_at = e.created_at;
}

-- The row of a new log.
unfoldable pub new_entry :
    (id : String) (now : ℕ) (command output : Text)
    → Option String
    → Option ℕ
    → (ttl_hours : ℕ) → RawLogEntry
unfolding count_lines byte_length
new_entry id now command output host code ttl = record {
  id = id;
  host_id = host;
  command = command;
  output = output;
  exit_code = code;
  line_count = count_lines output;
  byte_size = byte_length output;
  created_at = now;
  expires_at = now + ttl * hour;
}

unfoldable pub store_raw_log :
    (id : String) (now : ℕ) (command output : Text)
    → Option String
    → Option ℕ
    → (ttl_hours : ℕ) → Table
    → LogRef × Table
unfolding new_entry ref_of
store_raw_log id now command output host code ttl t =
    let e = new_entry id now command output host code ttl in (ref_of e, t ++ (e ∷ []))

unfoldable pub get_raw_log : Table → String → Option RawLogEntry
get_raw_log [] id = none
get_raw_log (e ∷ t) id = if str_eq e.id id then some e else get_raw_log t id

abbrev pub onto_first : ℕ → List Text → List Text
onto_first c [] = (c ∷ []) ∷ []
onto_first c (l ∷ ls) = (c ∷ l) ∷ ls

-- output.split("\n")
unfoldable pub split_lines : Text → List Text
split_lines [] = [] ∷ []
split_lines (c ∷ s) = let rest = split_lines s in if c == 10 then [] ∷ rest else onto_first c rest

-- "\n".join(lines)
unfoldable pub join_lines : List Text → Text
join_lines [] = []
join_lines (l ∷ []) = l
join_lines (l ∷ m ∷ ls) = l ++ (10 ∷ join_lines (m ∷ ls))

-- end_line or total_lines
abbrev pub end_or : Option ℕ → ℕ → ℕ
end_or none total = total
end_or (some n) total = if n == 0 then total else n

-- The indices of the first line and after the last.
unfoldable pub slice_bounds :
    (around_line start_line end_line : Option ℕ) (window total : ℕ) → ℕ × ℕ
slice_bounds (some n) _ _ window total = let i = n - 1 in (i - window, min total (i + window + 1))
slice_bounds none (some n) end_line window total = (n - 1, min total (end_or end_line total))
slice_bounds none none _ window total = (0, min total (window * 2))

-- lines[start:end]
unfoldable pub sublist : (start end : ℕ) → List Text → List Text
sublist start end ls = take (end - start) (drop start ls)

unfoldable pub slice_of : Text → ℕ × ℕ → Text × ℕ × ℕ
unfolding sublist split_lines join_lines
slice_of output b =
    let ls = sublist b.0 b.1 (split_lines output) in (join_lines ls, b.0 + 1, b.0 + length ls)

unfoldable pub slice_found :
    Option RawLogEntry
    → (around_line start_line end_line : Option ℕ) (window : ℕ) → Option (Text × ℕ × ℕ)
unfolding slice_of slice_bounds split_lines
slice_found none around start end window = none
slice_found (some e) around start end window =
    some (slice_of e.output (slice_bounds around start end window (length (split_lines e.output))))

unfoldable pub get_raw_log_slice :
    Table
    → String
    → (around_line start_line end_line : Option ℕ) (window : ℕ) → Option (Text × ℕ × ℕ)
unfolding get_raw_log slice_found
get_raw_log_slice t id = slice_found (get_raw_log t id)

-- DELETE FROM raw_logs WHERE expires_at < now, with the number of rows deleted.
unfoldable pub cleanup_expired_logs : ℕ → Table → ℕ × Table
cleanup_expired_logs now [] = (0, [])
cleanup_expired_logs now (e ∷ t) =
    let r = cleanup_expired_logs now t in
    if ltb e.expires_at now then (r.0 + 1, r.1) else (r.0, e ∷ r.1)

abbrev of_host : String → Option String → Bool
of_host h none = false
of_host h (some k) = str_eq k h

-- A row among rows in the order of descending times, after those of its time.
unfoldable pub insert_by_time : RawLogEntry → Table → Table
insert_by_time e [] = e ∷ []
insert_by_time e (f ∷ t) =
    if ltb f.created_at e.created_at then e ∷ f ∷ t else f ∷ insert_by_time e t

-- WHERE host_id = ? ORDER BY created_at DESC
unfoldable pub select_host : String → Table → Table → Table
unfolding insert_by_time
select_host h [] sorted = sorted
select_host h (e ∷ t) sorted =
    if of_host h e.host_id
    then select_host h t (insert_by_time e sorted)
    else select_host h t sorted

abbrev refs : Table → List LogRef
refs [] = []
refs (e ∷ t) = ref_of e ∷ refs t

unfoldable pub get_logs_by_host : Table → String → (limit : ℕ) → List LogRef
unfolding select_host ref_of
get_logs_by_host t h limit = take limit (refs (select_host h t []))
