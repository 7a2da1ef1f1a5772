-- ===== src/Hosts.antt =====
-- merlya/hosts/target_resolver.py: where a command runs, on this machine or on a host. The
-- inventory, the look-up of names and the parsing of IPv6 addresses are a record `Directory`;
-- letters and digits are those of ASCII. Child modules: Routing, what
-- tools/core/ssh.py and the agent's tool do with it; Session, its properties.
pub mod Routing
pub mod Session
mod Examples
use merlya.Common.{
  ℕ, zero, suc, ◌+◌, ◌-◌, ◌*◌, ◌≡◌, String, ◌<>◌, ◌⊎◌, inl, inr, Bool, true, false, not, ◌&&◌, ◌||◌,
  Option, none, some, List, [], ◌∷◌, ◌++◌, take, length, leb, ◌==◌, if◌then◌else◌,
}
use merlya.Common.Text.{Text, codes, lower, is_space, strip, text_eq, starts_with, contains, one_of}

pub data TargetType : Type 0 where
  local : TargetType
  remote : TargetType
  unknown : TargetType

abbrev local_aliases : List Text
local_aliases =
    codes "local" ∷ codes "localhost" ∷ codes "127.0.0.1" ∷ codes "::1" ∷ codes "0.0.0.0" ∷ []

pub record Entry : Type 0 where
  pub id : String
  pub name : Text
  pub hostname : Text

-- How gethostbyname ends: with an address, with a gaierror, or with another exception.
pub data Dns : Type 0 where
  found : Dns
  not_found : Dns
  failing : String → Dns

pub record Directory : Type 0 where
  pub get_by_name : Text → Option Entry
  pub get_by_hostname : Text → Option Entry
  pub get_all : List Entry
  pub gethostbyname : Text → Dns
  -- inet_pton(AF_INET6, s) does not raise.
  pub is_ipv6 : Text → Bool

pub record ResolvedTarget : Type 0 where
  pub original_query : Text
  pub target_type : TargetType
  pub hostname : Text
  pub host_entry : Option Entry
  pub source : String

unfoldable pub is_local_target : Text → Bool
is_local_target [] = false
is_local_target (c ∷ s) = one_of (strip (lower (c ∷ s))) local_aliases

-- value.split(".")
abbrev onto_first : ℕ → List Text → List Text
onto_first c [] = (c ∷ []) ∷ []
onto_first c (p ∷ ps) = (c ∷ p) ∷ ps

unfoldable pub split_dots : Text → List Text
split_dots [] = [] ∷ []
split_dots (c ∷ s) = let rest = split_dots s in if c == 46 then [] ∷ rest else onto_first c rest

abbrev is_digit : ℕ → Bool
is_digit c = leb b'0' c && leb c b'9'

-- The digits of int(p), where single underscores may stand between digits: whether the last
-- character was a digit, and the number so far.
unfoldable pub number : Bool → ℕ → Text → Option ℕ
number true n [] = some n
number false n [] = none
number after n (c ∷ s) =
    let rest = number (is_digit c) (if is_digit c then n * 10 + (c - 48) else n) s in
    if is_digit c || (c == 95 && after) then rest else none

abbrev within : ℕ → Option ℕ → Option Bool
within top none = none
within top (some n) = some (leb n top)

-- 0 <= int(p) <= 255, or a ValueError
abbrev signed : Text → Option Bool
signed [] = none
signed (c ∷ s) =
    if c == 43
    then within 255 (number false 0 s)
    else if c == 45
    then within 0 (number false 0 s)
    else within 255 (number false 0 (c ∷ s))

abbrev byte_of : Text → Option Bool
byte_of p = signed (strip p)

-- all(...), which stops at the first number out of range
abbrev and_then : Option Bool → Option Bool → Option Bool
and_then none r = none
and_then (some b) r = if b then r else some false

unfoldable pub all_bytes : List Text → Option Bool
unfolding number
all_bytes [] = some true
all_bytes (p ∷ ps) = and_then (byte_of p) (all_bytes ps)

-- value[0].isalnum()
abbrev is_alnum : ℕ → Bool
is_alnum c = is_digit c || leb b'a' c && leb c b'z' || leb b'A' c && leb c b'Z'

abbrev is_valid_char : ℕ → Bool
is_valid_char c = is_digit c || leb b'a' c && leb c b'z' || c == 46 || c == 45

unfoldable pub all_valid : Text → Bool
all_valid [] = true
all_valid (c ∷ s) = is_valid_char c && all_valid s

unfoldable pub looks_like_hostname : Text → Bool
unfolding all_valid
looks_like_hostname [] = false
looks_like_hostname (c ∷ s) =
    if starts_with (codes "@") (c ∷ s)
    then false
    else if is_alnum c
    then all_valid (lower (c ∷ s))
    else false

-- host.strip(), without one @ at its start
abbrev without_at : Text → Text
without_at [] = []
without_at (c ∷ s) = if c == 64 then s else c ∷ s

unfoldable pub normalized : Text → Text
normalized host = without_at (strip host)

abbrev pub unknown_target : Text → ResolvedTarget
unknown_target host = record {
  original_query = host;
  target_type = unknown;
  hostname = host;
  host_entry = none;
  source = "unknown";
}

abbrev pub empty_target : ResolvedTarget
empty_target = record {
  original_query = [];
  target_type = unknown;
  hostname = [];
  host_entry = none;
  source = "empty";
}

abbrev local_target : Text → ResolvedTarget
local_target host = record {
  original_query = host;
  target_type = local;
  hostname = codes "local";
  host_entry = none;
  source = "local_alias";
}

abbrev from_inventory : Text → Entry → ResolvedTarget
from_inventory host e = record {
  original_query = host;
  target_type = remote;
  hostname = e.hostname;
  host_entry = some e;
  source = "inventory";
}

abbrev by_itself : Text → String → ResolvedTarget
by_itself host source = record {
  original_query = host;
  target_type = remote;
  hostname = host;
  host_entry = none;
  source = source;
}

-- An exception, or a value.
abbrev pub Result : Type 0 → Type 0
Result A = String ⊎ A

module _ (d : Directory) where
  abbrev ipv6_shape : Text → Bool
  ipv6_shape value =
      contains (codes ":") value && not (starts_with (codes "@") value) && d.is_ipv6 value

  abbrev ip_shape : Option Bool → Text → Bool
  ip_shape none value = ipv6_shape value
  ip_shape (some b) value = b

  unfoldable pub looks_like_ip : Text → Bool
  unfolding all_bytes
  looks_like_ip value =
      if length (split_dots value) == 4
      then ip_shape (all_bytes (split_dots value)) value
      else ipv6_shape value

  -- Steps 4 and 5: a name that is found, or an address.
  abbrev direct_ip : Text → Option ResolvedTarget
  direct_ip host = if looks_like_ip host then some (by_itself host "ip_direct") else none

  abbrev after_dns : Text → Dns → Result (Option ResolvedTarget)
  after_dns host found = inr (some (by_itself host "dns"))
  after_dns host not_found = inr (direct_ip host)
  after_dns host (failing e) = inl e

  abbrev by_dns : Text → Result (Option ResolvedTarget)
  by_dns host =
      if looks_like_hostname host || looks_like_ip host
      then after_dns host (d.gethostbyname host)
      else inr (direct_ip host)

  -- Steps 2 and 3.
  abbrev by_inventory : Text → Option Entry → Option Entry → Result (Option ResolvedTarget)
  by_inventory host (some e) _ = inr (some (from_inventory host e))
  by_inventory host none (some e) = inr (some (from_inventory host e))
  by_inventory host none none = by_dns host

  -- Steps 1 to 5, for a normalized host.
  unfoldable pub attempt : Text → Result (Option ResolvedTarget)
  attempt host =
      if is_local_target host
      then inr (some (local_target host))
      else by_inventory host (d.get_by_name host) (d.get_by_hostname host)

  abbrev pub or_unknown : Text → Result (Option ResolvedTarget) → Result ResolvedTarget
  or_unknown host (inl e) = inl e
  or_unknown host (inr none) = inr (unknown_target host)
  or_unknown host (inr (some t)) = inr t

  -- resolve(host, allow_session_fallback=False)
  unfoldable pub resolve_directly : Text → Result ResolvedTarget
  resolve_directly [] = inr empty_target
  resolve_directly (c ∷ s) = or_unknown (normalized (c ∷ s)) (attempt (normalized (c ∷ s)))

  -- The fallback to the session's last target, which is resolved directly.
  abbrev fall_back : Text → Option Text → Result ResolvedTarget
  fall_back host none = inr (unknown_target host)
  fall_back host (some []) = inr (unknown_target host)
  fall_back host (some (c ∷ s)) = resolve_directly (c ∷ s)

  abbrev pub or_last : Text → Option Text → Result (Option ResolvedTarget) → Result ResolvedTarget
  or_last host last (inl e) = inl e
  or_last host last (inr none) = fall_back host last
  or_last host last (inr (some t)) = inr t

  unfoldable pub resolve : Option Text → Text → Result ResolvedTarget
  resolve last [] = inr empty_target
  resolve last (c ∷ s) = or_last (normalized (c ∷ s)) last (attempt (normalized (c ∷ s)))

  unfoldable pub similar : Text → List Entry → List Text
  similar query [] = []
  similar query (e ∷ es) =
      let rest = similar query es in
      if contains query (lower e.name)
        || contains (lower e.name) query
        || contains query (lower e.hostname)
      then e.name ∷ rest
      else rest

  unfoldable pub find_similar_hosts : Text → List Text
  find_similar_hosts query = take 5 (similar (lower query) d.get_all)

abbrev record_remote : TargetType → Text → Text → Option Text → Option Text
record_remote remote (c ∷ s) query last = some query
record_remote remote [] query last = last
record_remote local hostname query last = last
record_remote unknown hostname query last = last

-- The session's last remote target.
unfoldable pub update_session_target : ResolvedTarget → Option Text → Option Text
update_session_target t last = record_remote t.target_type t.hostname t.original_query last
