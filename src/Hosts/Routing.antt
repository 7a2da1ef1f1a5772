-- ===== src/Hosts/Routing.antt =====
-- merlya/tools/core/ssh.py and merlya/agent/tools/core/ssh.py: where `ssh_execute` runs a command.
-- Of the agent's tool the choice of the target is modelled, not the check for loops, the
-- credentials and the security question, which come before the call of the other `ssh_execute`.
use merlya.Common.{
  String, str_eq, inl, inr, Bool, false, not, ◌&&◌, ◌||◌, Option, none, some, List, [], ◌∷◌,
  if◌then◌else◌,
}
use merlya.Common.Text.{Text, codes, lower, strip, text_eq, starts_with, contains, one_of}
use merlya.Hosts.{
  Directory, Entry, ResolvedTarget, Result, TargetType, local, remote, unknown, resolve,
  find_similar_hosts,
}

pub data Route : Type 0 where
  missing_host : Route
  wrong_parameter : Route
  failed : String → Route
  run_locally : Route
  host_not_found : List Text → Route
  run_remotely : ResolvedTarget → Route

abbrev pub is_blank : Text → Bool
is_blank s = text_eq (strip s) []

-- any(kw in s for kw in ...)
unfoldable pub any_in : List Text → Text → Bool
any_in [] s = false
any_in (k ∷ ks) s = contains k s || any_in ks s

unfoldable pub looks_like_reference : Text → Bool
unfolding any_in
looks_like_reference host =
    starts_with (codes "@") host
    && any_in (codes "secret" ∷ codes "password" ∷ codes "sudo" ∷ codes "root" ∷ codes "cred" ∷ [])
        (lower host)

abbrev pub by_type : TargetType → ResolvedTarget → List Text → Route
by_type local t suggestions = run_locally
by_type unknown t suggestions = host_not_found suggestions
by_type remote t suggestions = run_remotely t

module _ (d : Directory) where
  abbrev pub dispatch : Text → Result ResolvedTarget → Route
  dispatch host (inl e) = failed e
  dispatch host (inr t) = by_type t.target_type t (find_similar_hosts d host)

  -- The session's last target and the host that was asked for.
  unfoldable pub route : Option Text → Text → Route
  route last host =
      if is_blank host
      then missing_host
      else if looks_like_reference host
      then wrong_parameter
      else dispatch host (resolve d last host)

-- What the agent's tool knows of the user's request.
pub record Request : Type 0 where
  pub entity_hosts : List Text
  pub user_input : Text

abbrev local_hosts : List Text
local_hosts = codes "local" ∷ codes "localhost" ∷ codes "127.0.0.1" ∷ codes "::1" ∷ []

-- s.lower() in [h.lower() for h in hosts]
unfoldable pub among : Text → List Text → Bool
among s [] = false
among s (h ∷ hs) = text_eq s (lower h) || among s hs

unfoldable pub host_in_entities : Text → Request → Bool
unfolding among
host_in_entities host q =
    among (lower host) q.entity_hosts
    || contains (lower host) (lower q.user_input)
    || contains host q.user_input

abbrev named_in : Option Entry → Text → Bool
named_in none s = false
named_in (some e) s = contains (lower e.name) (lower s)

abbrev or_else : Option Entry → Option Entry → Option Entry
or_else none e = e
or_else (some e) _ = some e

abbrev same_entry : Option Entry → Option Entry → Bool
same_entry none e = false
same_entry (some a) none = false
same_entry (some a) (some b) = str_eq a.id b.id

module _ (d : Directory) where
  unfoldable pub named_in_inventory : Text → Request → Bool
  named_in_inventory host q =
      named_in (d.get_by_name host) q.user_input || named_in (d.get_by_hostname host) q.user_input

  abbrev entry_of : Text → Option Entry
  entry_of s = or_else (d.get_by_name s) (d.get_by_hostname s)

  unfoldable pub in_conversation : Text → Option Text → Bool
  in_conversation host none = false
  in_conversation host (some []) = false
  in_conversation host (some (c ∷ s)) =
      text_eq (lower host) (lower (c ∷ s)) || same_entry (entry_of (c ∷ s)) (entry_of host)

  -- A host that the request, the inventory and the conversation do not name is replaced by this
  -- machine.
  unfoldable pub determine_execution_target : Text → Request → Option Text → Bool
  determine_execution_target host q last =
      one_of (lower host) local_hosts
      || not (host_in_entities host q || named_in_inventory host q || in_conversation host last)

  -- A remote command sets the conversation's target first. `wrong_parameter` is a retry here.
  unfoldable pub agent_route : Text → Request → Option Text → Route
  agent_route host q last =
      if determine_execution_target host q last
      then run_locally
      else if looks_like_reference host
      then wrong_parameter
      else route d (some host) host
