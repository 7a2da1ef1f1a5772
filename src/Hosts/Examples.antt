-- ===== src/Hosts/Examples.antt =====
-- Commands for a few hosts: one in the inventory, one found by name, and one that nobody knows.
use merlya.Common.{◌≡◌, refl, ◌⊎◌, true, false, none, some, [], ◌∷◌, if◌then◌else◌}
use merlya.Common.Text.{Text, codes, lower, strip, text_eq, starts_with, contains, one_of}
use merlya.Hosts.{
  Directory, Entry, remote, found, not_found, ResolvedTarget, is_local_target, normalized, attempt,
  looks_like_ip, looks_like_hostname, split_dots, resolve, resolve_directly,
}
use merlya.Hosts.Routing.{
  run_locally, run_remotely, route, agent_route, looks_like_reference, Request,
  determine_execution_target, host_in_entities, among, named_in_inventory, in_conversation,
}
use merlya.Hosts.Session.{IsHostOf, agent_route-Asked, local_route-Alias}

abbrev web : Entry
web = record { id = "1"; name = codes "web"; hostname = codes "10.0.0.7" }

abbrev directory : Directory
directory = record {
  get_by_name = λ n. if text_eq n (codes "web") then some web else none;
  get_by_hostname = λ n. none;
  get_all = web ∷ [];
  gethostbyname = λ n. if text_eq n (codes "example.org") then found else not_found;
  is_ipv6 = λ n. false;
}

abbrev web_target : ResolvedTarget
web_target = record {
  original_query = codes "web";
  target_type = remote;
  hostname = codes "10.0.0.7";
  host_entry = some web;
  source = "inventory";
}

-- The target of a command whose host is not known is the one of the command before it.
misdirected : route directory (some (codes "web")) (codes "prod-db") ≡ run_remotely web_target
unfolding route resolve resolve_directly attempt text_eq strip looks_like_reference starts_with
    is_local_target normalized one_of lower looks_like_hostname looks_like_ip split_dots contains
misdirected = refl

-- After a command for 0.0.0.0, one for an unknown host runs on this machine.
local_route-Alias_example :
    (is_local_target (normalized (codes "prod-db")) ≡ true)
    ⊎ ((l : Text) × (some (codes "0.0.0.0") ≡ some l) × (is_local_target (normalized l) ≡ true))
unfolding route resolve resolve_directly attempt text_eq strip looks_like_reference starts_with
    is_local_target normalized one_of lower looks_like_hostname looks_like_ip split_dots contains
local_route-Alias_example =
    local_route-Alias directory (codes "prod-db") (some (codes "0.0.0.0")) refl

abbrev about_web : Request
about_web = record { entity_hosts = []; user_input = codes "free space of web" }

agent_route-Asked_example :
    (web_target.original_query ≡ normalized (codes "web"))
    × ((is_local_target (normalized (codes "web")) ≡ false)
        × IsHostOf directory (normalized (codes "web")) (codes "10.0.0.7"))
unfolding agent_route determine_execution_target host_in_entities route resolve resolve_directly
    attempt text_eq strip looks_like_reference starts_with is_local_target normalized one_of lower
    looks_like_hostname looks_like_ip split_dots contains
agent_route-Asked_example =
    agent_route-Asked directory (codes "web") about_web (some (codes "db")) web_target refl

-- A command for a host that the request does not name runs on this machine.
replaced_by_this_machine :
    agent_route directory (codes "example.org") about_web (some (codes "web")) ≡ run_locally
unfolding agent_route determine_execution_target host_in_entities among named_in_inventory
    in_conversation text_eq strip looks_like_reference starts_with is_local_target normalized one_of
    lower looks_like_hostname looks_like_ip split_dots contains
replaced_by_this_machine = refl
