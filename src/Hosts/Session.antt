-- ===== src/Hosts/Session.antt =====
-- Which target a command goes to: the one that was asked for, or the session's last one.
use mathlib.Core.Path.{subst}
use merlya.Common.{
  ℕ, ◌≡◌, refl, ◌⊎◌, ◌≢◌, inl, inr, String, Bool, true, false, Bool-cases, ◌||◌, Option, none, some,
  List, [], ◌∷◌, if◌then◌else◌,
}
use merlya.Common.Text.{Text}
use merlya.Hosts.{
  Directory, Entry, Dns, found, not_found, failing, ResolvedTarget, Result, local, remote,
  is_local_target, looks_like_ip, looks_like_hostname, normalized, direct_ip, after_dns,
  by_inventory, attempt, or_unknown, or_last, fall_back, resolve_directly, resolve, by_itself,
}
use merlya.Hosts.Routing.{
  Route, missing_host, wrong_parameter, failed, run_locally, host_not_found, run_remotely, by_type,
  dispatch, route, is_blank, looks_like_reference, Request, agent_route, determine_execution_target,
}

module _ (d : Directory) where
  -- The host name of a remote target is the host itself or that of its entry in the inventory.
  abbrev pub IsHostOf : Text → Text → Type 0
  IsHostOf host name =
      (name ≡ host)
      ⊎ ((e : Entry) × (name ≡ e.hostname)
          × ((d.get_by_name host ≡ some e) ⊎ (d.get_by_hostname host ≡ some e)))

  -- A target that a host resolves to: this machine for an alias of it, and otherwise a remote one.
  abbrev pub IsTargetOf : Text → ResolvedTarget → Type 0
  IsTargetOf host t =
      (t.original_query ≡ host)
      × (((t.target_type ≡ local) × (is_local_target host ≡ true))
          ⊎ ((t.target_type ≡ remote)
              × ((is_local_target host ≡ false) × IsHostOf host t.hostname)))

  abbrev OnTarget : (ResolvedTarget → Type 0) → Result (Option ResolvedTarget) → Type 0
  OnTarget P (inl e) = Unit
  OnTarget P (inr none) = Unit
  OnTarget P (inr (some t)) = P t

  if-OnTarget :
      (P : ResolvedTarget → Type 0) (b : Bool) (r q : Result (Option ResolvedTarget))
      → OnTarget P r
      → OnTarget P q
      → OnTarget P (if b then r else q)
  if-OnTarget P true r q h g = h
  if-OnTarget P false r q h g = g

  by_itself-IsTargetOf :
      (host : Text) (source : String)
      → is_local_target host ≡ false
      → IsTargetOf host (by_itself host source)
  by_itself-IsTargetOf host source h = (refl, inr (refl, (h, inl refl)))

  direct_ip-OnTarget :
      (host : Text)
      → is_local_target host ≡ false
      → OnTarget (IsTargetOf host) (inr (direct_ip d host))
  direct_ip-OnTarget host h = elim (Bool-cases (looks_like_ip d host)) [
    | inl e ↦ rw e (by_itself-IsTargetOf host "ip_direct" h)
    | inr e ↦ rw e tt
  ]

  after_dns-OnTarget :
      (host : Text) (r : Dns)
      → is_local_target host ≡ false
      → OnTarget (IsTargetOf host) (after_dns d host r)
  after_dns-OnTarget host found h = by_itself-IsTargetOf host "dns" h
  after_dns-OnTarget host not_found h = direct_ip-OnTarget host h
  after_dns-OnTarget host (failing e) h = tt

  by_inventory-OnTarget :
      (host : Text) (a b : Option Entry)
      → d.get_by_name host ≡ a
      → d.get_by_hostname host ≡ b
      → is_local_target host ≡ false
      → OnTarget (IsTargetOf host) (by_inventory d host a b)
  by_inventory-OnTarget host (some e) b p q h = (refl, inr (refl, (h, inr (e, refl, inl p))))
  by_inventory-OnTarget host none (some e) p q h = (refl, inr (refl, (h, inr (e, refl, inr q))))
  by_inventory-OnTarget host none none p q h =
      if-OnTarget (IsTargetOf host) (looks_like_hostname host || looks_like_ip d host) _ _
        (after_dns-OnTarget host (d.gethostbyname host) h) (direct_ip-OnTarget host h)

  attempt-OnTarget : (host : Text) → OnTarget (IsTargetOf host) (attempt d host)
  unfolding attempt
  attempt-OnTarget host = elim (Bool-cases (is_local_target host)) [
    | inl e ↦ rw e (refl, inl (refl, e))
    | inr e ↦ rw e (by_inventory-OnTarget host _ _ refl refl e)
  ]

  -- What a route to a host, or to this machine, says of the target.
  abbrev Routed : (ResolvedTarget → Type 0) → Type 0 → Route → Type 0
  Routed P L missing_host = Unit
  Routed P L wrong_parameter = Unit
  Routed P L (failed e) = Unit
  Routed P L run_locally = L
  Routed P L (host_not_found hs) = Unit
  Routed P L (run_remotely t) = P t

  if-Routed :
      (P : ResolvedTarget → Type 0) (L : Type 0) (b : Bool) (r q : Route)
      → Routed P L r
      → Routed P L q
      → Routed P L (if b then r else q)
  if-Routed P L true r q h g = h
  if-Routed P L false r q h g = g

  RemoteOf : Text → ResolvedTarget → Type 0
  RemoteOf host t =
      (t.original_query ≡ host) × ((is_local_target host ≡ false) × IsHostOf host t.hostname)

  LocalOf : Text → Type 0
  LocalOf host = is_local_target host ≡ true

  by_type-Routed :
      (host : Text) (t : ResolvedTarget) (hs : List Text)
      → IsTargetOf host t
      → Routed (RemoteOf host) (LocalOf host) (by_type t.target_type t hs)
  unfolding RemoteOf LocalOf
  by_type-Routed host t hs (q, inl (e, l)) = rw e l
  by_type-Routed host t hs (q, inr (e, (l, h))) = rw e (q, (l, h))

  -- A direct resolution, with no last target or with the host itself as the last one.
  directly-Routed :
      (asked host : Text) (r : Result (Option ResolvedTarget))
      → OnTarget (IsTargetOf host) r
      → Routed (RemoteOf host) (LocalOf host) (dispatch d asked (or_unknown d host r))
  directly-Routed asked host (inl e) h = tt
  directly-Routed asked host (inr none) h = tt
  directly-Routed asked host (inr (some t)) h = by_type-Routed host t _ h

  again-Routed :
      (c : ℕ) (s : Text) (r : Result (Option ResolvedTarget))
      → attempt d (normalized (c ∷ s)) ≡ r
      → OnTarget (IsTargetOf (normalized (c ∷ s))) r
      → Routed
          (RemoteOf (normalized (c ∷ s)))
          (LocalOf (normalized (c ∷ s)))
          (dispatch d (c ∷ s) (or_last d (normalized (c ∷ s)) (some (c ∷ s)) r))
  unfolding resolve_directly
  again-Routed c s (inl e) p h = tt
  again-Routed c s (inr none) p h = rw p tt
  again-Routed c s (inr (some t)) p h = by_type-Routed (normalized (c ∷ s)) t _ h

  resolve_again-Routed :
      (host : Text)
      → Routed
          (RemoteOf (normalized host))
          (LocalOf (normalized host))
          (dispatch d host (resolve d (some host) host))
  unfolding resolve
  resolve_again-Routed [] = tt
  resolve_again-Routed (c ∷ s) =
      again-Routed c s (attempt d (normalized (c ∷ s))) refl (attempt-OnTarget (normalized (c ∷ s)))

  Routed-map :
      (P Q : ResolvedTarget → Type 0) (L M : Type 0) (r : Route)
      → ((t : ResolvedTarget) → P t → Q t)
      → (L → M)
      → Routed P L r
      → Routed Q M r
  Routed-map P Q L M missing_host f g h = tt
  Routed-map P Q L M wrong_parameter f g h = tt
  Routed-map P Q L M (failed e) f g h = tt
  Routed-map P Q L M run_locally f g h = g h
  Routed-map P Q L M (host_not_found hs) f g h = tt
  Routed-map P Q L M (run_remotely t) f g h = f t h

  agent_route-Routed :
      (host : Text) (q : Request) (last : Option Text)
      → Routed (RemoteOf (normalized host)) Unit (agent_route d host q last)
  unfolding agent_route route
  agent_route-Routed host q last =
      let P = RemoteOf (normalized host) in
      if-Routed P Unit (determine_execution_target d host q last) _ _ tt (
        if-Routed P Unit (looks_like_reference host) _ _ tt (
          if-Routed P Unit (is_blank host) _ _ tt (
            if-Routed P Unit (looks_like_reference host) _ _ tt (
              Routed-map P P (LocalOf (normalized host)) Unit _ (λ t h. h) (λ h. tt)
                (resolve_again-Routed host)))))

  -- If the agent's tool runs a command on a remote host, this is the host that the call named,
  -- whatever the session's last target was: its name, without spaces and @, is no alias of this
  -- machine, and the host connected to is that name itself, or the host name of an entry that the
  -- inventory has for it.
  pub agent_route-Asked :
      (host : Text) (q : Request) (last : Option Text) (t : ResolvedTarget)
      → agent_route d host q last ≡ run_remotely t
      → (t.original_query ≡ normalized host)
        × ((is_local_target (normalized host) ≡ false) × IsHostOf (normalized host) t.hostname)
  unfolding RemoteOf
  agent_route-Asked host q last t e =
      subst (λ r. Routed (RemoteOf (normalized host)) Unit r) e (agent_route-Routed host q last)

  -- The one that a command runs on this machine for.
  LocalFor : Option Text → Text → Type 0
  LocalFor last host =
      (is_local_target (normalized host) ≡ true)
      ⊎ ((l : Text) × (last ≡ some l) × (is_local_target (normalized l) ≡ true))

  fall_back-Routed :
      (asked host : Text) (last : Option Text)
      → Routed (λ t. Unit) (LocalFor last asked) (dispatch d asked (fall_back d host last))
  unfolding resolve_directly LocalFor LocalOf
  fall_back-Routed asked host none = tt
  fall_back-Routed asked host (some []) = tt
  fall_back-Routed asked host (some (c ∷ s)) =
      Routed-map (RemoteOf (normalized (c ∷ s))) (λ t. Unit) (LocalOf (normalized (c ∷ s))) _ _
        (λ t h. tt) (λ h. inr (c ∷ s, refl, h))
        (directly-Routed asked (normalized (c ∷ s)) (attempt d (normalized (c ∷ s)))
          (attempt-OnTarget (normalized (c ∷ s))))

  or_last-Routed :
      (asked : Text) (last : Option Text) (r : Result (Option ResolvedTarget))
      → OnTarget (IsTargetOf (normalized asked)) r
      → Routed
          (λ t. Unit)
          (LocalFor last asked)
          (dispatch d asked (or_last d (normalized asked) last r))
  unfolding LocalFor LocalOf
  or_last-Routed asked last (inl e) h = tt
  or_last-Routed asked last (inr none) h = fall_back-Routed asked (normalized asked) last
  or_last-Routed asked last (inr (some t)) h =
      Routed-map (RemoteOf (normalized asked)) (λ t. Unit) (LocalOf (normalized asked)) _ _
        (λ t h. tt) (λ h. inl h) (by_type-Routed (normalized asked) t _ h)

  resolve-Routed :
      (host : Text) (last : Option Text)
      → Routed (λ t. Unit) (LocalFor last host) (dispatch d host (resolve d last host))
  unfolding resolve
  resolve-Routed [] last = tt
  resolve-Routed (c ∷ s) last =
      or_last-Routed (c ∷ s) last (attempt d (normalized (c ∷ s)))
        (attempt-OnTarget (normalized (c ∷ s)))

  -- If the `ssh_execute` of the tools runs a command on this machine, the host that was asked for,
  -- or the session's last target, is an alias of this machine, without spaces and @.
  pub local_route-Alias :
      (host : Text) (last : Option Text)
      → route d last host ≡ run_locally
      → (is_local_target (normalized host) ≡ true)
        ⊎ ((l : Text) × (last ≡ some l) × (is_local_target (normalized l) ≡ true))
  unfolding route LocalFor
  local_route-Alias host last e =
      subst (λ r. Routed (λ t. Unit) (LocalFor last host) r) e
        (if-Routed (λ t. Unit) (LocalFor last host) (is_blank host) _ _ tt
          (if-Routed (λ t. Unit) (LocalFor last host) (looks_like_reference host) _ _ tt
            (resolve-Routed host last)))

  -- A host that is not blank, not taken for a reference to a secret, and neither an alias of this
  -- machine, nor in the inventory, nor found by name or as an address, goes where the session's last
  -- target goes by itself, if the session has one.
  pub unresolved_route-last :
      (c : ℕ) (s : Text) (last : Text)
      → is_blank (c ∷ s) ≡ false
      → looks_like_reference (c ∷ s) ≡ false
      → attempt d (normalized (c ∷ s)) ≡ inr none
      → last ≢ []
      → route d (some last) (c ∷ s) ≡ dispatch d (c ∷ s) (resolve_directly d last)
  unfolding route resolve
  unresolved_route-last c s [] b r e n = absurd (n refl)
  unresolved_route-last c s (x ∷ last) b r e n = rw (b, r, e) refl
