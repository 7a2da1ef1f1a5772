-- ===== src/Policies.antt =====
-- merlya/config/policies.py, `PolicyManager`: the tier, the summarization and the confirmation that
-- the configuration asks for. The prediction of a tier is an action on a world `W`; the threshold is
-- per cent, and the fields that are only copied are left out.
use merlya.Common.{
  ℕ, zero, suc, ◌*◌, ◌≡◌, refl, Bool, true, false, not, ◌||◌, Option, none, some, List, [], ◌∷◌,
  ltb, leb, if◌then◌else◌, arith, ap,
}
use merlya.Common.Text.{Text, codes, lower, text_eq, text_eq_sound, one_of}
use merlya.Session.{ContextTier, minimal, standard, extended, TierLimits, tier_config}

pub record PolicyConfig : Type 0 where
  pub context_tier : Text
  pub auto_summarize : Bool
  pub summarize_threshold : ℕ
  pub require_confirmation_for_write : Bool
  pub max_hosts_per_skill : ℕ
  pub max_tokens_per_call : ℕ

-- What is resolved for a call.
pub record EffectivePolicy : Type 0 where
  pub tier : ContextTier
  pub limits : TierLimits
  pub threshold : ℕ

abbrev is_tier : PolicyConfig → Text → Bool
is_tier c t = text_eq (lower c.context_tier) t

unfoldable pub get_default_tier : PolicyConfig → ContextTier
get_default_tier c =
    if is_tier c (codes "minimal")
    then minimal
    else if is_tier c (codes "extended")
    then extended
    else standard

abbrev tier_or_default : PolicyConfig → Option ContextTier → ContextTier
tier_or_default c none = get_default_tier c
tier_or_default c (some t) = t

unfoldable pub get_tier_limits : PolicyConfig → Option ContextTier → TierLimits
get_tier_limits c t = tier_config (tier_or_default c t)

module _ {W : Type 0} (predict : Text → W → ContextTier × W) where
  abbrev predicted : Option Text → W → ContextTier × W
  predicted none w = (standard, w)
  predicted (some []) w = (standard, w)
  predicted (some (x ∷ xs)) w = predict (x ∷ xs) w

  unfoldable pub resolve_tier : PolicyConfig → Option Text → W → ContextTier × W
  resolve_tier c user_input w =
      if is_tier c (codes "minimal")
      then (minimal, w)
      else if is_tier c (codes "standard")
      then (standard, w)
      else if is_tier c (codes "extended")
      then (extended, w)
      else predicted user_input w

  unfoldable pub get_effective_policy : PolicyConfig → Option Text → W → EffectivePolicy × W
  get_effective_policy c user_input w =
      let r = resolve_tier c user_input w in
      (
        record {
          tier = r.0;
          limits = tier_config r.0;
          threshold =
              if not (text_eq c.context_tier (codes "auto"))
              then c.summarize_threshold
              else (tier_config r.0).summarize_threshold;
        },
        r.1,
      )

-- The limits of the tiers are positive, so the code's guard against zero never applies.
abbrev over : TierLimits → ℕ → ℕ → ℕ → Bool
over l threshold messages tokens =
    ltb (threshold * l.max_messages) (100 * messages)
    || ltb (threshold * l.max_tokens) (100 * tokens)

unfoldable pub should_summarize : PolicyConfig → ℕ → ℕ → Option ContextTier → Bool
unfolding get_tier_limits
should_summarize c messages tokens tier =
    if c.auto_summarize
    then over (get_tier_limits c tier) c.summarize_threshold messages tokens
    else false

abbrev destructive_ops : List Text
destructive_ops =
    codes "write"
    ∷ codes "delete"
    ∷ codes "remove"
    ∷ codes "restart"
    ∷ codes "stop"
    ∷ codes "kill"
    ∷ codes "reboot"
    ∷ codes "shutdown"
    ∷ codes "truncate"
    ∷ codes "drop"
    ∷ []

unfoldable pub should_confirm : PolicyConfig → Text → Bool
should_confirm c operation =
    if c.require_confirmation_for_write then one_of (lower operation) destructive_ops else false

-- Whether the number is accepted; a negative number, which is refused, is none of the naturals.
unfoldable pub validate_hosts_count : PolicyConfig → ℕ → Bool
validate_hosts_count c zero = false
validate_hosts_count c (suc n) = leb (suc n) c.max_hosts_per_skill

unfoldable pub validate_tokens : PolicyConfig → ℕ → Bool
validate_tokens c n = leb n c.max_tokens_per_call

choose :
    {W : Type 0} (w : W) (a b e : Bool)
    → (b ≡ true → e ≡ false)
    → ◌≡◌ {A = ContextTier × W}
        (if a
          then (minimal, w)
          else if b
          then (standard, w)
          else if e
          then (extended, w)
          else (standard, w))
        ((if a then minimal else if e then extended else standard), w)
choose w true b e h = refl
choose w false true true h = absurd (ground (arith, h refl))
choose w false true false h = refl
choose w false false true h = refl
choose w false false false h = refl

other_tier : (t : Text) → text_eq t (codes "standard") ≡ true → text_eq t (codes "extended") ≡ false
unfolding text_eq
other_tier t h = ap (λ x. text_eq x (codes "extended")) (text_eq_sound t (codes "standard") h)

-- Without an input the tier of a call is the default tier, which the checks of a number of messages
-- take, whatever is configured.
pub resolve_tier-default :
    {W : Type 0} (predict : Text → W → ContextTier × W) (c : PolicyConfig) (w : W)
    → resolve_tier predict c none w ≡ (get_default_tier c, w)
unfolding resolve_tier get_default_tier
resolve_tier-default predict c w =
    choose w (is_tier c (codes "minimal")) (is_tier c (codes "standard"))
      (is_tier c (codes "extended")) (other_tier (lower c.context_tier))
