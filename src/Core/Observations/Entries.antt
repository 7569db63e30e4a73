-- ===== src/Core/Observations/Entries.antt =====
-- crates/core/src/observations.rs: observations, suggestions, dismissals.
use link_pilot.Prelude.{
  ℕ, String, Bool, Option, none, some, List, map, filter, ◌-◌, ◌*◌, leb, ◌==◌, ◌&&◌, true, false,
}
use link_pilot.Core.Browser.{BrowserTarget, target_of, with_profile}

pub record ObservedSourceApp : Type 0 where
  pub name : String
  pub bundle_id : Option String

pub record Observation : Type 0 where
  pub timestamp_ms : ℕ
  pub host : String
  pub source_app : Option ObservedSourceApp
  pub browser_id : String
  pub profile_id : Option String

-- `F` is `f32`.
pub record Suggestion (F : Type 0) : Type 0 where
  pub host : String
  pub browser_id : String
  pub profile_id : Option String
  pub observation_count : ℕ
  pub confidence : F
  pub last_observed_ms : ℕ

pub record DismissedSuggestion : Type 0 where
  pub host : String
  pub browser_id : String
  pub profile_id : Option String
  pub dismissed_at_ms : ℕ

-- The tuple that suggestions and dismissals are about: host, browser, profile.
pub record Key : Type 0 where
  pub host : String
  pub browser_id : String
  pub profile_id : Option String

abbrev pub min_observations : ℕ
min_observations = 3

abbrev pub dismissal_ttl_days : ℕ
dismissal_ttl_days = 30

abbrev pub ms_per_day : ℕ
ms_per_day = 86400000

-- `Suggestion::to_target`
unfoldable pub to_target : {F : Type 0} → Suggestion F → BrowserTarget
to_target s = elim (s.profile_id) [
  | none ↦ target_of s.browser_id
  | some p ↦ with_profile (target_of s.browser_id) p
]

abbrev pub same_profile : Option String → Option String → Bool
same_profile none none = true
same_profile (some p) (some q) = p == q
same_profile _ _ = false

unfoldable pub key_eq : Key → Key → Bool
key_eq k l =
    k.host == l.host && k.browser_id == l.browser_id && same_profile k.profile_id l.profile_id

abbrev pub key_of : Observation → Key
key_of o = record { host = o.host; browser_id = o.browser_id; profile_id = o.profile_id }

abbrev pub dismissed_key : DismissedSuggestion → Key
dismissed_key e = record { host = e.host; browser_id = e.browser_id; profile_id = e.profile_id }

-- `now.saturating_sub(DISMISSAL_TTL_DAYS * MS_PER_DAY)`
abbrev pub ttl_cutoff : ℕ → ℕ
ttl_cutoff now = now - dismissal_ttl_days * ms_per_day

-- `active_dismissals`; the set is the list of its members.
unfoldable pub active_dismissals : List DismissedSuggestion → ℕ → List Key
active_dismissals entries now =
    map dismissed_key (filter (λ e. leb (ttl_cutoff now) e.dismissed_at_ms) entries)
