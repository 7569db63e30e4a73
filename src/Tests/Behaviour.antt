-- ===== src/Tests/Behaviour.antt =====
-- The daemon, the history, profiles, suggestions and the desktop app at concrete data.
use mathlib.Core.List.{Mem}
use mathlib.Core.List.Perm
use link_pilot.Prelude.{
  ℕ, String, ◌≡◌, ◌↔◌, refl, Bool, true, false, none, some, List, [], ◌∷◌, ok, err, length, ltb,
  ◌*◌, if◌then◌else◌, leb, ◌+◌, arith, take, reverse, is_empty, map,
}
use link_pilot.Core.Browser.{BrowserProfile, BrowserKind, InstalledBrowser, target_of}
use link_pilot.Core.Profiles.{apply_profile_order}
use link_pilot.Core.Profiles.Orders.{last_with, firsts, gather, apply_profile_order-saved}
use link_pilot.Core.Routing.Context.{RoutingDecision, open_with}
use link_pilot.Core.Routing.Evaluate.{evaluate, evaluate_explained}
use link_pilot.Core.History.{RouteRecord, with_capacity, recent, len, with_explanation, log}
use link_pilot.Core.History.Recency.{log_all, recent-log_all, recent-log_all-zero_capacity}
use link_pilot.Core.Protocol.{Request}
use link_pilot.Core.Daemon.{handle}
use link_pilot.Core.Daemon.Replies.{Opened, handle-route_open}
use link_pilot.Core.Observations.Entries.{
  Observation, Suggestion, Key, key_eq, dismissal_ttl_days, ms_per_day,
}
use link_pilot.Core.Observations.Aggregate.{Floats, cmp, aggregate}
use link_pilot.Core.Observations.Logs.{LogJson, mute}
use link_pilot.Core.Observations.Suggesting.{proposed, aggregate-proposed_iff}
use link_pilot.Core.Observations.Muting.{muted, mute-muted}
use link_pilot.Desktop.Dispatch.{Desk, Launcher}
use link_pilot.Tests.Data.{context, host, runtime}

handle-route_open_example :
    Opened host "r-1" "https://github.com"
      (evaluate host.urls runtime.config.state.doc (context "https://github.com"))
      (record runtime {
        history =
            log
              (with_explanation 5
                (context "https://github.com")
                (evaluate host.urls runtime.config.state.doc (context "https://github.com"))
                (evaluate_explained host.urls runtime.config.state.doc
                  (context "https://github.com")).explanation)
              runtime.history;
      })
      (handle host 5 7 (Request.route_open "r-1" (context "https://github.com")) runtime).0
      (handle host 5 7 (Request.route_open "r-1" (context "https://github.com")) runtime).1
handle-route_open_example = handle-route_open host 5 7 "r-1" (context "https://github.com") runtime

abbrev logged : ℕ → RouteRecord
logged now = record {
  timestamp_ms = now;
  context = context "https://github.com";
  decision = open_with (target_of "chrome") (some 2) "host";
  matched_rule = some 2;
  explanation = none;
}

recent-log_all_example :
    recent 5 (log_all (logged 1 ∷ logged 2 ∷ logged 3 ∷ []) (with_capacity 2))
    ≡ take 5 (take 2 (reverse (logged 1 ∷ logged 2 ∷ logged 3 ∷ [])))
recent-log_all_example = recent-log_all 2 5 (logged 1 ∷ logged 2 ∷ logged 3 ∷ []) (omega arith)

recent-log_all-zero_capacity_example :
    (recent 1 (log_all (logged 1 ∷ logged 2 ∷ []) (with_capacity 0))
      ≡ take 1 (reverse (logged 1 ∷ logged 2 ∷ [])))
    × (len (log_all (logged 1 ∷ logged 2 ∷ []) (with_capacity 0))
        ≡ length (logged 1 ∷ logged 2 ∷ []))
recent-log_all-zero_capacity_example = recent-log_all-zero_capacity 1 (logged 1 ∷ logged 2 ∷ [])

abbrev profile : String → String → Bool → BrowserProfile
profile id name is_default = record {
  id = id;
  display_name = name;
  avatar_url = none;
  email = none;
  accent_color = none;
  is_default = is_default;
}

abbrev profiles : List BrowserProfile
profiles =
    profile "Profile 1" "Work" false
    ∷ profile "Default" "Home" true
    ∷ profile "Profile 2" "Guest" false
    ∷ []

apply_profile_order-saved_example :
    apply_profile_order profiles (some ("Profile 2" ∷ "gone" ∷ "Profile 1" ∷ "Profile 2" ∷ []))
    ≡ gather
        (λ id. last_with id profiles)
        (firsts ("Profile 2" ∷ "gone" ∷ "Profile 1" ∷ "Profile 2" ∷ []))
apply_profile_order-saved_example =
    apply_profile_order-saved profiles ("Profile 2" ∷ "gone" ∷ "Profile 1" ∷ "Profile 2" ∷ []) refl

-- Exact fractions.
abbrev fractions : Floats (ℕ × ℕ)
fractions = record {
  ratio = λ a b. (a, b);
  lt = λ p q. ltb (p.0 * q.1) (q.0 * p.1);
  partial_cmp = λ p q. some (cmp (p.0 * q.1) (q.0 * p.1));
  min_confidence = (7, 10);
}

abbrev pick : String → String → ℕ → Observation
pick host browser at = record {
  timestamp_ms = at;
  host = host;
  source_app = none;
  browser_id = browser;
  profile_id = none;
}

abbrev picks : List Observation
picks =
    pick "a.com" "arc" 1 ∷ pick "a.com" "arc" 2 ∷ pick "b.com" "arc" 3 ∷ pick "a.com" "arc" 4 ∷ []

abbrev arc_suggestion : Suggestion (ℕ × ℕ)
arc_suggestion = record {
  host = "a.com";
  browser_id = "arc";
  profile_id = none;
  observation_count = 3;
  confidence = (3, 3);
  last_observed_ms = 4;
}

aggregate-proposed_iff_example :
    Mem arc_suggestion (aggregate fractions (λ m. m) picks [])
    ↔ ∥ ((k : Key) × (proposed fractions picks [] k ≡ some arc_suggestion)) ∥₁
aggregate-proposed_iff_example =
    aggregate-proposed_iff fractions (λ m. m) picks [] arc_suggestion (omega arith)
      (λ m. Perm.refl m)

abbrev log_json : LogJson
log_json = record {
  to_string = λ o. ok "{}";
  from_str = λ s. err "expected value";
  dismissed_to_string_pretty = λ es. ok "{}";
  dismissed_from_str = λ s. ok [];
}

abbrev a_key : Key
a_key = record { host = "a.com"; browser_id = "arc"; profile_id = none }

mute-muted_example : muted a_key (mute log_json a_key 1000 1001 []) 2000 ≡ (
    if key_eq a_key a_key
    then leb 2000 (1000 + dismissal_ttl_days * ms_per_day)
    else muted a_key [] 2000)
mute-muted_example = mute-muted log_json a_key 1000 1001 a_key [] 2000 (omega arith) (omega arith)

-- The first call fails, and those after it go well.
abbrev second_call : Launcher String
second_call calls target url = if is_empty calls then err "not installed" else ok tt

abbrev browsers : List InstalledBrowser
browsers =
    map
      (λ id. record {
        id = id;
        display_name = id;
        kind = BrowserKind.unknown;
        executable = id ∷ [];
        platform_app_id = none;
        profile_root = none;
      })
      ("chrome" ∷ "safari" ∷ [])

abbrev desk : Desk String
desk = record { launches = []; asks = [] }

abbrev decision : RoutingDecision
decision = open_with (target_of "chrome") (some 2) "host"
