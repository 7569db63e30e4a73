-- ===== src/Desktop/Outcomes.antt =====
-- What `execute` (apps/desktop/src-tauri/src/dispatch.rs) launches and asks.
use link_pilot.Prelude.{String, ◌≡◌, ◌≢◌, ◌⊎◌, List, [], ◌∷◌, ◌++◌, ok, err, false}
use link_pilot.Core.Browser.{BrowserId, BrowserTarget}
use link_pilot.Core.Routing.Context.{RoutingDecision, open_with, allow, ask_among, blocked}
use link_pilot.Desktop.Dispatch.{
  LaunchOutcome, launched, skipped, pending, Desk, Launcher, contains,
}

module _ {Url : Type 0} (launcher : Launcher Url) where
  -- Each of the newer calls, with whether it went well: the last one first.
  abbrev pub Failures : List (BrowserTarget × Url) → List (BrowserTarget × Url) → Type 0
  Failures [] old = Unit {0}
  Failures ((t, u) ∷ calls) old =
      ((e : String) × (launcher (calls ++ old) t u ≡ err e)) × Failures calls old

  -- The target that is launched after calls that failed: that of the decision, at once, or the default
  -- one, where the browser of the target is not installed, or after a launch of the target that failed.
  abbrev pub Chooses :
      List BrowserId
      → (target default_target : BrowserTarget) → Url
      → BrowserTarget
      → List (BrowserTarget × Url)
      → Type 0
  Chooses ids target default_target url t calls =
      ((t ≡ target) × (calls ≡ []))
      ⊎ ((t ≡ default_target)
          × ((contains ids target.browser ≡ false) ⊎ (calls ≡ (target, url) ∷ [])))

  -- What became of a decision to open a parsed URL, for a target and the default one.
  pub record Opened (ids : List BrowserId) (target default_target : BrowserTarget)
      (raw_url : String) (url : Url) (before : Desk Url) (o : LaunchOutcome) (after : Desk Url)
      : Type 0 where
    -- Something is done.
    pub not_skipped : o ≢ skipped
    -- A launch is the newest call, it went well, after calls that failed; no picker was spawned.
    pub launch_done :
        (t : BrowserTarget)
        → o ≡ launched t
        → (calls : List (BrowserTarget × Url)) × (after.launches
            ≡ (t, url) ∷ (calls ++ before.launches))
          × Failures calls before.launches
          × (launcher (calls ++ before.launches) t url ≡ ok tt)
          × (after.asks ≡ before.asks)
          × Chooses ids target default_target url t calls
    -- Otherwise every call that was made failed.
    pub others_failed :
        ((t : BrowserTarget) → o ≢ launched t)
        → (calls : List (BrowserTarget × Url)) × (after.launches ≡ calls ++ before.launches)
          × Failures calls before.launches
    -- A picker is pending exactly where one was spawned.
    pub asked :
        ((o ≡ pending) × (after.asks ≡ ([], raw_url, default_target) ∷ before.asks))
        ⊎ ((o ≢ pending) × (after.asks ≡ before.asks))

  -- What becomes of a decision: one to open as in `Opened`, one to ask spawns the picker with the
  -- decision's candidates and launches nothing, and for the others nothing is done.
  abbrev pub Executed :
      List BrowserId
      → RoutingDecision
      → (default_target : BrowserTarget) → (raw_url : String) → Url
      → Desk Url
      → LaunchOutcome
      → Desk Url
      → Type 0
  Executed ids (open_with target rule reason) d raw_url url before o after =
      Opened ids target d raw_url url before o after
  Executed ids (ask_among candidates reason) d raw_url url before o after =
      (o ≡ pending)
      × (after.launches ≡ before.launches)
      × (after.asks ≡ (candidates, raw_url, d) ∷ before.asks)
  Executed ids (allow reason) d raw_url url before o after = (o ≡ skipped) × (after ≡ before)
  Executed ids (blocked reason) d raw_url url before o after = (o ≡ skipped) × (after ≡ before)
