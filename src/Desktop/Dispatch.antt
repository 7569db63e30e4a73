-- ===== src/Desktop/Dispatch.antt =====
-- apps/desktop/src-tauri/src/dispatch.rs: carrying out a decision. This is the build without the
-- feature `app-store`, in which `validate_target` and `validate_document` accept everything.
use link_pilot.Prelude.{
  String, Bool, false, not, ◌&&◌, ◌||◌, List, [], ◌∷◌, map, any, Result, ok, err, if◌then◌else◌,
  ◌==◌, ◌⧺◌,
}
use link_pilot.Core.Browser.{BrowserId, BrowserTarget, InstalledBrowser}
use link_pilot.Core.Config.{AskQuickOpenModifier}
use link_pilot.Core.Routing.Context.{
  UrlCrate, RoutingDecision, open_with, allow, ask_among, blocked,
}
use link_pilot.Core.Daemon.{or_default}

pub data LaunchOutcome : Type 0 where
  launched : BrowserTarget → LaunchOutcome
  skipped pending : LaunchOutcome
  failed : String → LaunchOutcome

pub data OpenPlan : Type 0 where
  primary default ask : OpenPlan

pub record ClickModifiers : Type 0 where
  pub command : Bool
  pub option : Bool
  pub control : Bool
  pub shift : Bool

unfoldable pub is_pressed : ClickModifiers → AskQuickOpenModifier → Bool
is_pressed click AskQuickOpenModifier.off = false
is_pressed click AskQuickOpenModifier.command = click.command
is_pressed click AskQuickOpenModifier.option = click.option
is_pressed click AskQuickOpenModifier.control = click.control
is_pressed click AskQuickOpenModifier.shift = click.shift

-- The calls of the launcher so far and the pickers spawned, the last one first; a picker has the
-- candidates, the URL and the default target.
pub record Desk (Url : Type 0) : Type 0 where
  pub launches : List (BrowserTarget × Url)
  pub asks : List (List BrowserTarget × String × BrowserTarget)

-- `UrlLauncher::open`, whose answer may depend on the calls before it.
abbrev pub Launcher : Type 0 → Type 0
Launcher Url = List (BrowserTarget × Url) → BrowserTarget → Url → Result (Unit {0}) String

-- `installed_browser_ids`, on the answer of the inventory.
unfoldable pub installed_browser_ids : Result (List InstalledBrowser) String → List BrowserId
installed_browser_ids answer = map (λ b. b.id) (or_default answer [])

abbrev pub contains : List BrowserId → BrowserId → Bool
contains ids id = any (λ other. other == id) ids

unfoldable pub plan_open_target : BrowserTarget → BrowserTarget → List BrowserId → OpenPlan
plan_open_target target default_target installed_ids =
    if contains installed_ids target.browser
    then primary
    else if not (target.browser == default_target.browser)
        && contains installed_ids default_target.browser
    then default
    else ask

abbrev pub outcome_of :
    {Url : Type 0} → Result BrowserTarget String × Desk Url → LaunchOutcome × Desk Url
outcome_of (ok target, desk) = (launched target, desk)
outcome_of (err e, desk) = (failed e, desk)

module _ {Url : Type 0} (launcher : Launcher Url) where
  unfoldable pub open_target : BrowserTarget → Url → Desk Url → Result (Unit {0}) String × Desk Url
  open_target target url desk =
      (launcher desk.launches target url, record desk { launches = (target, url) ∷ desk.launches })

  -- The second attempt.
  unfoldable pub open_default :
      String → BrowserTarget → Url → Desk Url → Result BrowserTarget String × Desk Url
  open_default primary_err default_target url desk =
      let (r, desk') = open_target default_target url desk in
      elim r [
        | ok _ ↦ (ok default_target, desk')
        | err default_err ↦ (
          err (
              "primary launch failed ("
              ⧺ (primary_err ⧺ ("); default fallback also failed (" ⧺ (default_err ⧺ ")")))),
          desk',
        )
      ]

  unfoldable pub open_with_default_fallback :
      BrowserTarget → BrowserTarget → Url → Desk Url → Result BrowserTarget String × Desk Url
  open_with_default_fallback target default_target url desk =
      let (r, desk') = open_target target url desk in
      elim r [
        | ok _ ↦ (ok target, desk')
        | err primary_err ↦
            if target.browser == default_target.browser
            then (
              err (
                  "launch failed: "
                  ⧺ (primary_err
                      ⧺ (" (no fallback — primary already matches default browser '"
                          ⧺ (target.browser ⧺ "')")))),
              desk',
            )
            else open_default primary_err default_target url desk'
      ]

  unfoldable pub spawn_ask :
      List BrowserTarget → String → BrowserTarget → Desk Url → LaunchOutcome × Desk Url
  spawn_ask candidates raw_url default_target desk =
      (pending, record desk { asks = (candidates, raw_url, default_target) ∷ desk.asks })

  -- One attempt, then the picker.
  unfoldable pub open_or_ask :
      BrowserTarget → String → BrowserTarget → Url → Desk Url → LaunchOutcome × Desk Url
  open_or_ask target raw_url default_target url desk =
      let (r, desk') = open_target target url desk in
      elim r [ ok _ ↦ (launched target, desk') | err e ↦ spawn_ask [] raw_url default_target desk' ]

  -- The arm `Open` of `execute`.
  unfoldable pub execute_open :
      List BrowserId
      → BrowserTarget
      → String
      → BrowserTarget
      → Url
      → Desk Url
      → LaunchOutcome × Desk Url
  execute_open installed_ids target raw_url default_target url desk =
      elim (plan_open_target target default_target installed_ids) [
        | primary ↦
            if contains installed_ids default_target.browser
              || (target.browser == default_target.browser)
            then outcome_of (open_with_default_fallback target default_target url desk)
            else open_or_ask target raw_url default_target url desk
        | default ↦ open_or_ask default_target raw_url default_target url desk
        | ask ↦ spawn_ask [] raw_url default_target desk
      ]

  unfoldable pub execute_parsed :
      List BrowserId
      → RoutingDecision
      → String
      → BrowserTarget
      → Url
      → Desk Url
      → LaunchOutcome × Desk Url
  execute_parsed installed_ids (open_with target rule reason) raw_url default_target url desk =
      execute_open installed_ids target raw_url default_target url desk
  execute_parsed installed_ids (ask_among candidates reason) raw_url default_target url desk =
      spawn_ask candidates raw_url default_target desk
  execute_parsed installed_ids (allow reason) raw_url default_target url desk = (skipped, desk)
  execute_parsed installed_ids (blocked reason) raw_url default_target url desk = (skipped, desk)

  unfoldable pub execute :
      UrlCrate Url
      → Result (List InstalledBrowser) String
      → BrowserTarget
      → RoutingDecision
      → String
      → Desk Url
      → LaunchOutcome × Desk Url
  execute urls inventory default_target decision raw_url desk = elim (urls.parse raw_url) [
    | err e ↦ (failed ("bad URL " ⧺ (raw_url ⧺ (": " ⧺ e))), desk)
    | ok url ↦
        execute_parsed (installed_browser_ids inventory) decision raw_url default_target url desk
  ]
