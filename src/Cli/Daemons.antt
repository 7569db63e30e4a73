-- ===== src/Cli/Daemons.antt =====
-- How `lpt` (crates/cli/src/main.rs) asks the daemon, and what it does without one. The
-- call `client::send` on the default endpoint is a parameter here; Ipc.Client models it.
use link_pilot.Prelude.{
  ℕ, String, Bool, false, not, ◌&&◌, Option, none, some, List, [], ◌∷◌, Result, ok, err, ◌>>=◌,
  map_err, if◌then◌else◌, is_some, ◌⧺◌, ◌==◌,
}
use link_pilot.Prelude.Anyhow.{Anyhow, anyhow}
use link_pilot.Core.Browser.{BrowserTarget}
use link_pilot.Core.Config.{ConfigDocument}
use link_pilot.Core.Files.{FilePath}
use link_pilot.Core.History.{RouteRecord}
use link_pilot.Core.Protocol.{Request, Response, DoctorReport, error_unknown_verb}
use link_pilot.Core.Routing.Context.{
  UrlCrate, RoutingContext, SourceKind, RoutingDecision, open_with, allow, ask_among, blocked,
}
use link_pilot.Core.Routing.Evaluate.{evaluate}
use link_pilot.Core.Store.Stores.{World}
use link_pilot.Ipc.Transport.{closed, serde}
use link_pilot.Ipc.Client.{ClientError}
use link_pilot.Cli.Stores.{Env, Fresh, Run, store_path, load_store}
pub mod Routed

pub data IpcError : Type 0 where
  offline : IpcError
  other : String → IpcError

pub data HistoryError : Type 0 where
  offline unknown_verb : HistoryError
  other : String → HistoryError

-- The daemon, the displayed form of its errors and replies, the crate `url`, the launcher of the
-- platform, and a fresh request identifier.
pub record Remote (Url : Type 0) : Type 0 where
  pub send : Request → Result Response ClientError
  pub show_error : ClientError → String
  pub show_response : Response → String
  pub urls : UrlCrate Url
  pub open_url : BrowserTarget → Url → Result (Unit {0}) String
  pub request_id : String

unfoldable pub build_context :
    String
    → (from_app from_app_bundle_id from_browser from_profile : Option String) → RoutingContext
build_context url from_app from_app_bundle_id from_browser from_profile = record {
  url = url;
  source = record {
    kind = if is_some from_browser then SourceKind.browser_extension else SourceKind.cli;
    app_name = from_app;
    bundle_id = from_app_bundle_id;
    browser = from_browser;
    profile = from_profile;
  };
  navigation = none;
  environment = none;
}

-- The configuration, and what was printed and launched, the last one first.
pub record Session (Url : Type 0) : Type 0 where
  pub world : World
  pub printed : List RoutingDecision
  pub launches : List (BrowserTarget × Url)

-- The document of a store that was loaded.
abbrev loaded_document : Result Bool Anyhow × World → Result ConfigDocument Anyhow × World
loaded_document (ok created, w) = (ok w.state.doc, w)
loaded_document (err e, w) = (err e, w)

module _ {Url : Type 0} (remote : Remote Url) where
  unfoldable pub classify_ipc_error : ClientError → IpcError
  classify_ipc_error (ClientError.offline m) = IpcError.offline
  classify_ipc_error ClientError.timeout = IpcError.offline
  classify_ipc_error e = IpcError.other (remote.show_error e)

  abbrev unexpected : Response → IpcError
  unexpected (Response.error id code message) = IpcError.other (code ⧺ (": " ⧺ message))
  unexpected r = IpcError.other ("unexpected response: " ⧺ remote.show_response r)

  abbrev decision_in : Response → Result RoutingDecision IpcError
  decision_in (Response.route_decision id decision) = ok decision
  decision_in r = err (unexpected r)

  abbrev report_in : Response → Result DoctorReport IpcError
  report_in (Response.doctor_report id report) = ok report
  report_in r = err (unexpected r)

  abbrev document_in : Response → Result ConfigDocument IpcError
  document_in (Response.config_snapshot id doc) = ok doc
  document_in r = err (unexpected r)

  unfoldable pub try_daemon_route_open : RoutingContext → Result RoutingDecision IpcError
  try_daemon_route_open context = do
    response ←
        map_err classify_ipc_error (remote.send (Request.route_open remote.request_id context))
    decision_in response

  unfoldable pub try_daemon_doctor : Result DoctorReport IpcError
  try_daemon_doctor = do
    response ← map_err classify_ipc_error (remote.send (Request.doctor remote.request_id))
    report_in response

  unfoldable pub try_daemon_config_get : Result ConfigDocument IpcError
  try_daemon_config_get = do
    response ← map_err classify_ipc_error (remote.send (Request.config_get remote.request_id))
    document_in response

  unfoldable pub history_error : ClientError → HistoryError
  history_error (ClientError.offline m) = HistoryError.offline
  history_error ClientError.timeout = HistoryError.offline
  history_error (ClientError.transport closed) = HistoryError.unknown_verb
  history_error (ClientError.transport (serde m)) = HistoryError.unknown_verb
  history_error e = HistoryError.other (remote.show_error e)

  abbrev records_in : Response → Result (List RouteRecord) HistoryError
  records_in (Response.route_history_snapshot id records) = ok records
  records_in (Response.error id code message) =
      if code == error_unknown_verb
      then err HistoryError.unknown_verb
      else err (HistoryError.other (code ⧺ (": " ⧺ message)))
  records_in r = err (HistoryError.other ("unexpected response: " ⧺ remote.show_response r))

  unfoldable pub try_daemon_route_history : ℕ → Result (List RouteRecord) HistoryError
  try_daemon_route_history limit = do
    response ←
        map_err history_error (remote.send (Request.route_history remote.request_id (some limit)))
    records_in response

  -- `print_decision`
  abbrev print : RoutingDecision → Session Url → Session Url
  print decision s = record s { printed = decision ∷ s.printed }

  -- The `match` on the decision in `run_open`.
  unfoldable pub carry_out_local :
      String → RoutingDecision → Session Url → Result (Unit {0}) Anyhow × Session Url
  carry_out_local url (open_with target rule reason) s = elim (remote.urls.parse url) [
    | err e ↦ (err (("parsing URL " ⧺ url) ∷ e ∷ []), s)
    | ok parsed ↦ (
      map_err (λ e. anyhow ("launcher: " ⧺ e)) (remote.open_url target parsed),
      record s { launches = (target, parsed) ∷ s.launches },
    )
  ]
  carry_out_local url (allow reason) s = (ok tt, s)
  carry_out_local url (ask_among candidates reason) s =
      (err (anyhow "'ask' is not handled in headless CLI mode"), s)
  carry_out_local url (blocked reason) s = (err (anyhow ("blocked: " ⧺ reason)), s)

  module _ {Value : Type 0} (env : Env Value) (fresh : Fresh) (path : FilePath) where
    -- What follows the load of the configuration.
    unfoldable pub decide_local :
        RoutingContext
        → Bool
        → Result Bool Anyhow × World
        → Session Url
        → Result (Unit {0}) Anyhow × Session Url
    decide_local context dry_run (err e, w) s = (err e, record s { world = w })
    decide_local context dry_run (ok created, w) s =
        let decision = evaluate remote.urls w.state.doc context in
        let s' = print decision (record s { world = w }) in
        if dry_run then (ok tt, s') else carry_out_local context.url decision s'

    unfoldable pub open_local :
        RoutingContext → Bool → Session Url → Result (Unit {0}) Anyhow × Session Url
    open_local context dry_run s =
        decide_local context dry_run (load_store env fresh path s.world) s

    -- What follows the daemon's answer.
    unfoldable pub answered :
        RoutingContext
        → Result RoutingDecision IpcError
        → Session Url
        → Result (Unit {0}) Anyhow × Session Url
    answered context (ok decision) s = (ok tt, print decision s)
    answered context (err IpcError.offline) s = open_local context false s
    answered context (err (IpcError.other m)) s = (err (anyhow ("daemon: " ⧺ m)), s)

    -- `run_open`, with the context built and the path of the configuration at hand.
    unfoldable pub run_open :
        (local_only dry_run : Bool)
        → RoutingContext
        → Session Url
        → Result (Unit {0}) Anyhow × Session Url
    run_open local_only dry_run context s =
        if not local_only && not dry_run
        then answered context (try_daemon_route_open context) s
        else open_local context dry_run s

    -- `read_doc`
    unfoldable pub read_doc : Bool → Run ConfigDocument
    read_doc local_only w =
        let loaded = loaded_document (load_store env fresh path w) in
        if local_only then loaded else elim try_daemon_config_get [
          | ok doc ↦ (ok doc, w)
          | err e ↦ elim e [
            | IpcError.offline ↦ loaded
            | IpcError.other m ↦ (err (anyhow ("daemon: " ⧺ m)), w)
          ]
        ]
