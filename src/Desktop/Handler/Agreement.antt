-- ===== src/Desktop/Handler/Agreement.antt =====
-- A URL takes the same way through the app from the front end, from the daemon's socket and from the
-- system (apps/desktop/src-tauri/src/ipc_host.rs, url_handler.rs and commands/mod.rs).
use link_pilot.Prelude.{ℕ, Bool, ◌∷◌}
use link_pilot.Core.Config.{ConfigDocument}
use link_pilot.Core.Routing.Context.{RoutingContext, RoutingDecision}
use link_pilot.Core.Routing.Evaluate.{evaluate_explained_with_ask_shortcut}
use link_pilot.Core.History.{with_explanation, log}
use link_pilot.Desktop.Commands.Base.{Shell, Command}
use link_pilot.Desktop.Commands.Calls.{dispatch}

module _ {Url Value : Type 0} (shell : Shell Url Value) where
  -- What should become of a context, with the shortcut held or not: it is evaluated on the document of
  -- the app, one record of the decision goes into the history and to the front end, and the decision is
  -- carried out.
  abbrev pub routed : ℕ → RoutingContext → (ConfigDocument → Bool) → Command Url RoutingDecision
  routed now context pressed app =
      let doc = app.config.state.doc in
      let explained = evaluate_explained_with_ask_shortcut shell.urls doc context (pressed doc) in
      let entry = with_explanation now context explained.decision explained.explanation in
      dispatch shell explained.decision context.url
        (record app { history = log entry app.history; emitted = entry ∷ app.emitted })
