-- ===== src/Core/Endpoint.antt =====
-- crates/core/src/endpoint.rs: where the daemon listens.
use link_pilot.Prelude.{String, Option, [], ◌∷◌, unwrap_or}
use link_pilot.Core.Files.{FilePath, join}

pub data Endpoint : Type 0 where
  unix_socket : FilePath → Endpoint
  named_pipe : String → Endpoint

-- `default_endpoint` on macOS; `home` is the variable `HOME`.
unfoldable pub default_endpoint : Option FilePath → Endpoint
default_endpoint home =
    let base = unwrap_or home ("tmp" ∷ []) in
    unix_socket
      (join (join (join (join base "Library") "Application Support") "LinkPilot") "linkpilot.sock")
