-- ===== src/Core/Protocol.antt =====
-- crates/core/src/protocol.rs: the messages between the daemon and its clients.
use link_pilot.Prelude.{ℕ, String, Bool, Option, List}
use link_pilot.Core.Config.{ConfigDocument, WriterId}
use link_pilot.Core.History.{RouteRecord}
use link_pilot.Core.Routing.Context.{RoutingContext, RoutingDecision}

abbrev pub protocol_version : ℕ
protocol_version = 2

abbrev pub error_unknown_verb : String
error_unknown_verb = "unknown-verb"

pub record DoctorReport : Type 0 where
  pub daemon_version : String
  pub is_default_browser : Bool
  pub config_path : Option String
  pub installed_browser_count : ℕ
  pub ipc_socket_path : Option String

pub data Request : Type 0 where
  route_evaluate route_open : (request_id : String) (context : RoutingContext) → Request
  config_get doctor state_ping : (request_id : String) → Request
  config_replace : (request_id : String) (doc : ConfigDocument) (writer : WriterId) → Request
  route_history : (request_id : String) (limit : Option ℕ) → Request

pub data Response : Type 0 where
  route_decision : (request_id : String) (decision : RoutingDecision) → Response
  config_snapshot : (request_id : String) (doc : ConfigDocument) → Response
  doctor_report : (request_id : String) (report : DoctorReport) → Response
  ack : (request_id : String) → Response
  pong : (request_id : String) (daemon_version : String) → Response
  error : (request_id code message : String) → Response
  route_history_snapshot : (request_id : String) (records : List RouteRecord) → Response

-- The identifier that a message carries.
unfoldable pub request_id : Request → String
request_id (Request.route_evaluate id _) = id
request_id (Request.route_open id _) = id
request_id (Request.config_get id) = id
request_id (Request.doctor id) = id
request_id (Request.state_ping id) = id
request_id (Request.config_replace id _ _) = id
request_id (Request.route_history id _) = id

unfoldable pub response_id : Response → String
response_id (Response.route_decision id _) = id
response_id (Response.config_snapshot id _) = id
response_id (Response.doctor_report id _) = id
response_id (Response.ack id) = id
response_id (Response.pong id _) = id
response_id (Response.error id _ _) = id
response_id (Response.route_history_snapshot id _) = id
