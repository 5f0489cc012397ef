-- ===== src/Http.antt =====
-- src/http.ts: the HTTP interface. It authenticates a request, checks the role, and calls the service.
pub mod Routes
pub mod Body
pub mod Query
pub mod Endpoints
pub mod Handler
pub mod Performs
pub mod Permissions
pub mod Access
pub mod Runs
pub mod Isolation
pub mod Providers
pub mod Server
pub mod Started
use parimit.Common.{ℕ, Bool, List, Option}
use parimit.Text.{Text}
use parimit.Types.{AuthenticationMode, PolicyDecision}
use parimit.Result.{ErrorCode}
use parimit.Database.{AuditRow}
use parimit.Exec.{Step}
use parimit.Envelope.Base64.{Bytes}
use parimit.Service.Integrity.Failures.{Report}
use parimit.Service.Methods.Read.{IntentView}
use parimit.Service.Envelopes.{EnvelopeView}
use parimit.Service.Envelopes.Verify.{Verification}
use parimit.Auth.{AuthenticatedActor, Headers}

-- `IdentityProvider`; `S` is the state that an implementation keeps.
pub record IdentityProvider (S : Type 0) : Type 0 where
  pub authentication_method : AuthenticationMode
  pub identity_trust_domain_id : Text
  pub authenticate : Headers → Step S AuthenticatedActor

-- What the module takes from outside: `decodeURIComponent`, `none` where it throws; `Number`, `none`
-- where it gives no natural number; `toString("utf8")` of a buffer; and whether `publicDirectory`, where
-- there is one, holds a file for a decoded path.
pub record Platform : Type 0 where
  pub decode_uri_component : Text → Option Text
  pub to_number : Text → Option ℕ
  pub to_text : Bytes → Text
  pub public_file : Option (Text → Bool)

-- A request, its URL parsed; the body comes in chunks.
pub record Request : Type 0 where
  pub method : Text
  pub pathname : Text
  pub status : Option Text
  pub limit : Option Text
  pub agent_id : Option Text
  pub headers : Headers
  pub body : List Bytes

pub data Payload : Type 0 where
  no_content safety_metadata envelope_jwks static_file route_not_found : Payload
  identity : AuthenticatedActor → Payload
  intent : IntentView → Payload
  intents : List IntentView → Payload
  policy : PolicyDecision → Payload
  audit : List AuditRow → Payload
  report : Report → Payload
  envelope : EnvelopeView → Payload
  verification : Verification → Payload
  failure : ErrorCode → Payload

-- `warned` says that the response carries `DEMO_AUTH_WARNING`.
pub record Response : Type 0 where
  pub status : ℕ
  pub payload : Payload
  pub warned : Bool
