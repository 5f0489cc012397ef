-- ===== src/Http/Server.antt =====
-- src/server.ts, `startServer`: the identity provider and the service of one environment, up to the
-- listening. The port is refused by an `Error`.
use parimit.Common.{ℕ, not, Option, none, some, leb, if◌then◌else◌}
use parimit.Text.{lit, text_eq}
use parimit.Result.{Result, ok, fail, fail_if, ◌>>=◌, ◌>>◌, internal_error}
use parimit.Service.Configuration.{or_default}
use parimit.Service.Configuration.Options.{Host, Settings}
use parimit.Service.Configuration.Environment.{Environment, create_service_from_environment}
use parimit.Auth.Options.{Dependencies, IdentityProvider, context_of}
use parimit.Auth.Environment.{create_identity_provider_from_environment}

unfoldable pub effective_environment : Environment → Environment
effective_environment environment name =
    if text_eq name (lit "PARIMIT_AUTH_MODE")
    then some (or_default (environment name) (lit "demo_headers"))
    else if text_eq name (lit "PARIMIT_DEMO_MODE")
    then some (or_default (environment name) (lit "true"))
    else environment name

abbrev pub require_port_number : Option ℕ → Result ℕ
require_port_number none = fail internal_error 500
require_port_number (some port) = do fail_if (not (leb port 65535)) internal_error 500; ok port

unfoldable pub require_port : Host → Environment → Result ℕ
require_port host environment =
    require_port_number
      (host.to_number (or_default (environment (lit "PARIMIT_PORT")) (lit "8787")))

pub record Server : Type 0 where
  pub identity_provider : IdentityProvider
  pub service : Settings
  pub port : ℕ

unfoldable pub start_server : Host → Dependencies → Environment → Result Server
start_server host given environment = do
  let effective = effective_environment environment
  provider ← create_identity_provider_from_environment host given effective
  service ← create_service_from_environment host effective (some (context_of provider))
  port ← require_port host effective
  ok (record { identity_provider = provider; service = service; port = port })
