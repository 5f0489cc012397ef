-- ===== src/Examples/Access.antt =====
-- Requests of the local demo.
use parimit.Common.{◌≡◌, refl, none, some, [], ◌∷◌}
use Prim.Native.String.{String}
use parimit.Text.{lit, text_eq}
use parimit.Auth.Token.{strip_prefix}
use parimit.Result.{ok}
use parimit.Exec.{World}
use parimit.Auth.{Headers, single}
use parimit.Http.{Platform, Request}
use parimit.Http.Routes.{
  endpoint, other, show_identity, create, list, simulate, verify, consume, observe, read, cancel,
  approve, issue, read_audit, verify_audit, split_slash, action_named, match_intent_path,
  match_observation, decode_path_segment, route,
}
use parimit.Http.Handler.{handle, handle_all}
use parimit.Http.Providers.{demo_provider}
use parimit.Http.Runs.{Outcome, handle-Authorized}
use parimit.Examples.{sample_service, start}

abbrev pub sample_http : Platform
sample_http = record {
  decode_uri_component = some;
  to_number = λ t. none;
  to_text = λ b. b;
  public_file = none;
}

abbrev headers : Headers
headers =
    (lit "x-parimit-actor", single (lit "agent-1"))
    ∷ (lit "x-parimit-role", single (lit "agent"))
    ∷ []

abbrev pub read_request : Request
read_request = record {
  method = lit "GET";
  pathname = lit "/v1/intents/0";
  status = none;
  limit = none;
  agent_id = none;
  headers = headers;
  body = [];
}

abbrev list_request : Request
list_request = record read_request { pathname = lit "/v1/intents" }

abbrev handled : World × Unit {0}
handled =
    handle_all sample_service demo_provider sample_http (list_request ∷ read_request ∷ []) start tt

handle-Authorized_example :
    Outcome sample_service demo_provider sample_http read_request start tt
      (handle sample_service demo_provider sample_http read_request start tt)
handle-Authorized_example =
    handle-Authorized sample_service demo_provider sample_http read_request start tt

abbrev at_path : String → String → Request
at_path method pathname = record read_request { method = lit method; pathname = lit pathname }

-- Every endpoint has its route, and no other method reaches it.
routes_reach :
    (route sample_http (at_path "GET" "/v1/identity") ≡ ok (endpoint show_identity))
    × (route sample_http (at_path "POST" "/v1/intents") ≡ ok (endpoint create))
    × (route sample_http (at_path "GET" "/v1/intents") ≡ ok (endpoint list))
    × (route sample_http (at_path "POST" "/v1/intents/simulate") ≡ ok (endpoint simulate))
    × (route sample_http (at_path "POST" "/v1/demo/intents/7/observations")
        ≡ ok (endpoint (observe (lit "7"))))
    × (route sample_http (at_path "POST" "/v1/evidence-envelopes/verify") ≡ ok (endpoint verify))
    × (route sample_http (at_path "POST" "/v1/evidence-envelopes/consume") ≡ ok (endpoint consume))
    × (route sample_http (at_path "GET" "/v1/evidence-envelopes/consume") ≡ ok other)
    × (route sample_http (at_path "GET" "/v1/intents/7") ≡ ok (endpoint (read (lit "7"))))
    × (route sample_http (at_path "POST" "/v1/intents/7/cancel") ≡ ok (endpoint (cancel (lit "7"))))
    × (route sample_http (at_path "POST" "/v1/intents/7/approvals")
        ≡ ok (endpoint (approve (lit "7"))))
    × (route sample_http (at_path "POST" "/v1/intents/7/evidence-envelopes")
        ≡ ok (endpoint (issue (lit "7"))))
    × (route sample_http (at_path "GET" "/v1/intents/7/audit")
        ≡ ok (endpoint (read_audit (lit "7"))))
    × (route sample_http (at_path "GET" "/v1/intents/7/audit/verify")
        ≡ ok (endpoint (verify_audit (lit "7"))))
unfolding route lit text_eq strip_prefix split_slash action_named match_intent_path
    match_observation decode_path_segment
routes_reach = (refl, refl, refl, refl, refl, refl, refl, refl, refl, refl, refl, refl, refl, refl)
