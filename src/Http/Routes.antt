-- ===== src/Http/Routes.antt =====
-- Which endpoint a request is for, tested in the order of the code.
use parimit.Common.{Bool, true, ◌&&◌, Option, none, some, [], ◌∷◌, ◌==◌, if◌then◌else◌}
use parimit.Text.{Text, lit, text_eq, is_empty}
use parimit.Result.{Result, ok, err, fail, invalid_path}
use parimit.Auth.Token.{strip_prefix}
use parimit.Http.{Platform, Request}

-- The endpoints that authenticate. The path segment of an observation is decoded later.
pub data Endpoint : Type 0 where
  show_identity create list simulate verify consume : Endpoint
  observe : Text → Endpoint
  read cancel approve issue read_audit verify_audit : Text → Endpoint

pub data Route : Type 0 where
  options safety jwks : Route
  endpoint : Endpoint → Route
  other : Route

pub data IntentAction : Type 0 where
  plain cancelling approvals audit audit_verify evidence_envelopes : IntentAction

-- `([^/]+)`, and what follows its slash where there is one.
unfoldable pub split_slash : Text → Text × Option Text
split_slash [] = ([], none)
split_slash (c ∷ s) =
    let (segment, rest) = split_slash s in if c == b'/' then ([], some s) else (c ∷ segment, rest)

unfoldable pub action_named : Option Text → Option IntentAction
action_named none = some plain
action_named (some t) =
    if text_eq t (lit "cancel")
    then some cancelling
    else if text_eq t (lit "approvals")
    then some approvals
    else if text_eq t (lit "audit")
    then some audit
    else if text_eq t (lit "audit/verify")
    then some audit_verify
    else if text_eq t (lit "evidence-envelopes")
    then some evidence_envelopes
    else none

abbrev segment_of : Text × Option Text → Option (Text × IntentAction)
segment_of (segment, rest) =
    if is_empty segment
    then none
    else elim (action_named rest) [ some action ↦ some (segment, action) | none ↦ none ]

-- The match of `parseIntentPath`, before the segment is decoded.
unfoldable pub match_intent_path : Text → Option (Text × IntentAction)
match_intent_path pathname = elim (strip_prefix (lit "/v1/intents/") pathname) [
  | some rest ↦ segment_of (split_slash rest)
  | none ↦ none
]

abbrev observed : Text × Option Text → Option Text
observed (segment, some rest) =
    if is_empty segment
    then none
    else if text_eq rest (lit "observations")
    then some segment
    else none
observed (segment, none) = none

-- `/^\/v1\/demo\/intents\/([^/]+)\/observations$/`
unfoldable pub match_observation : Text → Option Text
match_observation pathname = elim (strip_prefix (lit "/v1/demo/intents/") pathname) [
  | some rest ↦ observed (split_slash rest)
  | none ↦ none
]

-- `decodePathSegment`
unfoldable pub decode_path_segment : Platform → Text → Result Text
decode_path_segment http segment = elim (http.decode_uri_component segment) [
  | some t ↦ ok t
  | none ↦ fail invalid_path 400
]

-- `method` is GET or POST, or neither.
abbrev intent_route : Bool → Bool → Text → IntentAction → Route
intent_route true post id plain = endpoint (read id)
intent_route true post id audit = endpoint (read_audit id)
intent_route true post id audit_verify = endpoint (verify_audit id)
intent_route get true id cancelling = endpoint (cancel id)
intent_route get true id approvals = endpoint (approve id)
intent_route get true id evidence_envelopes = endpoint (issue id)
intent_route get post id action = other

abbrev decoded_route : Bool → Bool → IntentAction → Result Text → Result Route
decoded_route get post action (ok id) = ok (intent_route get post id action)
decoded_route get post action (err e) = err e

module _ (http : Platform) where
  abbrev intent_path_route : Bool → Bool → Option (Text × IntentAction) → Result Route
  intent_path_route get post none = ok other
  intent_path_route get post (some (segment, action)) =
      decoded_route get post action (decode_path_segment http segment)

  abbrev observation_route : Bool → Bool → Text → Option Text → Result Route
  observation_route get true pathname (some segment) = ok (endpoint (observe segment))
  observation_route get post pathname _ =
      if text_eq pathname (lit "/v1/evidence-envelopes/verify") && post
      then ok (endpoint verify)
      else if text_eq pathname (lit "/v1/evidence-envelopes/consume") && post
      then ok (endpoint consume)
      else intent_path_route get post (match_intent_path pathname)

  -- The path of a proposal is decoded before its method is looked at.
  unfoldable pub route : Request → Result Route
  route r =
      let get = text_eq r.method (lit "GET") in
      let post = text_eq r.method (lit "POST") in
      let at = text_eq r.pathname in
      if text_eq r.method (lit "OPTIONS")
      then ok options
      else if get && at (lit "/v1/safety")
      then ok safety
      else if get && at (lit "/.well-known/jwks.json")
      then ok jwks
      else if get && at (lit "/v1/identity")
      then ok (endpoint show_identity)
      else if at (lit "/v1/intents") && post
      then ok (endpoint create)
      else if at (lit "/v1/intents") && get
      then ok (endpoint list)
      else if at (lit "/v1/intents/simulate") && post
      then ok (endpoint simulate)
      else observation_route get post r.pathname (match_observation r.pathname)
