-- ===== src/Cloud.antt =====
-- The transport to the cloud (src/mvd_edge/transport/cloud.py).
pub mod Answers
use mvd_edge_agent.Prelude.{
  ℕ, zero, suc, ◌+◌, ◌/◌, ◌%◌, Bool, true, false, not, ◌||◌, Option, none, some, List, [], ◌∷◌,
  ◌++◌, ◌==◌, if◌then◌else◌, Text, codes, text_eq,
}
use mvd_edge_agent.Outcome.{Outcome, ok, raised, Error, request_error, other_error, ◌>>=◌}
use mvd_edge_agent.Json.{
  Json, null, boolean, number, string, array, object, nil, cons, end, field, Fields, field_of,
}
use mvd_edge_agent.Host.{Host, Response}
use mvd_edge_agent.Payload.{EventPayload, to_json}

pub record DeliveryResult : Type 0 where
  pub success : Bool
  pub duplicate : Bool
  pub status : Json
  pub event_id : Json
  pub error : Option Text

pub record CloudTransport : Type 0 where
  pub api_url : Text
  pub api_key : Option Text
  pub heartbeat_url : Option Text
  pub timeout_seconds : ℕ

-- Decimal digits, the last one first found.
decimal_onto : ℕ → ℕ → Text → Text
decimal_onto zero n tail = tail
decimal_onto (suc fuel) n tail =
    let digit = n % 10 + 48 in
    let rest = decimal_onto fuel (n / 10) (digit ∷ tail) in
    if n / 10 == 0 then digit ∷ tail else rest

unfoldable pub decimal : ℕ → Text
unfolding decimal_onto
decimal n = decimal_onto (n + 1) n []

-- `status in ("stored", "already_stored")` and the like.
abbrev pub is_text : Text → Json → Bool
is_text t (string s) = text_eq s t
is_text t _ = false

-- `bool(value)` of a JSON value.
abbrev pub is_truthy : Json → Bool
is_truthy null = false
is_truthy (boolean b) = b
is_truthy (number n) = not (n == 0)
is_truthy (string []) = false
is_truthy (string (c ∷ t)) = true
is_truthy (array nil) = false
is_truthy (array (cons x xs)) = true
is_truthy (object end) = false
is_truthy (object (field k v rest)) = true

abbrev pub failure : Text → DeliveryResult
failure error = record {
  success = false;
  duplicate = false;
  status = null;
  event_id = null;
  error = some error;
}

-- The name of the Python type of a decoded value; a number of the model is an `int`.
abbrev pub type_name : Json → Text
type_name null = codes "NoneType"
type_name (boolean b) = codes "bool"
type_name (number n) = codes "int"
type_name (string s) = codes "str"
type_name (array items) = codes "list"
type_name (object fields) = codes "dict"

abbrev pub attribute_error : Json → Error
attribute_error value =
    other_error (codes "'" ++ (type_name value ++ codes "' object has no attribute 'get'"))

-- `result.get` is there for an object alone.
unfoldable pub as_object : Json → Outcome Fields
as_object (object fields) = ok fields
as_object null = raised (attribute_error null)
as_object (boolean b) = raised (attribute_error (boolean b))
as_object (number n) = raised (attribute_error (number n))
as_object (string s) = raised (attribute_error (string s))
as_object (array items) = raised (attribute_error (array items))

-- The key's header, if a key is set and is not empty.
abbrev pub headers_of : Option Text → List (Text × Text)
headers_of none = []
headers_of (some []) = []
headers_of (some (c ∷ key)) = (codes "x-rfid-ingest-api-key", c ∷ key) ∷ []

abbrev pub http_error : Response → Text
http_error response =
    codes "HTTP " ++ (decimal response.status_code ++ (codes ": " ++ response.text))

-- `except requests.RequestException`: the other classes go on to the caller.
abbrev pub catch_request_error : Outcome DeliveryResult → Outcome DeliveryResult
catch_request_error (ok result) = ok result
catch_request_error (raised (request_error error)) = ok (failure error)
catch_request_error (raised e) = raised e

-- The agent posts through the host; `str_of` is Python's `str` of a JSON value.
module _ (h : Host) where
  open h use {World, post, str_of}

  -- What an answer with status 201 says.
  pub read_stored : Fields → DeliveryResult
  read_stored fields =
      let status = field_of (codes "status") fields in
      let already = is_text (codes "already_stored") status in
      if is_text (codes "stored") status || already
      then record {
        success = true;
        duplicate = is_truthy (field_of (codes "duplicate") fields) || already;
        status = status;
        event_id = field_of (codes "event_id") fields;
        error = none;
      }
      else record {
        success = false;
        duplicate = false;
        status = status;
        event_id = null;
        error = some (codes "Unexpected API status: " ++ str_of status);
      }

  unfoldable pub read_answer : Response → Outcome DeliveryResult
  unfolding read_stored
  read_answer response =
      if not (response.status_code == 201)
      then ok (failure (http_error response))
      else do result ← response.json; fields ← as_object result; ok (read_stored fields)

  unfoldable pub send_payload :
      CloudTransport → EventPayload → World → Outcome DeliveryResult × World
  unfolding read_answer
  send_payload transport event w =
      let (answer, w') =
        post transport.api_url (headers_of transport.api_key) (to_json event)
          transport.timeout_seconds w in
      (catch_request_error (answer >>= read_answer), w')

  unfoldable pub read_heartbeat : Response → Outcome DeliveryResult
  read_heartbeat response =
      if not (response.status_code == 200) then ok (failure (http_error response)) else do
        result ← response.json
        fields ← as_object result
        let status = field_of (codes "status") fields
        let is_ok = is_text (codes "ok") status
        ok (record {
          success = is_ok;
          duplicate = false;
          status = status;
          event_id = null;
          error = if is_ok then none else some (codes "Heartbeat failed");
        })

  unfoldable pub send_heartbeat :
      CloudTransport → List (Text × Json) → World → Outcome DeliveryResult × World
  unfolding read_heartbeat
  send_heartbeat transport heartbeat w = elim transport.heartbeat_url [
    | none ↦ (ok (failure (codes "Heartbeat URL is not configured")), w)
    | some [] ↦ (ok (failure (codes "Heartbeat URL is not configured")), w)
    | some (c ∷ url) ↦
        let (answer, w') =
          post (c ∷ url) (headers_of transport.api_key) heartbeat transport.timeout_seconds w in
        (catch_request_error (answer >>= read_heartbeat), w')
  ]
