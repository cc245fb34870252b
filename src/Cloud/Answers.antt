-- ===== src/Cloud/Answers.antt =====
-- Which answers of the cloud count as a delivery (src/mvd_edge/transport/cloud.py).
use mathlib.Core.Path.{subst}
use mvd_edge_agent.Prelude.{
  ◌≡◌, sym, ◌⊎◌, ◌↔◌, inl, inr, refl, Bool, true, false, ◌&&◌, ◌||◌, Option, none, some, arith,
  Option-cases, codes, ◌==◌,
}
use mvd_edge_agent.Outcome.{
  Outcome, ok, raised, Error, request_error, value_error, runtime_error, process_error, other_error,
  ◌>>=◌,
}
use mvd_edge_agent.Json.{Json, null, boolean, number, string, array, object, Fields, field_of}
use mvd_edge_agent.Host.{Host, Response}
use mvd_edge_agent.Payload.{EventPayload, to_json}
use mvd_edge_agent.Cloud.{
  DeliveryResult, CloudTransport, is_text, as_object, headers_of, catch_request_error, read_answer,
  send_payload,
}

-- An answer that says that the event is stored: status 201, and an object whose status is `stored`
-- or `already_stored`.
pub record IsStored (answer : Outcome Response) : Type 0 where
  pub response : Response
  pub arrived : answer ≡ ok response
  pub created : response.status_code ≡ 201
  pub fields : Fields
  pub parsed : response.json ≡ ok (object fields)
  pub stored :
      (is_text (codes "stored") (field_of (codes "status") fields) ≡ true)
      ⊎ (is_text (codes "already_stored") (field_of (codes "status") fields) ≡ true)

-- Whether a call returned a result that counts as a delivery.
abbrev pub delivers : Outcome DeliveryResult → Bool
delivers (ok result) = result.success
delivers (raised e) = false

-- The object in the answer, if there is one.
abbrev fields_of : Response → Option Fields
fields_of response = elim response.json [
  | ok json ↦ elim json [ object fields ↦ some fields | _ ↦ none ]
  | raised e ↦ none
]

fields_of-eq_some :
    (response : Response) (fields : Fields)
    → fields_of response ≡ some fields
    → response.json ≡ ok (object fields)
fields_of-eq_some response fields e = go response.json e
  where
    go :
        (json : Outcome Json)
        → (elim json [
          | ok value ↦ elim value [ object found ↦ some found | _ ↦ none ]
          | raised error ↦ none
        ])
          ≡ some fields
        → json ≡ ok (object fields)
    go (ok (object found)) e = cc
    go (ok null) e = cc
    go (ok (boolean b)) e = cc
    go (ok (number n)) e = cc
    go (ok (string t)) e = cc
    go (ok (array xs)) e = cc
    go (raised error) e = cc

module _ (h : Host) where
  open h use {World, post}

  read_answer-none :
      (response : Response)
      → fields_of response ≡ none
      → delivers (catch_request_error (read_answer h response)) ≡ false
  unfolding read_answer as_object
  read_answer-none response e = ground arith

  read_answer-some :
      (response : Response) (fields : Fields)
      → response.json ≡ ok (object fields)
      → delivers (catch_request_error (read_answer h response)) ≡ (
          response.status_code == 201
          && (is_text (codes "stored") (field_of (codes "status") fields)
              || is_text (codes "already_stored") (field_of (codes "status") fields)))
  unfolding read_answer as_object
  read_answer-some response fields e = rw (e, read_answer) (ground arith)

  catch_raised : (e : Error) → delivers (catch_request_error (raised e >>= read_answer h)) ≡ false
  catch_raised (request_error t) = refl
  catch_raised (value_error t) = refl
  catch_raised (runtime_error t) = refl
  catch_raised (process_error t) = refl
  catch_raised (other_error t) = refl

  IsStored-of_delivers :
      (answer : Outcome Response)
      → delivers (catch_request_error (answer >>= read_answer h)) ≡ true
      → IsStored answer
  IsStored-of_delivers (raised e) d = cc (catch_raised e)
  IsStored-of_delivers (ok response) d = elim (Option-cases (fields_of response)) [
    | inl missing ↦ cc (read_answer-none response missing)
    | inr (fields, found) ↦
        let parsed = fields_of-eq_some response fields found in
        let test = read_answer-some response fields parsed in
        record {
          response = response;
          arrived = refl;
          created = ground (arith, test);
          fields = fields;
          parsed = parsed;
          stored = ground (arith, test);
        }
  ]

  delivers_of_stored :
      (answer : Outcome Response)
      → IsStored answer
      → delivers (catch_request_error (answer >>= read_answer h)) ≡ true
  delivers_of_stored answer s =
      subst (λ a. delivers (catch_request_error (a >>= read_answer h)) ≡ true) (sym s.arrived)
        (ground (arith, read_answer-some s.response s.fields s.parsed, s.created, s.stored))

  -- A payload counts as delivered exactly if the answer to its POST says that it is stored: status
  -- 201 and an object whose status is `stored` or `already_stored`. Any other answer, and any
  -- exception of the request or of its reading, is no delivery.
  pub delivers-send_payload_iff :
      (transport : CloudTransport) (event : EventPayload) (w : World)
      → (delivers (send_payload h transport event w).0 ≡ true)
        ↔ IsStored
            (post transport.api_url
              (headers_of transport.api_key)
              (to_json event)
              transport.timeout_seconds
              w).0
  unfolding send_payload
  delivers-send_payload_iff transport event w = (IsStored-of_delivers _, delivers_of_stored _)
