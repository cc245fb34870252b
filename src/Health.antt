-- ===== src/Health.antt =====
-- The health of the reader link (src/mvd_edge/health/state.py), and the reader's states of
-- src/mvd_edge/app.py.
pub mod Coherence
pub mod Threshold
use mvd_edge_agent.Prelude.{
  ℕ, ◌+◌, Bool, true, false, Option, none, some, List, [], ◌∷◌, leb, if◌then◌else◌, Text, codes,
}
use mvd_edge_agent.Host.{Host}
use mvd_edge_agent.Queue.{sanitize_error}

pub data ReaderState : Type 0 where
  disconnected connecting ready config_error : ReaderState

pub data ReaderHealthStatus : Type 0 where
  healthy degraded offline reconnecting : ReaderHealthStatus

pub record HealthState : Type 0 where
  pub reader_state : ReaderState
  pub last_reader_activity_at : Option Text
  pub last_event_at : Option Text
  pub last_cloud_delivery_at : Option Text
  pub last_error : Option Text
  pub last_error_at : Option Text
  pub reader_connected : Bool
  pub inventory_responding : Bool
  pub last_successful_inventory_at : Option Text
  pub last_tag_seen_at : Option Text
  pub last_epc_seen : Option Text
  pub consecutive_no_response_count : ℕ
  pub malformed_response_count : ℕ
  pub reconnect_count : ℕ
  pub last_reader_error : Option Text
  pub health_status : ReaderHealthStatus
  pub offline_failure_threshold : ℕ
  pub last_inventory_epcs : Option (List Text)

-- `HealthState(reader_state=…)`
abbrev pub create : ReaderState → HealthState
create state = record {
  reader_state = state;
  last_reader_activity_at = none;
  last_event_at = none;
  last_cloud_delivery_at = none;
  last_error = none;
  last_error_at = none;
  reader_connected = false;
  inventory_responding = false;
  last_successful_inventory_at = none;
  last_tag_seen_at = none;
  last_epc_seen = none;
  consecutive_no_response_count = 0;
  malformed_response_count = 0;
  reconnect_count = 0;
  last_reader_error = none;
  health_status = offline;
  offline_failure_threshold = 3;
  last_inventory_epcs = none;
}

-- `sanitize_error(error)` of this file cuts at 200 characters.
abbrev pub sanitized : Text → Text
sanitized error = sanitize_error 200 error

-- `tags[-1]` of a list that begins with `tag`.
abbrev pub last_of : Text → List Text → Text
last_of tag [] = tag
last_of tag (next ∷ tags) = last_of next tags

unfoldable pub set_reader_state : ReaderState → HealthState → HealthState
set_reader_state state s = record s { reader_state = state }

unfoldable pub mark_reader_connecting : HealthState → HealthState
mark_reader_connecting s = record s {
  reader_connected = false;
  inventory_responding = false;
  health_status = reconnecting;
}

unfoldable pub mark_reader_ready : HealthState → HealthState
mark_reader_ready s = record s {
  reader_connected = true;
  health_status = elim s.health_status [
    | offline ↦ degraded
    | reconnecting ↦ degraded
    | healthy ↦ healthy
    | degraded ↦ degraded
  ];
}

unfoldable pub mark_reconnect_attempt : HealthState → HealthState
unfolding mark_reader_connecting
mark_reconnect_attempt s =
    mark_reader_connecting (record s { reconnect_count = s.reconnect_count + 1 })

-- The fields that `mark_inventory_success` sets when tags were read.
abbrev pub with_tags : List Text → Text → HealthState → HealthState
with_tags [] now s = s
with_tags (tag ∷ tags) now s = record s {
  last_tag_seen_at = some now;
  last_epc_seen = some (last_of tag tags);
}

unfoldable pub mark_inventory_no_response : HealthState → HealthState
mark_inventory_no_response s =
    let count = s.consecutive_no_response_count + 1 in
    record s {
      reader_connected = true;
      inventory_responding = false;
      consecutive_no_response_count = count;
      last_reader_error = some (codes "NO_RESPONSE");
      health_status = if leb s.offline_failure_threshold count then offline else degraded;
    }

unfoldable pub mark_inventory_malformed : HealthState → HealthState
mark_inventory_malformed s = record s {
  reader_connected = true;
  inventory_responding = false;
  malformed_response_count = s.malformed_response_count + 1;
  last_reader_error = some (codes "MALFORMED");
  health_status = degraded;
}

unfoldable pub mark_reader_offline : Text → HealthState → HealthState
mark_reader_offline error s = record s {
  reader_connected = false;
  inventory_responding = false;
  last_reader_error = some (sanitized error);
  health_status = offline;
}

unfoldable pub clear_error : HealthState → HealthState
clear_error s = record s { last_error = none; last_error_at = none }

-- The methods that read the clock take its answer.
module _ (h : Host) where
  open h use {World, utc_timestamp}

  unfoldable pub mark_reader_activity : HealthState → World → HealthState × World
  mark_reader_activity s w =
      let (now, w') = utc_timestamp w in (record s { last_reader_activity_at = some now }, w')

  unfoldable pub mark_inventory_success : List Text → HealthState → World → HealthState × World
  mark_inventory_success tags s w =
      let (now, w') = utc_timestamp w in
      (
        with_tags tags now (record s {
          reader_connected = true;
          inventory_responding = true;
          last_reader_activity_at = some now;
          last_successful_inventory_at = some now;
          last_inventory_epcs = some tags;
          consecutive_no_response_count = 0;
          last_reader_error = none;
          health_status = healthy;
        }),
        w',
      )

  unfoldable pub mark_event : HealthState → World → HealthState × World
  mark_event s w = let (now, w') = utc_timestamp w in (record s { last_event_at = some now }, w')

  unfoldable pub mark_cloud_delivery : HealthState → World → HealthState × World
  mark_cloud_delivery s w =
      let (now, w') = utc_timestamp w in (record s { last_cloud_delivery_at = some now }, w')

  unfoldable pub mark_error : Text → HealthState → World → HealthState × World
  mark_error error s w =
      let (now, w') = utc_timestamp w in
      (record s { last_error = some (sanitized error); last_error_at = some now }, w')
