-- ===== src/Presence.antt =====
-- Which tags are in the field (src/mvd_edge/event_engine/state.py).
pub mod Keys
pub mod Marking
pub mod Expiry
pub mod Update
pub mod Alternation
use mvd_edge_agent.Prelude.{
  ℕ, ◌+◌, Bool, true, false, not, ◌&&◌, Option, none, some, List, [], ◌∷◌, ◌++◌, leb, ◌==◌,
  if◌then◌else◌, Text,
}
use mvd_edge_agent.Dict.{Dict, contains, put, remove}
use mvd_edge_agent.Host.{Host}

pub data EventType : Type 0 where
  enter exit : EventType

pub record DetectedEvent : Type 0 where
  pub edge_event_id : Text
  pub event_type : EventType
  pub epc : Text
  pub edge_event_at : Text
  pub reader_id : Option Text

-- `visible_tags` holds the time at which each key was last seen.
pub record PresenceState : Type 0 where
  pub exit_timeout : ℕ
  pub visible_tags : Dict ℕ

abbrev pub create : ℕ → PresenceState
create timeout = record { exit_timeout = timeout; visible_tags = [] }

unfoldable pub starts_with : Text → Text → Bool
starts_with [] t = true
starts_with (a ∷ s) [] = false
starts_with (a ∷ s) (b ∷ t) = a == b && starts_with s t

-- `_tag_key`: the reader's name, a NUL and the tag.
unfoldable pub tag_key : Text → Option Text → Text
tag_key epc none = epc
tag_key epc (some reader) = reader ++ 0 ∷ epc

-- What stands behind the first NUL.
pub after_nul : Text → Option Text
after_nul [] = none
after_nul (c ∷ t) = if c == 0 then some t else after_nul t

-- `_epc_from_key`
unfoldable pub epc_from_key : Text → Text
unfolding after_nul
epc_from_key key = elim (after_nul key) [ none ↦ key | some rest ↦ rest ]

-- The test that leaves other readers' keys alone.
abbrev pub is_skipped : Option Text → Text → Bool
is_skipped none key = false
is_skipped (some reader) key = not (starts_with (reader ++ 0 ∷ []) key)

-- The loop that deletes the expired keys.
unfoldable pub remove_all : List Text → Dict ℕ → Dict ℕ
remove_all [] visible = visible
remove_all (key ∷ keys) visible = remove_all keys (remove key visible)

module _ (h : Host) where
  open h use {World, time, timestamp, uuid4}

  unfoldable pub detected : EventType → Text → Option Text → World → DetectedEvent × World
  detected type epc reader w =
      let (id, w') = uuid4 w in
      let (at, w'') = timestamp w' in
      (
        record {
          edge_event_id = id;
          event_type = type;
          epc = epc;
          edge_event_at = at;
          reader_id = reader;
        },
        w'',
      )

  unfoldable pub detected_if :
      Bool → EventType → Text → Option Text → World → List DetectedEvent × World
  unfolding detected
  detected_if false type epc reader w = ([], w)
  detected_if true type epc reader w =
      let (event, w') = detected type epc reader w in (event ∷ [], w')

  -- The loop over the tags that were read.
  unfoldable pub mark_visible :
      Option Text → ℕ → List Text → Dict ℕ → World → List DetectedEvent × Dict ℕ × World
  unfolding detected_if
  mark_visible reader observed [] visible w = ([], visible, w)
  mark_visible reader observed (epc ∷ epcs) visible w =
      let key = tag_key epc reader in
      let (new, w') = detected_if (not (contains key visible)) enter epc reader w in
      let (more, visible', w'') = mark_visible reader observed epcs (put key observed visible) w' in
      (new ++ more, visible', w'')

  -- The loop over the keys: `observed_at - last_seen >= exit_timeout` with no subtraction.
  unfoldable pub collect_expired :
      Option Text → ℕ → ℕ → Dict ℕ → World → List DetectedEvent × List Text × World
  unfolding detected_if
  collect_expired reader timeout observed [] w = ([], [], w)
  collect_expired reader timeout observed ((key, last_seen) ∷ items) w =
      let due = not (is_skipped reader key) && leb (timeout + last_seen) observed in
      let (gone, w') = detected_if due exit (epc_from_key key) reader w in
      let (more, keys, w'') = collect_expired reader timeout observed items w' in
      (gone ++ more, if due then key ∷ keys else keys, w'')

  -- The time of the observation: the caller's, or the clock's.
  unfoldable pub observation_time : Option ℕ → World → ℕ × World
  observation_time (some now) w = (now, w)
  observation_time none w = time w

  unfoldable pub update :
      PresenceState
      → List Text
      → Option ℕ
      → Option Text
      → World
      → List DetectedEvent × PresenceState × World
  unfolding observation_time mark_visible collect_expired remove_all
  update state epcs now reader w =
      let (observed, w1) = observation_time now w in
      let (entered, visible, w2) = mark_visible reader observed epcs state.visible_tags w1 in
      let (exited, expired, w3) = collect_expired reader state.exit_timeout observed visible w2 in
      (entered ++ exited, record state { visible_tags = remove_all expired visible }, w3)
