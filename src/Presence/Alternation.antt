-- ===== src/Presence/Alternation.antt =====
-- The reports about a tag over any number of observations.
use mvd_edge_agent.Prelude.{
  ℕ, ◌≡◌, refl, ap, ◌∙◌, Bool, true, false, Option, none, some, List, [], ◌∷◌, ◌++◌, arith, Text,
}
use mvd_edge_agent.Dict.{contains, HasUniqueKeys}
use mvd_edge_agent.Host.{Host}
use mvd_edge_agent.Presence.{PresenceState, EventType, enter, exit, DetectedEvent, update}
use mvd_edge_agent.Presence.Keys.{HasNoNul, key_of}
use mvd_edge_agent.Presence.Marking.{kinds_of, kinds_of-append}
use mvd_edge_agent.Presence.Update.{lookup-update, update-HasUniqueKeys, kinds_of-update}

-- Whether a tag is inside after some reports: it enters only from outside and leaves only from inside.
abbrev pub follow : Bool → List EventType → Option Bool
follow inside [] = some inside
follow false (enter ∷ kinds) = follow true kinds
follow false (exit ∷ kinds) = none
follow true (enter ∷ kinds) = none
follow true (exit ∷ kinds) = follow false kinds

follow-append :
    (before middle : Bool) (xs ys : List EventType)
    → follow before xs ≡ some middle
    → follow before (xs ++ ys) ≡ follow middle ys
follow-append before middle [] ys h = ground arith
follow-append false middle (enter ∷ xs) ys h = follow-append true middle xs ys h
follow-append false middle (exit ∷ xs) ys h = cc
follow-append true middle (enter ∷ xs) ys h = cc
follow-append true middle (exit ∷ xs) ys h = follow-append false middle xs ys h

-- One reading of the reader: the tags, and the time.
abbrev pub Reading : Type 0
Reading = List Text × ℕ

module _ (h : Host) (reader : Text) where
  open h use {World}

  -- The events of a series of readings, and the state after it.
  pub watch : PresenceState → List Reading → World → List DetectedEvent × PresenceState
  watch state [] w = ([], state)
  watch state ((epcs, now) ∷ readings) w =
      let (events, state', w') = update h state epcs (some now) (some reader) w in
      let (more, state'') = watch state' readings w' in (events ++ more, state'')

  abbrev inside : PresenceState → Text → Bool
  inside state epc = contains (key_of reader epc) state.visible_tags

  follow-update :
      (state : PresenceState) (epcs : List Text) (now : ℕ) (w : World)
      → HasNoNul reader
      → HasUniqueKeys state.visible_tags
      → (epc : Text)
      → follow (inside state epc) (kinds_of epc (update h state epcs (some now) (some reader) w).0)
        ≡ some (inside (update h state epcs (some now) (some reader) w).1 epc)
  follow-update state epcs now w nn u epc =
      rw
        (
          kinds_of-update h reader state epcs now w nn u epc,
          lookup-update h reader state epcs now w u epc,
        )
        (ground arith)

  -- For a reader whose name has no NUL, over any series of readings, from any state with one entry
  -- for each key, the reports about a tag alternate: it enters only when it was not held and leaves
  -- only when it was, and after them it is held exactly if the last report, or the state at the
  -- start, says so.
  pub follow-watch :
      (state : PresenceState) (readings : List Reading) (w : World) (epc : Text)
      → HasNoNul reader
      → HasUniqueKeys state.visible_tags
      → follow (inside state epc) (kinds_of epc (watch state readings w).0)
        ≡ some (inside (watch state readings w).1 epc)
  unfolding watch
  follow-watch state [] w epc nn u = refl
  follow-watch state ((epcs, now) ∷ readings) w epc nn u =
      let next = update h state epcs (some now) (some reader) w in
      let rest = watch next.1 readings next.2 in
      ap (follow (inside state epc)) (kinds_of-append epc next.0 rest.0)
      ∙ follow-append (inside state epc) (inside next.1 epc) (kinds_of epc next.0)
          (kinds_of epc rest.0) (follow-update state epcs now w nn u epc)
      ∙ follow-watch next.1 readings next.2 epc nn
          (update-HasUniqueKeys h reader state epcs now w u)
