-- ===== src/Presence/Update.antt =====
-- `PresenceState.update` of a reader whose name has no NUL.
use mvd_edge_agent.Prelude.{
  ℕ, ◌≡◌, ap, ap₂, ◌∙◌, true, not, ◌&&◌, Option, none, some, List, ◌++◌, arith, Text, if◌then◌else◌,
}
use mvd_edge_agent.Dict.{lookup, contains, member, HasUniqueKeys}
use mvd_edge_agent.Host.{Host}
use mvd_edge_agent.Presence.{
  PresenceState, enter, exit, DetectedEvent, is_skipped, mark_visible, collect_expired, update,
}
use mvd_edge_agent.Presence.Keys.{HasNoNul, key_of, is_skipped-key_of}
use mvd_edge_agent.Presence.Marking.{
  kinds_of, kinds_of-append, once, lookup-mark_visible, lookup-mark_visible_other,
  mark_visible-HasUniqueKeys, kinds_of-mark_visible,
}
use mvd_edge_agent.Presence.Expiry.{
  is_due, remove_all-HasUniqueKeys, lookup-remove_all, member-collect_expired,
  kinds_of-collect_expired,
}

module _ (h : Host) (reader : Text) where
  open h use {World}

  module _ (state : PresenceState) (epcs : List Text) (now : ℕ) (w : World) where
    -- The update with the time that the caller gives.
    abbrev pub updated : List DetectedEvent × PresenceState × World
    updated = update h state epcs (some now) (some reader) w

    -- When the tag was last seen, this observation included.
    abbrev pub last_seen : Text → Option ℕ
    last_seen epc =
        if member epc epcs then some now else lookup (key_of reader epc) state.visible_tags

    -- From a state with one entry for each key, after an update a tag of the reader is held with the time at which it was last seen, this
    -- reading included, unless that is the time-out or more ago: then it is not held.
    pub lookup-update :
        HasUniqueKeys state.visible_tags
        → (epc : Text)
        → lookup (key_of reader epc) updated.1.visible_tags
          ≡ (if is_due state.exit_timeout now (last_seen epc) then none else last_seen epc)
    unfolding update
    lookup-update u epc =
        let marked = mark_visible h (some reader) now epcs state.visible_tags w in
        let unique = mark_visible-HasUniqueKeys h reader now epcs state.visible_tags w u in
        let gone = collect_expired h (some reader) state.exit_timeout now marked.1 marked.2 in
        ground (
          arith,
          lookup-remove_all gone.1 (key_of reader epc) marked.1 unique,
          member-collect_expired h reader state.exit_timeout now (key_of reader epc) marked.1
              marked.2 unique,
          is_skipped-key_of reader epc,
          lookup-mark_visible h reader now epc epcs state.visible_tags w,
        )

    -- From a state with one entry for each key, an update of one reader leaves every key that does
    -- not begin with that reader's name and a NUL as it was.
    pub lookup-update_other :
        HasUniqueKeys state.visible_tags
        → (k : Text) → is_skipped (some reader) k ≡ true
        → lookup k updated.1.visible_tags ≡ lookup k state.visible_tags
    unfolding update
    lookup-update_other u k s =
        let marked = mark_visible h (some reader) now epcs state.visible_tags w in
        let unique = mark_visible-HasUniqueKeys h reader now epcs state.visible_tags w u in
        let gone = collect_expired h (some reader) state.exit_timeout now marked.1 marked.2 in
        ground (
          arith,
          lookup-remove_all gone.1 k marked.1 unique,
          member-collect_expired h reader state.exit_timeout now k marked.1 marked.2 unique,
          lookup-mark_visible_other h reader now k epcs state.visible_tags w,
        )

    pub update-HasUniqueKeys :
        HasUniqueKeys state.visible_tags → HasUniqueKeys updated.1.visible_tags
    unfolding update
    update-HasUniqueKeys u =
        let marked = mark_visible h (some reader) now epcs state.visible_tags w in
        let gone = collect_expired h (some reader) state.exit_timeout now marked.1 marked.2 in
        remove_all-HasUniqueKeys gone.1 marked.1
          (mark_visible-HasUniqueKeys h reader now epcs state.visible_tags w u)

    -- For a reader whose name has no NUL, from a state with one entry for each key, an update reports
    -- of each tag: that it entered, exactly if it was read and was not held; then
    -- that it left, exactly if the time at which it was last seen is the time-out or more ago; and
    -- nothing else, however often the tag was read.
    pub kinds_of-update :
        HasNoNul reader
        → HasUniqueKeys state.visible_tags
        → (epc : Text)
        → kinds_of epc updated.0
          ≡ once (member epc epcs && not (contains (key_of reader epc) state.visible_tags)) enter
            ++ once (is_due state.exit_timeout now (last_seen epc)) exit
    unfolding update
    kinds_of-update nn u epc =
        let marked = mark_visible h (some reader) now epcs state.visible_tags w in
        let unique = mark_visible-HasUniqueKeys h reader now epcs state.visible_tags w u in
        let gone = collect_expired h (some reader) state.exit_timeout now marked.1 marked.2 in
        kinds_of-append epc marked.0 gone.0
        ∙ ap₂ ◌++◌ (kinds_of-mark_visible h reader now epc epcs state.visible_tags w) (
            kinds_of-collect_expired h reader state.exit_timeout now nn epc marked.1 marked.2 unique
            ∙ ap (λ (seen : Option ℕ). once (is_due state.exit_timeout now seen) exit)
                (lookup-mark_visible h reader now epc epcs state.visible_tags w))
