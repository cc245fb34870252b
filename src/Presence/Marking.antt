-- ===== src/Presence/Marking.antt =====
-- The loop over the tags that were read: who is in `visible_tags` after it, and what it reports.
use mvd_edge_agent.Prelude.{
  ℕ, ◌≡◌, refl, ap₂, ◌∙◌, Bool, true, false, not, ◌&&◌, Option, some, List, [], ◌∷◌, ◌++◌, arith,
  Text, text_eq, text_eq_iff, if◌then◌else◌,
}
use mvd_edge_agent.Dict.{
  Dict, lookup, contains, member, put, lookup-put, put-HasUniqueKeys, HasUniqueKeys,
}
use mvd_edge_agent.Host.{Host}
use mvd_edge_agent.Presence.{EventType, enter, is_skipped, DetectedEvent, detected_if, mark_visible}
use mvd_edge_agent.Presence.Keys.{key_of, text_eq-key_of, is_skipped-key_of}

-- The kinds of the events about one tag, in order.
abbrev pub kinds_of : Text → List DetectedEvent → List EventType
kinds_of epc [] = []
kinds_of epc (event ∷ events) =
    if text_eq event.epc epc then event.event_type ∷ kinds_of epc events else kinds_of epc events

pub kinds_of-append :
    (epc : Text) (xs ys : List DetectedEvent)
    → kinds_of epc (xs ++ ys) ≡ kinds_of epc xs ++ kinds_of epc ys
kinds_of-append epc [] ys = refl
kinds_of-append epc (x ∷ xs) ys = ground (arith, kinds_of-append epc xs ys)

-- One event, if the test holds and the tag is the one asked for.
abbrev pub once : Bool → EventType → List EventType
once test kind = if test then kind ∷ [] else []

module _ (h : Host) where
  open h use {World}

  pub kinds_of-detected_if :
      (test : Bool) (kind : EventType) (epc asked : Text) (reader : Option Text) (w : World)
      → kinds_of asked (detected_if h test kind epc reader w).0
        ≡ once (test && text_eq epc asked) kind
  unfolding detected_if
  kinds_of-detected_if false kind epc asked reader w = refl
  kinds_of-detected_if true kind epc asked reader w = refl

  module _ (reader : Text) (observed : ℕ) where
    pub lookup-mark_visible :
        (epc : Text) (epcs : List Text) (visible : Dict ℕ) (w : World)
        → lookup (key_of reader epc) (mark_visible h (some reader) observed epcs visible w).1
          ≡ (if member epc epcs then some observed else lookup (key_of reader epc) visible)
    unfolding mark_visible member
    lookup-mark_visible epc [] visible w = refl
    lookup-mark_visible epc (e ∷ epcs) visible w =
        let w' =
          (detected_if h (not (contains (key_of reader e) visible)) enter e (some reader) w).1 in
        ground (
          arith,
          lookup-mark_visible epc epcs (put (key_of reader e) observed visible) w',
          lookup-put (key_of reader e) (key_of reader epc) observed visible,
          text_eq-key_of reader e epc,
        )

    -- Keys of other readers keep their times.
    pub lookup-mark_visible_other :
        (k : Text) (epcs : List Text) (visible : Dict ℕ) (w : World)
        → is_skipped (some reader) k ≡ true
        → lookup k (mark_visible h (some reader) observed epcs visible w).1 ≡ lookup k visible
    unfolding mark_visible
    lookup-mark_visible_other k [] visible w s = refl
    lookup-mark_visible_other k (e ∷ epcs) visible w s =
        let w' =
          (detected_if h (not (contains (key_of reader e) visible)) enter e (some reader) w).1 in
        ground (
          arith,
          lookup-mark_visible_other k epcs (put (key_of reader e) observed visible) w',
          lookup-put (key_of reader e) k observed visible,
          text_eq_iff (key_of reader e) k,
          is_skipped-key_of reader e,
        )

    pub mark_visible-HasUniqueKeys :
        (epcs : List Text) (visible : Dict ℕ) (w : World)
        → HasUniqueKeys visible
        → HasUniqueKeys (mark_visible h (some reader) observed epcs visible w).1
    unfolding mark_visible
    mark_visible-HasUniqueKeys [] visible w u = u
    mark_visible-HasUniqueKeys (e ∷ epcs) visible w u =
        mark_visible-HasUniqueKeys epcs (put (key_of reader e) observed visible) _
          (put-HasUniqueKeys (key_of reader e) observed visible u)

    -- A tag is reported as entering once, if it was read and was not in the field.
    pub kinds_of-mark_visible :
        (epc : Text) (epcs : List Text) (visible : Dict ℕ) (w : World)
        → kinds_of epc (mark_visible h (some reader) observed epcs visible w).0
          ≡ once (member epc epcs && not (contains (key_of reader epc) visible)) enter
    unfolding mark_visible member
    kinds_of-mark_visible epc [] visible w = refl
    kinds_of-mark_visible epc (e ∷ epcs) visible w =
        let first =
          detected_if h (not (contains (key_of reader e) visible)) enter e (some reader) w in
        let rest =
          mark_visible h (some reader) observed epcs (put (key_of reader e) observed visible)
            first.1 in
        kinds_of-append epc first.0 rest.0
        ∙ ap₂ ◌++◌
            (kinds_of-detected_if (not (contains (key_of reader e) visible)) enter e epc
              (some reader) w)
            (kinds_of-mark_visible epc epcs (put (key_of reader e) observed visible) first.1)
        ∙ ground (
          arith,
          lookup-put (key_of reader e) (key_of reader epc) observed visible,
          text_eq-key_of reader e epc,
          text_eq_iff e epc,
        )
