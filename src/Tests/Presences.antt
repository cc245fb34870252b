-- ===== src/Tests/Presences.antt =====
-- A tag that comes, is read twice, and leaves.
use mvd_edge_agent.Prelude.{
  ◌≡◌, refl, true, not, ◌&&◌, List, [], ◌∷◌, ◌++◌, none, some, Text, text_eq, codes, arith,
  if◌then◌else◌,
}
use mvd_edge_agent.Dict.{HasUniqueKeys, lookup, member, contains}
use mvd_edge_agent.Presence.{PresenceState, create, enter, exit, is_skipped, starts_with}
use mvd_edge_agent.Presence.Keys.{HasNoNul, key_of}
use mvd_edge_agent.Presence.Marking.{kinds_of, once}
use mvd_edge_agent.Presence.Expiry.{is_due}
use mvd_edge_agent.Presence.Update.{updated, last_seen, lookup-update, kinds_of-update}
use mvd_edge_agent.Presence.Alternation.{Reading, follow, watch, follow-watch}
use mvd_edge_agent.Tests.{test_host, start}

abbrev door : Text
door = codes "door"

abbrev tag : Text
tag = codes "E201"

door-HasNoNul : HasNoNul door
door-HasNoNul = (omega arith, (omega arith, (omega arith, (omega arith, tt))))

-- One tag of the door and one of the gate, seen at times 3 and 4.
abbrev two_seen : PresenceState
two_seen = record {
  exit_timeout = 5;
  visible_tags = (codes "door" ++ 0 ∷ tag, 3) ∷ (codes "gate" ++ 0 ∷ tag, 4) ∷ [];
}

two_seen-HasUniqueKeys : HasUniqueKeys two_seen.visible_tags
unfolding lookup text_eq
two_seen-HasUniqueKeys = (refl, (refl, tt))

abbrev readings : List Reading
readings = (tag ∷ tag ∷ [], 1) ∷ ([], 3) ∷ ([], 6) ∷ (tag ∷ [], 7) ∷ []

follow-watch_example :
    follow
      (contains (key_of door tag) (create 5).visible_tags)
      (kinds_of tag (watch test_host door (create 5) readings start).0)
    ≡ some
        (contains (key_of door tag) (watch test_host door (create 5) readings start).1.visible_tags)
follow-watch_example = follow-watch test_host door (create 5) readings start tag door-HasNoNul tt

kinds_of-update_example :
    kinds_of tag (updated test_host door two_seen [] 9 start).0
    ≡ once (member tag [] && not (contains (key_of door tag) two_seen.visible_tags)) enter
      ++ once (is_due 5 9 (last_seen test_host door two_seen [] 9 start tag)) exit
kinds_of-update_example =
    kinds_of-update test_host door two_seen [] 9 start door-HasNoNul two_seen-HasUniqueKeys tag

lookup-update_example :
    lookup (key_of door tag) (updated test_host door two_seen [] 9 start).1.visible_tags ≡ (
      if is_due 5 9 (last_seen test_host door two_seen [] 9 start tag)
      then none
      else last_seen test_host door two_seen [] 9 start tag)
lookup-update_example = lookup-update test_host door two_seen [] 9 start two_seen-HasUniqueKeys tag

gate_is_skipped : is_skipped (some door) (codes "gate" ++ 0 ∷ tag) ≡ true
unfolding starts_with
gate_is_skipped = refl
