-- ===== src/Presence/Expiry.antt =====
-- The loop that finds the tags that left, and the removal of their keys.
use mvd_edge_agent.Prelude.{
  ℕ, ◌+◌, ◌≡◌, refl, ap₂, ◌∙◌, Bool, false, not, ◌&&◌, Option, none, some, List, [], ◌∷◌, ◌++◌,
  arith, leb, Text, text_eq_iff, if◌then◌else◌,
}
use mvd_edge_agent.Dict.{
  Dict, lookup, member, remove, lookup-remove, remove-HasUniqueKeys, HasUniqueKeys,
}
use mvd_edge_agent.Host.{Host}
use mvd_edge_agent.Presence.{
  exit, is_skipped, epc_from_key, detected_if, collect_expired, remove_all,
}
use mvd_edge_agent.Presence.Keys.{
  HasNoNul, key_of, is_skipped-key_of, epc_from_key-key_of, key_of-epc_from_key,
}
use mvd_edge_agent.Presence.Marking.{kinds_of, kinds_of-append, kinds_of-detected_if, once}

-- Last seen, if at all, `timeout` ticks ago or more.
abbrev pub is_due : ℕ → ℕ → Option ℕ → Bool
is_due timeout observed none = false
is_due timeout observed (some last_seen) = leb (timeout + last_seen) observed

pub remove_all-HasUniqueKeys :
    (keys : List Text) (visible : Dict ℕ)
    → HasUniqueKeys visible
    → HasUniqueKeys (remove_all keys visible)
unfolding remove_all
remove_all-HasUniqueKeys [] visible u = u
remove_all-HasUniqueKeys (key ∷ keys) visible u =
    remove_all-HasUniqueKeys keys (remove key visible) (remove-HasUniqueKeys key visible u)

pub lookup-remove_all :
    (keys : List Text) (k : Text) (visible : Dict ℕ)
    → HasUniqueKeys visible
    → lookup k (remove_all keys visible) ≡ (if member k keys then none else lookup k visible)
unfolding remove_all member
lookup-remove_all [] k visible u = refl
lookup-remove_all (key ∷ keys) k visible u = ground (
  arith,
  lookup-remove_all keys k (remove key visible) (remove-HasUniqueKeys key visible u),
  lookup-remove key k visible u,
)

module _ (h : Host) (reader : Text) (timeout observed : ℕ) where
  open h use {World}

  -- The keys to delete are the reader's own keys that are due.
  pub member-collect_expired :
      (k : Text) (items : Dict ℕ) (w : World)
      → HasUniqueKeys items
      → member k (collect_expired h (some reader) timeout observed items w).1
        ≡ (not (is_skipped (some reader) k) && is_due timeout observed (lookup k items))
  unfolding collect_expired member lookup
  member-collect_expired k [] w u = ground arith
  member-collect_expired k ((key, seen) ∷ items) w u =
      let due = not (is_skipped (some reader) key) && leb (timeout + seen) observed in
      let w' = (detected_if h due exit (epc_from_key key) (some reader) w).1 in
      ground (arith, member-collect_expired k items w' u.1, text_eq_iff key k)

  -- A tag is reported as leaving once, if it is due.
  pub kinds_of-collect_expired :
      HasNoNul reader
      → (epc : Text) (items : Dict ℕ) (w : World) → HasUniqueKeys items
      → kinds_of epc (collect_expired h (some reader) timeout observed items w).0
        ≡ once (is_due timeout observed (lookup (key_of reader epc) items)) exit
  unfolding collect_expired lookup
  kinds_of-collect_expired nn epc [] w u = refl
  kinds_of-collect_expired nn epc ((key, seen) ∷ items) w u =
      let due = not (is_skipped (some reader) key) && leb (timeout + seen) observed in
      let gone = detected_if h due exit (epc_from_key key) (some reader) w in
      let rest = collect_expired h (some reader) timeout observed items gone.1 in
      kinds_of-append epc gone.0 rest.0
      ∙ ap₂ ◌++◌ (kinds_of-detected_if h due exit (epc_from_key key) epc (some reader) w)
          (kinds_of-collect_expired nn epc items gone.1 u.1)
      ∙ ground (
        arith,
        key_of-epc_from_key reader nn key,
        epc_from_key-key_of reader nn epc,
        is_skipped-key_of reader epc,
        text_eq_iff key (key_of reader epc),
        text_eq_iff (epc_from_key key) epc,
      )
