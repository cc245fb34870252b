-- ===== src/Discovery/Paths.antt =====
-- Collecting the ports raises nothing where paths raise `OSError` alone
-- (src/mvd_edge/discovery/serial.py).
use mvd_edge_agent.Prelude.{◌≡◌, refl, Option, none, List, [], ◌∷◌, arith, Text, codes}
use mvd_edge_agent.Dict.{Dict}
use mvd_edge_agent.Outcome.{Outcome, ok, raised, process_error, exception_of}
use mvd_edge_agent.Host.{Host, PortInfo}
use mvd_edge_agent.Discovery.{Metadata}
use mvd_edge_agent.Discovery.Ports.{
  existing, existing_of, sorted_or_none, enumerate_by_id_paths, resolved, stable_paths, put_target,
  non_empty, with_stable_path, metadata_of, all_with_stable_path, of_paths, of_infos,
  collect_metadata,
}

-- A call that returns a value or raises `OSError`.
abbrev pub IsOsCall : {A : Type 0} → Outcome A → Type 0
IsOsCall (ok a) = Unit
IsOsCall (raised e) = (t : Text) × (e ≡ process_error t)

module _ (h : Host) where
  open h use {World, comports, iterdir, exists, resolve}

  -- What the documentation of paths promises of the three calls.
  pub record RaisesOsErrors : Type 0 where
    pub of_iterdir : (path : Text) (w : World) → IsOsCall (iterdir path w).0
    pub of_exists : (path : Text) (w : World) → IsOsCall (exists path w).0
    pub of_resolve : (path : Text) (w : World) → IsOsCall (resolve path w).0

  module _ (os : RaisesOsErrors) where
    existing-IsOsCall : (paths : List Text) (w : World) → IsOsCall (existing h paths w).0
    unfolding existing
    existing-IsOsCall [] w = tt
    existing-IsOsCall (path ∷ paths) w =
        ground (arith, os.of_exists path w, existing-IsOsCall paths (exists path w).1)

    existing_of-IsOsCall :
        (paths : Outcome (List Text) × World) → IsOsCall paths.0 → IsOsCall (existing_of h paths).0
    existing_of-IsOsCall (raised e, w) called = called
    existing_of-IsOsCall (ok paths, w) called = existing-IsOsCall paths w

    sorted_raises_not :
        (found : Outcome (List Text))
        → IsOsCall found
        → exception_of (sorted_or_none h found) ≡ none
    sorted_raises_not found called = ground (arith, called)

    enumerate_raises_not : (w : World) → exception_of (enumerate_by_id_paths h w).0 ≡ none
    unfolding enumerate_by_id_paths
    enumerate_raises_not w =
        let listed = iterdir (codes "/dev/serial/by-id") w in
        sorted_raises_not (existing_of h listed).0
          (existing_of-IsOsCall listed (os.of_iterdir (codes "/dev/serial/by-id") w))

    resolved_raises_not : (path : Text) (w : World) → exception_of (resolved h path w).0 ≡ none
    unfolding resolved
    resolved_raises_not path w = ground (arith, os.of_resolve path w)

    stable_paths_raises_not :
        (paths : List Text) (known : Dict Text) (w : World)
        → exception_of (stable_paths h paths known w).0 ≡ none
    unfolding stable_paths
    stable_paths_raises_not [] known w = refl
    stable_paths_raises_not (path ∷ paths) known w =
        go (resolved h path w).0 (resolved_raises_not path w)
          (λ known. stable_paths_raises_not paths known (resolved h path w).1)
      where
        go :
            (target : Outcome (Option Text))
            → exception_of target ≡ none
            → ((known : Dict Text)
                → exception_of (stable_paths h paths known (resolved h path w).1).0 ≡ none)
            → exception_of
                (elim target as (λ _. Outcome (Dict Text) × World) [
                  | raised e ↦ (raised e, (resolved h path w).1)
                  | ok found ↦
                      stable_paths h paths
                        (put_target h (non_empty found) path known)
                        (resolved h path w).1
                ]).0
              ≡ none
        go (raised e) fine more = cc
        go (ok found) fine more = more (put_target h (non_empty found) path known)

    with_stable_path_raises_not :
        (known : Dict Text) (m : Metadata) (w : World)
        → exception_of (with_stable_path h known m w).0 ≡ none
    unfolding with_stable_path
    with_stable_path_raises_not known m w = ground (arith, resolved_raises_not m.port w)

    all_raises_not :
        (known : Dict Text) (infos : List PortInfo) (w : World)
        → exception_of (all_with_stable_path h known infos w).0 ≡ none
    unfolding all_with_stable_path
    all_raises_not known [] w = refl
    all_raises_not known (info ∷ infos) w = ground (
      arith,
      with_stable_path_raises_not known (metadata_of info) w,
      all_raises_not known infos (with_stable_path h known (metadata_of info) w).1,
    )

    of_infos_raises_not :
        (known : Outcome (Dict Text) × World)
        → exception_of known.0 ≡ none
        → exception_of (of_infos h known).0 ≡ none
    of_infos_raises_not (raised e, w) fine = cc
    of_infos_raises_not (ok known, w) fine = all_raises_not known (comports w).0 (comports w).1

    of_paths_raises_not :
        (paths : Outcome (List Text) × World)
        → exception_of paths.0 ≡ none
        → exception_of (of_paths h paths).0 ≡ none
    of_paths_raises_not (raised e, w) fine = cc
    of_paths_raises_not (ok paths, w) fine = stable_paths_raises_not paths [] w

    pub collect_raises_not : (w : World) → exception_of (collect_metadata h w).0 ≡ none
    unfolding collect_metadata
    collect_raises_not w =
        of_infos_raises_not (of_paths h (enumerate_by_id_paths h w))
          (of_paths_raises_not (enumerate_by_id_paths h w) (enumerate_raises_not w))
