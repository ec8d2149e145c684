-- ===== src/Catalog/Snapshots.antt =====
-- `prepare_snapshot_state` (immich_doctor/catalog/consistency_state.py).
pub mod Ready
use immich_doctor.Base.{
  ℕ, String, Bool, true, false, not, ◌&&◌, ◌||◌, Option, none, some, List, [], ◌∷◌, ◌++◌, ◌<>◌, map,
  Dict, lookup, insert, filter_by, is_empty, length, contains, decimal, sorted, ltb, ◌==◌,
  string_eq, if◌then◌else◌,
}
use mathlib.Core.Option
use immich_doctor.Core.Value.{
  Value, Fields, end, field, null, bool, object, array, items, texts, optional_text,
}
use immich_doctor.Core.Models.{CheckResult, CheckStatus, pass, fail}
use immich_doctor.Catalog.Models.{SnapshotRow, TextPlatform, parse_timestamp}

abbrev pub is_some {ℓ} : {A : Type ℓ} → Option A → Bool
is_some none = false
is_some (some _) = true

abbrev pub drop_none {ℓ} : {A : Type ℓ} → List (Option A) → List A
drop_none [] = []
drop_none (none ∷ l) = drop_none l
drop_none (some a ∷ l) = a ∷ drop_none l

-- `min(values, default=None)`
abbrev pub least : List ℕ → Option ℕ
least [] = none
least (n ∷ l) = elim (least l) [ none ↦ some n | some m ↦ some (if ltb m n then m else n) ]

-- `max(values, default=None)`
abbrev pub greatest : List ℕ → Option ℕ
greatest [] = none
greatest (n ∷ l) = elim (greatest l) [ none ↦ some n | some m ↦ some (if ltb n m then m else n) ]

-- A row of a committed snapshot that is current.
abbrev pub is_current : SnapshotRow → Bool
is_current row = is_some row.snapshot_id && row.snapshot_current

abbrev pub rows_by_slug : Dict SnapshotRow → List SnapshotRow → Dict SnapshotRow
rows_by_slug d [] = d
rows_by_slug d (row ∷ rows) = rows_by_slug (insert row.root_slug row d) rows

unfoldable pub snapshots_by_slug : List SnapshotRow → Dict SnapshotRow
snapshots_by_slug rows = rows_by_slug [] (filter_by is_current rows)

abbrev pub is_stale : List String → SnapshotRow → Bool
is_stale effective row =
    is_some row.snapshot_id && not row.snapshot_current && contains effective row.root_slug

unfoldable pub stale_slugs : List String → List SnapshotRow → List String
stale_slugs effective rows =
    sorted (map (λ row. row.root_slug) (filter_by (is_stale effective) rows))

abbrev pub is_missing : Dict SnapshotRow → List String → String → Bool
is_missing by_slug stale slug = not (is_some (lookup slug by_slug)) && not (contains stale slug)

unfoldable pub missing_slugs : List String → Dict SnapshotRow → List String → List String
missing_slugs effective by_slug stale = filter_by (is_missing by_slug stale) effective

abbrev pub configured_roots_check : List String → CheckResult
configured_roots_check synced = record {
  name = "catalog_configured_roots";
  status = if is_empty synced then fail else pass;
  message =
      if is_empty synced
      then "No catalog roots are configured."
      else "Found " <> decimal (length synced) <> " configured catalog roots.";
  details = end;
}

abbrev pub current_snapshots_check : List String → List String → List String → CheckResult
current_snapshots_check effective missing stale = record {
  name = "catalog_current_snapshots";
  status = fail;
  message =
      "Current committed catalog snapshots are not available for every "
      <> "effective storage root. Run a catalog scan first.";
  details = field "effective_root_slugs" (array (texts effective)) (
      field "missing_root_slugs" (array (texts missing))
        (field "stale_root_slugs" (array (texts stale)) end));
}

-- `synced_roots` are the slugs of the roots.
pub record CatalogSnapshotState : Type 0 where
  pub synced_roots : List String
  pub effective_root_slugs : List String
  pub latest_snapshots : List SnapshotRow
  pub snapshot_by_slug : Dict SnapshotRow
  pub stale_root_slugs : List String
  pub missing_root_slugs : List String
  pub checks : List CheckResult
  pub ready : Bool
  pub metadata : Fields
  pub comparison_window_started_at : Option String
  pub comparison_window_committed_at : Option String

abbrev pub snapshot_values : List SnapshotRow → Value
snapshot_values rows = array (items (map (λ row. object row.columns) rows))

abbrev pub snapshot_metadata :
    List String
    → List SnapshotRow
    → List String
    → List String
    → Bool
    → Option String
    → Option String
    → Fields
snapshot_metadata effective rows stale missing ready started committed =
    field "configuredRoots" (array (texts effective)) (
      field "latestSnapshots" (snapshot_values rows) (
        field "staleRootSlugs" (array (texts stale)) (
          field "missingRootSlugs" (array (texts missing)) (
            field "requiresCurrentScan" (bool (not ready)) (
              field "comparisonWindowStartedAt" (optional_text started)
                (field "comparisonWindowCommittedAt" (optional_text committed) end))))))

-- What the registry of roots and the store of snapshots answer.
pub record CatalogAnswers : Type 0 where
  pub synced_roots : List String
  pub scan_roots : List String
  pub latest_snapshots : List SnapshotRow

-- The times of a column of the current snapshots.
unfoldable pub times_of : TextPlatform → (SnapshotRow → Option String) → List SnapshotRow → List ℕ
unfolding parse_timestamp
times_of platform column rows = drop_none (map (λ row. parse_timestamp platform (column row)) rows)

unfoldable pub prepare_snapshot_state : TextPlatform → CatalogAnswers → CatalogSnapshotState
unfolding snapshots_by_slug stale_slugs missing_slugs times_of
prepare_snapshot_state platform answers =
    let effective = answers.scan_roots in
    let rows = answers.latest_snapshots in
    let by_slug = snapshots_by_slug rows in
    let stale = stale_slugs effective rows in
    let missing = missing_slugs effective by_slug stale in
    let current = drop_none (map (λ slug. lookup slug by_slug) effective) in
    let started =
      Option.map platform.isoformat (least (times_of platform (λ row. row.started_at) current)) in
    let committed =
      Option.map platform.isoformat
        (greatest (times_of platform (λ row. row.committed_at) current)) in
    let ready = is_empty missing && is_empty stale in
    record {
      synced_roots = answers.synced_roots;
      effective_root_slugs = effective;
      latest_snapshots = rows;
      snapshot_by_slug = by_slug;
      stale_root_slugs = stale;
      missing_root_slugs = missing;
      checks =
          configured_roots_check answers.synced_roots
          ∷ (if ready then [] else current_snapshots_check effective missing stale ∷ []);
      ready = ready;
      metadata = snapshot_metadata effective rows stale missing ready started committed;
      comparison_window_started_at = started;
      comparison_window_committed_at = committed;
    }
