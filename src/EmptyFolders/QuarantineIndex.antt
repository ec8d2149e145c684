-- ===== src/EmptyFolders/QuarantineIndex.antt =====
-- The index of the quarantine and what is selected from it
-- (immich_doctor/storage/empty_folders/quarantine_manager.py).
pub mod Entries
use immich_doctor.Base.{
  String, Bool, ◌&&◌, ◌||◌, not, Option, none, some, List, [], ◌∷◌, ◌<>◌, filter_by, is_empty,
  contains, ◌==◌, ◌!=◌, string_eq, if◌then◌else◌,
}
use Prim.Native.String.{compare}
use text.Mathlib.Text.{is_lt, is_le}
use immich_doctor.Storage.PosixPath.{as_posix}
use immich_doctor.EmptyFolders.Scan.{EmptyDirectoryFinding}
use immich_doctor.EmptyFolders.Items.{EmptyDirQuarantineItem}

-- `{item for item in texts if item}`
abbrev pub normalized : List String → List String
normalized texts = filter_by (λ t. t != "") texts

abbrev root_matches : List String → EmptyDirectoryFinding → Bool
root_matches roots f = is_empty roots || contains roots f.root_slug

abbrev path_matches : List String → EmptyDirectoryFinding → Bool
path_matches paths f =
    is_empty paths
    || contains paths f.relative_path
    || contains paths (as_posix f.absolute_path)
    || contains paths (f.root_slug <> ":" <> f.relative_path)

abbrev is_selected : List String → List String → EmptyDirectoryFinding → Bool
is_selected roots paths f =
    root_matches roots f && path_matches paths f && (not (is_empty roots) || not (is_empty paths))

-- `_select_findings`
unfoldable pub select_findings :
    List String → List String → Bool → List EmptyDirectoryFinding → List EmptyDirectoryFinding
select_findings root_slugs paths select_all findings =
    if select_all
    then findings
    else filter_by (is_selected (normalized root_slugs) (normalized paths)) findings

abbrev names_item : List String → EmptyDirQuarantineItem → Bool
names_item paths i =
    not (is_empty paths)
    && (contains paths i.relative_path
        || contains paths i.original_path
        || contains paths i.quarantine_item_id
        || contains paths (i.root_slug <> ":" <> i.relative_path))

-- `_select_quarantine_items`
unfoldable pub select_quarantine_items :
    List String → Bool → List EmptyDirQuarantineItem → List EmptyDirQuarantineItem
select_quarantine_items paths select_all items =
    if select_all then items else filter_by (names_item (normalized paths)) items

-- The key `(item.root_slug, item.relative_path)`.
abbrev pub item_first : EmptyDirQuarantineItem → EmptyDirQuarantineItem → Bool
item_first i j =
    if i.root_slug != j.root_slug
    then is_lt (compare i.root_slug j.root_slug)
    else is_le (compare i.relative_path j.relative_path)

abbrev pub insert_item :
    EmptyDirQuarantineItem → List EmptyDirQuarantineItem → List EmptyDirQuarantineItem
insert_item i [] = i ∷ []
insert_item i (j ∷ l) = let rest = insert_item i l in if item_first i j then i ∷ j ∷ l else j ∷ rest

abbrev pub sort_items : List EmptyDirQuarantineItem → List EmptyDirQuarantineItem
sort_items [] = []
sort_items (i ∷ l) = insert_item i (sort_items l)

-- `updated_by_id[item.quarantine_item_id] = item`: the dictionary is the list of its values, since
-- each key is the identifier of its value.
abbrev pub put_item :
    EmptyDirQuarantineItem → List EmptyDirQuarantineItem → List EmptyDirQuarantineItem
put_item i [] = i ∷ []
put_item i (j ∷ l) =
    let rest = put_item i l in
    if j.quarantine_item_id == i.quarantine_item_id then i ∷ l else j ∷ rest

abbrev pub put_items :
    List EmptyDirQuarantineItem → List EmptyDirQuarantineItem → List EmptyDirQuarantineItem
put_items [] d = d
put_items (i ∷ l) d = put_items l (put_item i d)

-- `{item.quarantine_item_id: item for item in items}`
abbrev pub by_id : List EmptyDirQuarantineItem → List EmptyDirQuarantineItem
by_id items = put_items items []

-- `_merge_index_items`: what is written
unfoldable pub merge_index_items :
    List EmptyDirQuarantineItem → List EmptyDirQuarantineItem → List EmptyDirQuarantineItem
merge_index_items items index = sort_items (put_items items (by_id index))

abbrev pub is_active : EmptyDirQuarantineItem → Bool
is_active i = i.state == "active"

abbrev pub of_session : Option String → List EmptyDirQuarantineItem → List EmptyDirQuarantineItem
of_session none items = items
of_session (some id) items = filter_by (λ i. i.session_id == id) items

-- `list_quarantined` of an index
unfoldable pub list_quarantined :
    Option String → Bool → List EmptyDirQuarantineItem → List EmptyDirQuarantineItem
list_quarantined session_id include_inactive index =
    let items = of_session session_id index in
    sort_items (if include_inactive then items else filter_by is_active items)
