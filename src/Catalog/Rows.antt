-- ===== src/Catalog/Rows.antt =====
-- The rows of the issues as dictionaries (immich_doctor/catalog/consistency_state.py).
use immich_doctor.Base.{String, Option, none, some}
use immich_doctor.Core.Value.{Fields, end, field, int, str, optional_text}
use immich_doctor.Core.Models.{check_status_eq}
use immich_doctor.Storage.PathMapping.{MappingMode, runtime, legacy}
use immich_doctor.Catalog.Models.{
  CatalogFileRow, DbMissingRow, UnmappedRow, StorageMissingRow, OrphanRow,
}

abbrev pub mode_text : MappingMode → String
mode_text runtime = "runtime"
mode_text legacy = "legacy"

abbrev pub classification_field : Option String → Fields
classification_field none = end
classification_field (some c) = field "classification" (str c) end

abbrev pub db_missing_dict : DbMissingRow → Fields
db_missing_dict row = field "asset_id" (str row.asset_id) (
    field "asset_name" (optional_text row.asset_name) (
      field "asset_type" (optional_text row.asset_type) (
        field "database_path" (str row.database_path) (
          field "resolved_root" (str row.resolved_root) (
            field "relative_path" (str row.relative_path) (
              field "mapping_mode" (str (mode_text row.mapping_mode))
                (classification_field row.classification)))))))

abbrev pub resolved_fields : Option (String × MappingMode) → Fields
resolved_fields none = end
resolved_fields (some (root, mode)) =
    field "resolved_root" (str root) (field "mapping_mode" (str (mode_text mode)) end)

abbrev pub unmapped_dict : UnmappedRow → Fields
unmapped_dict row = field "asset_id" (str row.asset_id) (
    field "asset_name" (optional_text row.asset_name) (
      field "path_kind" (str "original") (
        field "database_path" (str row.database_path)
          (field "mapping_status" (str row.mapping_status) (resolved_fields row.resolved)))))

abbrev pub storage_missing_dict : StorageMissingRow → Fields
storage_missing_dict row = field "root_slug" (str row.root_slug) (
    field "relative_path" (str row.relative_path) (
      field "absolute_path" (optional_text row.absolute_path) (
        field "file_name" (str row.file_name) (
          field "size_bytes" (int row.size_bytes) (
            field "snapshot_id" (int row.snapshot_id)
              (field "generation" (int row.generation) end))))))

abbrev pub orphan_dict : OrphanRow → Fields
orphan_dict row = field "asset_id" (str row.asset_id) (
    field "derivative_type" (str row.derivative_type) (
      field "root_slug" (str row.root_slug) (
        field "relative_path" (str row.relative_path) (
          field "absolute_path" (str row.absolute_path) (
            field "database_path" (str row.database_path)
              (field "original_relative_path" (str row.original_relative_path) end))))))

-- The columns of a zero-byte file that are read here.
abbrev pub file_dict : CatalogFileRow → Fields
file_dict row = field "root_slug" (str row.root_slug) (
    field "relative_path" (str row.relative_path) (
      field "file_name" (str row.file_name) (
        field "extension" (optional_text row.extension) (
          field "size_bytes" (int row.size_bytes) (
            field "snapshot_id" (int row.snapshot_id) (
              field "generation" (int row.generation)
                (field "modified_at_fs" (optional_text row.modified_at_fs) end)))))))
