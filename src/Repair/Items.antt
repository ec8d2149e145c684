-- ===== src/Repair/Items.antt =====
-- The rows of the quarantine index (immich_doctor/repair/models.py).
use immich_doctor.Base.{ℕ, String, Bool, Option, string_eq, if◌then◌else◌}
use immich_doctor.Core.Value.{
  Fields, end, field, bool, str, optional_text, optional_int, get_or_null, truthy,
}
use immich_doctor.Effects.Result.{
  Result, ok, ◌>>=◌, require, as_text, as_optional_text, as_optional_int, as_dict, as_optional_dict,
}

pub record QuarantineItem : Type 0 where
  pub quarantine_item_id : String
  pub repair_run_id : String
  pub asset_id : Option String
  pub source_path : String
  pub quarantine_path : String
  pub reason : String
  pub checksum : Option String
  pub size_bytes : Option ℕ
  pub restorable : Bool
  pub owner_id : Option String
  pub owner_label : Option String
  pub category_key : Option String
  pub finding_id : Option String
  pub source_kind : Option String
  pub root_slug : Option String
  pub relative_path : Option String
  pub original_relative_path : Option String
  pub db_reference_kind : Option String
  pub state : String
  pub state_changed_at : Option String
  pub deleted_at : Option String
  pub created_at : String

unfoldable pub quarantine_item_to_dict : QuarantineItem → Fields
quarantine_item_to_dict x = field "quarantine_item_id" (str x.quarantine_item_id) (
    field "repair_run_id" (str x.repair_run_id) (
      field "asset_id" (optional_text x.asset_id) (
        field "source_path" (str x.source_path) (
          field "quarantine_path" (str x.quarantine_path) (
            field "reason" (str x.reason) (
              field "checksum" (optional_text x.checksum) (
                field "size_bytes" (optional_int x.size_bytes) (
                  field "restorable" (bool x.restorable) (
                    field "owner_id" (optional_text x.owner_id) (
                      field "owner_label" (optional_text x.owner_label) (
                        field "category_key" (optional_text x.category_key) (
                          field "finding_id" (optional_text x.finding_id) (
                            field "source_kind" (optional_text x.source_kind) (
                              field "root_slug" (optional_text x.root_slug) (
                                field "relative_path" (optional_text x.relative_path) (
                                  field "original_relative_path"
                                    (optional_text x.original_relative_path)
                                    (field "db_reference_kind" (optional_text x.db_reference_kind) (
                                      field "state" (str x.state) (
                                        field "state_changed_at" (optional_text x.state_changed_at)
                                          (field "deleted_at" (optional_text x.deleted_at) (
                                            field "created_at" (str x.created_at)
                                              end)))))))))))))))))))))

unfoldable pub quarantine_item_from_dict : Fields → Result QuarantineItem
unfolding require get_or_null as_text as_optional_text as_optional_int as_dict as_optional_dict
    truthy
quarantine_item_from_dict payload = do
  quarantine_item_id ← require "quarantine_item_id" payload >>= as_text
  repair_run_id ← require "repair_run_id" payload >>= as_text
  asset_id ← as_optional_text (get_or_null "asset_id" payload)
  source_path ← require "source_path" payload >>= as_text
  quarantine_path ← require "quarantine_path" payload >>= as_text
  reason ← require "reason" payload >>= as_text
  checksum ← as_optional_text (get_or_null "checksum" payload)
  size_bytes ← as_optional_int (get_or_null "size_bytes" payload)
  restorable ← require "restorable" payload
  owner_id ← as_optional_text (get_or_null "owner_id" payload)
  owner_label ← as_optional_text (get_or_null "owner_label" payload)
  category_key ← as_optional_text (get_or_null "category_key" payload)
  finding_id ← as_optional_text (get_or_null "finding_id" payload)
  source_kind ← as_optional_text (get_or_null "source_kind" payload)
  root_slug ← as_optional_text (get_or_null "root_slug" payload)
  relative_path ← as_optional_text (get_or_null "relative_path" payload)
  original_relative_path ← as_optional_text (get_or_null "original_relative_path" payload)
  db_reference_kind ← as_optional_text (get_or_null "db_reference_kind" payload)
  state ← (let v = get_or_null "state" payload in if truthy v then as_text v else ok "active")
  state_changed_at ← as_optional_text (get_or_null "state_changed_at" payload)
  deleted_at ← as_optional_text (get_or_null "deleted_at" payload)
  created_at ← require "created_at" payload >>= as_text
  ok (record {
    quarantine_item_id = quarantine_item_id;
    repair_run_id = repair_run_id;
    asset_id = asset_id;
    source_path = source_path;
    quarantine_path = quarantine_path;
    reason = reason;
    checksum = checksum;
    size_bytes = size_bytes;
    restorable = truthy restorable;
    owner_id = owner_id;
    owner_label = owner_label;
    category_key = category_key;
    finding_id = finding_id;
    source_kind = source_kind;
    root_slug = root_slug;
    relative_path = relative_path;
    original_relative_path = original_relative_path;
    db_reference_kind = db_reference_kind;
    state = state;
    state_changed_at = state_changed_at;
    deleted_at = deleted_at;
    created_at = created_at;
  })
