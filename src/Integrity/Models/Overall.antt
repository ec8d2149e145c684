-- ===== src/Integrity/Models/Overall.antt =====
-- The status of an inspection.
use immich_doctor.Base.{
  ℕ, ◌+◌, ◌≡◌, ◌∙◌, refl, ◌↔◌, true, false, List, [], ◌∷◌, arith, all, any, contains, length,
  count_by, ◌==◌, if◌then◌else◌,
}
use immich_doctor.Core.Models.{fail, check_statuses, check_status_eq}
use immich_doctor.Integrity.Models.{
  FileIntegrityStatus, file_ok, file_integrity_status_eq, FileIntegrityFinding,
  FileIntegritySummaryItem, FileIntegrityInspectResult, physical_defects, all_statuses,
  integrity_overall_status, integrity_exit_code, summary_items_of, build_summary_items,
}

defects-any :
    (l : List FileIntegrityFinding)
    → any (λ f. contains physical_defects f.status) l
      ≡ (if all (λ f. f.status == file_ok) l then false else true)
defects-any [] = refl
defects-any (f ∷ l) = ground (arith, defects-any l)

-- An inspection ends with exit code 0 exactly if every file that it looked at is in order and no
-- check failed.
pub integrity_exit_code-zero :
    (r : FileIntegrityInspectResult)
    → (integrity_exit_code r ≡ 0) ↔ (
        (all (λ f. f.status == file_ok) r.findings ≡ true)
        × (contains (check_statuses r.checks) fail ≡ false))
unfolding integrity_exit_code integrity_overall_status
integrity_exit_code-zero r = ground (arith, defects-any r.findings)

abbrev pub total : List FileIntegritySummaryItem → ℕ
total [] = 0
total (i ∷ l) = i.count + total l

-- counts of the statuses of a list
abbrev tally : List FileIntegrityStatus → List FileIntegrityFinding → ℕ
tally [] l = 0
tally (s ∷ ss) l = count_by (λ (f : FileIntegrityFinding). f.status == s) l + tally ss l

total-summary_items_of :
    (ss : List FileIntegrityStatus) (l : List FileIntegrityFinding)
    → total (summary_items_of ss l) ≡ tally ss l
unfolding summary_items_of
total-summary_items_of [] l = refl
total-summary_items_of (s ∷ ss) l = ground (arith, total-summary_items_of ss l)

tally-cons :
    (f : FileIntegrityFinding) (l : List FileIntegrityFinding)
    → tally all_statuses (f ∷ l) ≡ 1 + tally all_statuses l
tally-cons f l = ground arith

tally-length : (l : List FileIntegrityFinding) → tally all_statuses l ≡ length l
tally-length [] = refl
tally-length (f ∷ l) = tally-cons f l ∙ omega (arith, tally-length l)

-- The summary of an inspection counts each finding once.
pub summary_counts_all : (l : List FileIntegrityFinding) → total (build_summary_items l) ≡ length l
unfolding build_summary_items
summary_counts_all l = total-summary_items_of all_statuses l ∙ tally-length l
