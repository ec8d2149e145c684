-- ===== src/Core/Status.antt =====
-- What the ladder computes: the most severe status.
use immich_doctor.Base.{◌∙◌, ℕ, ◌≡◌, refl, ◌↔◌, List, [], ◌∷◌, ◌++◌, map, arith}
use immich_doctor.Core.Models.{
  CheckStatus, pass, fail, warn, skip, check_status_eq, ValidationReport, check_statuses, ranked,
  report_overall_status, report_exit_code,
}
use Prim.Native.Nat.{max}

abbrev pub severity : CheckStatus → ℕ
severity skip = 0
severity pass = 1
severity warn = 2
severity fail = 3

abbrev pub most_severe : List CheckStatus → ℕ
most_severe [] = 0
most_severe (s ∷ l) = max (severity s) (most_severe l)

ranked-cons :
    (s : CheckStatus) (l : List CheckStatus)
    → severity (ranked (s ∷ l)) ≡ max (severity s) (severity (ranked l))
unfolding ranked
ranked-cons pass l = ground arith
ranked-cons fail l = ground arith
ranked-cons warn l = ground arith
ranked-cons skip l = ground arith

pub severity-ranked : (l : List CheckStatus) → severity (ranked l) ≡ most_severe l
severity-ranked [] = unfold ranked in refl
severity-ranked (s ∷ l) = omega (arith, ranked-cons s l, severity-ranked l)

most_severe-append :
    (l m : List CheckStatus) → most_severe (l ++ m) ≡ max (most_severe l) (most_severe m)
most_severe-append [] m = omega arith
most_severe-append (s ∷ l) m = omega (arith, most_severe-append l m)

-- The overall status of a report is the most severe of its checks and sections, in the order
-- fail, warn, pass, skip, and skip if there are none. The exit code is 1 exactly if it is fail.
severity-report :
    (r : ValidationReport)
    → (severity (report_overall_status r)
        ≡ max
            (most_severe (check_statuses r.checks))
            (most_severe (map (λ s. s.status) r.sections)))
      × ((report_exit_code r ≡ 1) ↔ (severity (report_overall_status r) ≡ 3))
unfolding report_overall_status report_exit_code
severity-report r = (severity-ranked _ ∙ most_severe-append _ _, ground arith)
