-- ===== src/VersionGate/Examples.antt =====
-- Tests and instances for the version gate.
use remote_sql_agent.Prelude.{
  sym, ◌∙◌, trim_start, ◌≡◌, ◌≢◌, refl, ◌↔◌, String, eq_iff, some, codes, arith,
}
use remote_sql_agent.VersionGate.{
  split_off, leading_digits, parse_part, parse, before, same, after, compare_parts,
  compare_versions, allowed, check_worker_version,
}
use remote_sql_agent.VersionGate.Order.{Precedes, check_worker_version-allowed}

-- A suffix and missing parts do not count, and numbers are compared as numbers.
compare_test :
    (compare_versions "1.10.0-beta" "1.9" ≡ after)
    × (compare_versions "1.2" "1.2.0" ≡ same)
    × (compare_versions "v1" "0.0.1" ≡ before)
unfolding compare_versions compare_parts parse split_off parse_part leading_digits trim_start
compare_test = (refl, refl, refl)

let_in : check_worker_version "1.9.2" (some "1.9") ≡ allowed
unfolding check_worker_version compare_versions compare_parts parse split_off parse_part
    leading_digits trim_start
let_in = refl

abbrev minimum : String
minimum = "1.9"

abbrev upgraded : String
upgraded = "1.10"

later_after : compare_versions upgraded "1.9.2" ≡ after
unfolding compare_versions compare_parts parse split_off parse_part leading_digits trim_start
later_after = refl

after-ne-before : after ≢ before
after-ne-before e = cc

later : compare_versions upgraded "1.9.2" ≢ before
later e = after-ne-before (sym later_after ∙ e)

set : minimum ≢ ""
set e = absurd (ground (arith, eq_iff "1.9" "", e))

reported : upgraded ≢ ""
reported e = absurd (ground (arith, eq_iff "1.10" "", e))

check_worker_version-allowed_example :
    (check_worker_version upgraded (some minimum) ≡ allowed)
    ↔ ((upgraded ≢ "") × (¬ Precedes (parse (codes upgraded)) (parse (codes minimum))))
check_worker_version-allowed_example = check_worker_version-allowed upgraded minimum set
