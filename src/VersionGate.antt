-- ===== src/VersionGate.antt =====
-- packages/server/src/hub/version-gate.ts: the order of worker versions, and the verdict on a worker. Texts are lists of
-- code points; a part of a version is below 2⁵³, where the code's numbers are exact. The texts of the reasons are
-- constructors.
pub mod Order
mod Examples
use remote_sql_agent.Prelude.{
  ℕ, zero, suc, ◌+◌, ◌*◌, ◌-◌, max, leb, ltb, ◌==◌, if◌then◌else◌, Bool, true, false, ◌&&◌, String,
  str_eq, Option, none, some, List, [], ◌∷◌, ◌++◌, map, length, codes, trim_start,
}

-- `split(separator)`: the first part, and the parts behind it.
unfoldable pub split_off : ℕ → List ℕ → List ℕ × List (List ℕ)
split_off separator [] = ([], [])
split_off separator (c ∷ s) =
    let (first, rest) = split_off separator s in
    if c == separator then ([], first ∷ rest) else (c ∷ first, rest)

abbrev pub is_digit : ℕ → Bool
is_digit c = leb b'0' c && leb c b'9'

-- The value of the leading digits, behind what was read before.
unfoldable pub leading_digits : ℕ → List ℕ → ℕ
leading_digits value [] = value
leading_digits value (c ∷ s) =
    let longer = leading_digits (value * 10 + (c - b'0')) s in if is_digit c then longer else value

abbrev skip_plus : List ℕ → List ℕ
skip_plus [] = []
skip_plus (c ∷ s) = if c == b'+' then s else c ∷ s

-- `Number.parseInt(part, 10)`, and 0 where that is NaN. A part has no minus sign, since a version ends at the first.
unfoldable pub parse_part : List ℕ → ℕ
unfolding trim_start
parse_part part = leading_digits 0 (skip_plus (trim_start part))

unfoldable pub parse : List ℕ → List ℕ
parse v =
    let (release, suffixes) = split_off b'-' v in
    let (first, rest) = split_off b'.' release in map parse_part (first ∷ rest)

-- The answers -1, 0 and 1.
pub data Comparison : Type 0 where
  before same after : Comparison

-- `left[i] ?? 0`, and the rest of the list.
abbrev pub head : List ℕ → ℕ
head [] = 0
head (n ∷ ns) = n

abbrev pub tail : List ℕ → List ℕ
tail [] = []
tail (n ∷ ns) = ns

-- The loop, with the number of rounds left.
unfoldable pub compare_parts : ℕ → List ℕ → List ℕ → Comparison
compare_parts zero left right = same
compare_parts (suc n) left right =
    let rest = compare_parts n (tail left) (tail right) in
    if head left == head right
    then rest
    else (if ltb (head left) (head right) then before else after)

unfoldable pub compare_versions : String → String → Comparison
compare_versions a b =
    let left = parse (codes a) in
    let right = parse (codes b) in compare_parts (max (length left) (length right)) left right

pub data VersionCheck : Type 0 where
  allowed not_reported too_old : VersionCheck

abbrev pub unless_before : Comparison → VersionCheck
unless_before before = too_old
unless_before same = allowed
unless_before after = allowed

-- `!minimumVersion` holds of null and of the empty text.
unfoldable pub check_worker_version : String → Option String → VersionCheck
check_worker_version reported none = allowed
check_worker_version reported (some minimum) =
    if str_eq minimum ""
    then allowed
    else (if str_eq reported ""
        then not_reported
        else unless_before (compare_versions reported minimum))
