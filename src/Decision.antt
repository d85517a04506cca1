-- ===== src/Decision.antt =====
-- src/decision_core_default.c: the map from fidelities to cores, the cores that the zones of a job ask for,
-- and the choice within a budget. Priorities are floating-point numbers; what the code compares them with is
-- passed as the results of the comparisons.
pub mod Fidelity
pub mod Budget
mod Tests
use bhc_scheduler.Common.{
  ℕ, zero, suc, ◌+◌, ◌-◌, ◌%◌, Bool, true, false, ◌&&◌, ◌||◌, not, Option, none, some, List, [],
  ◌∷◌, length, ltb, leb, ◌==◌, get_elem?, if◌then◌else◌,
}
use bhc_scheduler.Common.Fallible.{◌>>=◌}
use bhc_scheduler.Common.Int.{ℤ, pos, negsuc}
use bhc_scheduler.Common.Text.{CText}

-- What `strtol` answers: its value, whether it read a number, whether that is out of range, and the text
-- after the number.
pub record Number : Type 0 where
  pub value : ℤ
  pub is_read : Bool
  pub out_of_range : Bool
  pub rest : CText

-- A value that the map takes: not above 10000, and not 0 after the first.
unfoldable pub taken_value : Bool → Number → Option ℕ
taken_value first n = elim (n.value) [
  | pos v ↦
      if n.is_read && not n.out_of_range && leb v 10000 && (first || ltb 0 v) then some v else none
  | negsuc v ↦ none
]

-- The rest of the loop after a value: the end, a comma, or the result -1.
abbrev pub after_value : (CText → List ℕ × Option CText) → ℕ → CText → List ℕ × Option CText
after_value next v [] = (v ∷ [], some [])
after_value next v (c ∷ cs) =
    let (values, cursor) = next cs in if c == b',' then (v ∷ values, cursor) else (v ∷ [], none)

abbrev pub with_value : (CText → List ℕ × Option CText) → CText → Option ℕ → List ℕ × Option CText
with_value next rest none = ([], none)
with_value next rest (some v) = after_value next v rest

-- The loop of `parse_fidelity_map`, with room for so many values: the values that are written, and the
-- cursor where the loop ends; `none` is the result -1.
unfoldable pub parse_from : (CText → Number) → ℕ → Bool → CText → List ℕ × Option CText
unfolding taken_value
parse_from strtol zero first text = ([], some text)
parse_from strtol (suc room) first [] = ([], some [])
parse_from strtol (suc room) first (c ∷ cs) =
    let n = strtol (c ∷ cs) in
    with_value (λ t. parse_from strtol room false t) n.rest (taken_value first n)

-- An array of so many numbers that were set to 0, with these values written.
unfoldable pub array_of : ℕ → List ℕ → List ℕ
array_of zero values = []
array_of (suc n) [] = 0 ∷ array_of n []
array_of (suc n) (v ∷ values) = v ∷ array_of n values

abbrev pub max_fidelity_of : List ℕ → Option CText → Option ℕ
max_fidelity_of values (some []) = if ltb (length values) 2 then none else some (length values - 1)
max_fidelity_of values _ = none

-- `parse_fidelity_map`: the array, and `*max_fidelity` if the result is 0.
unfoldable pub parse_fidelity_map : (CText → Number) → CText → List ℕ × Option ℕ
unfolding parse_from array_of
parse_fidelity_map strtol text =
    let (values, cursor) = parse_from strtol 8 true text in
    (array_of 8 values, max_fidelity_of values cursor)

-- `memcpy` of the defaults over the first four entries, where the map cannot be read.
abbrev pub copy_defaults : List ℕ → List ℕ
copy_defaults (a ∷ b ∷ c ∷ d ∷ values) = 0 ∷ 1 ∷ 3 ∷ 6 ∷ values
copy_defaults values = values

abbrev pub or_defaults : List ℕ × Option ℕ → List ℕ × ℕ
or_defaults (values, some max_fidelity) = (values, max_fidelity)
or_defaults (values, none) = (copy_defaults values, 3)

-- The map that `decision_core_decide` uses, and its highest fidelity.
unfoldable pub fidelity_map : (CText → Number) → CText → List ℕ × ℕ
fidelity_map strtol text = or_defaults (parse_fidelity_map strtol text)

-- A zone, by whether its priority is above the high and the refining threshold.
pub record Zone : Type 0 where
  pub is_high : Bool
  pub is_refined : Bool

unfoldable pub fidelity_of : ℕ → Zone → ℕ
fidelity_of max_fidelity z =
    let fidelity : ℕ = if z.is_high then max_fidelity else if z.is_refined then 2 else 1 in
    if ltb max_fidelity fidelity then max_fidelity else fidelity

-- `none` is a read out of the array.
unfoldable pub req_cores_of : List ℕ × ℕ → Zone → Option ℕ
unfolding fidelity_of
req_cores_of (values, max_fidelity) z =
    let fidelity = fidelity_of max_fidelity z in
    if leb 1 fidelity && leb fidelity max_fidelity then get_elem? values fidelity else some 0

-- `total_req_cores += req_cores`, in 32 bits.
unfoldable pub total_cores : List ℕ × ℕ → ℕ → List Zone → Option ℕ
unfolding req_cores_of
total_cores m total [] = some total
total_cores m total (z ∷ zones) =
    req_cores_of m z >>= λ cores. total_cores m ((total + cores) % 4294967296) zones

unfoldable pub desired_fidelity : ℕ → Zone → ℕ
desired_fidelity max_fidelity z =
    if z.is_high
    then max_fidelity
    else if z.is_refined
    then (if leb 2 max_fidelity then 2 else 1)
    else 1

-- The loop down from the fidelity that is wanted: the highest that the budget allows, with its cores;
-- (0, 0) where it allows none.
unfoldable pub affordable : List ℕ → ℕ → ℕ → ℕ → Option (ℕ × ℕ)
affordable values cap used zero = some (0, 0)
affordable values cap used (suc fidelity) = get_elem? values (suc fidelity) >>= λ requirement.
    if ltb 0 requirement && leb ((used + requirement) % 4294967296) cap
    then some (suc fidelity, requirement)
    else affordable values cap used fidelity

abbrev pub granted_first : ℕ × ℕ → ℕ × List (ℕ × ℕ) → ℕ × List (ℕ × ℕ)
granted_first grant (used, grants) = (used, grant ∷ grants)

-- The loop over the zones in the order of the sort: the cores used, and the fidelity and the cores of each.
unfoldable pub select_within : List ℕ × ℕ → ℕ → ℕ → List Zone → Option (ℕ × List (ℕ × ℕ))
unfolding desired_fidelity affordable
select_within m cap used [] = some (used, [])
select_within m cap used (z ∷ picks) = affordable m.0 cap used (desired_fidelity m.1 z) >>= λ grant.
    select_within m cap ((used + grant.1) % 4294967296) picks >>= λ later.
    some (granted_first grant later)
