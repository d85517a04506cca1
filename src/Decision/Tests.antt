-- ===== src/Decision/Tests.antt =====
-- The decision core at concrete values.
use bhc_scheduler.Common.{◌≤◌, ◌*◌, ◌-◌, ◌≡◌, false, true, [], ◌∷◌, length, arith, refl}
use bhc_scheduler.Common.Fallible.{Yields}
use bhc_scheduler.Common.Int.{pos}
use bhc_scheduler.Common.Text.{CText, c_text}
use bhc_scheduler.Decision.{
  Number, Zone, taken_value, parse_from, array_of, parse_fidelity_map, fidelity_map, fidelity_of,
  req_cores_of, total_cores, select_within,
}
use bhc_scheduler.Decision.Budget.{granted_cores, total_cores-Bounded, select_within-Budget}

-- `strtol` on texts whose numbers have one digit.
abbrev one_digit : CText → Number
one_digit [] = record { value = pos 0; is_read = false; out_of_range = false; rest = [] }
one_digit (c ∷ cs) = record {
  value = pos (c - 48);
  is_read = true;
  out_of_range = false;
  rest = cs;
}

abbrev high_zone : Zone
high_zone = record { is_high = true; is_refined = true }

abbrev low_zone : Zone
low_zone = record { is_high = false; is_refined = false }

total_cores-Bounded_example :
    Yields
      (λ t. (2 ≤ t) × (t ≤ 10000 * 2))
      (total_cores (fidelity_map one_digit (c_text "0,2,4")) 0 (high_zone ∷ low_zone ∷ []))
total_cores-Bounded_example =
    total_cores-Bounded one_digit (c_text "0,2,4") (high_zone ∷ low_zone ∷ []) (omega arith)

-- The zones want 4 + 2 cores, and 5 are there.
select_within-Budget_example :
    Yields
      (λ r. (length r.1 ≡ 2) × (granted_cores r.1 ≡ r.0) × (r.0 ≤ 5))
      (select_within (fidelity_map one_digit (c_text "0,2,4")) 5 0 (high_zone ∷ low_zone ∷ []))
unfolding total_cores req_cores_of fidelity_of fidelity_map parse_fidelity_map parse_from
    taken_value array_of
select_within-Budget_example =
    select_within-Budget one_digit (c_text "0,2,4") (high_zone ∷ low_zone ∷ [])
      (high_zone ∷ low_zone ∷ []) 5 6 (omega arith) refl (omega arith)

bad_setting : fidelity_map one_digit (c_text "0,0,4") ≡ (0 ∷ 1 ∷ 3 ∷ 6 ∷ 0 ∷ 0 ∷ 0 ∷ 0 ∷ [], 3)
unfolding fidelity_map parse_fidelity_map parse_from taken_value array_of
bad_setting = refl
