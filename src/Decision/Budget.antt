-- ===== src/Decision/Budget.antt =====
-- What the zones ask for, and what the budget grants.
use bhc_scheduler.Common.{
  ℕ, zero, suc, ◌+◌, ◌*◌, ◌≤◌, ◌<◌, ◌≡◌, refl, true, some, List, [], ◌∷◌, length, arith, get_elem?,
  if_cases, ltb, leb, ◌&&◌, ◌%◌,
}
use bhc_scheduler.Common.Fallible.{Yields, Yields-some, Yields-bind, Yields-weaken}
use bhc_scheduler.Common.Text.{CText}
use bhc_scheduler.Decision.{
  Number, Zone, fidelity_map, fidelity_of, req_cores_of, total_cores, desired_fidelity, affordable,
  select_within,
}
use bhc_scheduler.Decision.Fidelity.{Cores, IsMap, fidelity_map-IsMap}

fidelity-Cores :
    (m : List ℕ × ℕ) (f : ℕ) → IsMap m → 1 ≤ f → f ≤ m.1 → Yields Cores (get_elem? m.0 f)
fidelity-Cores m zero is_map low high = absurd (omega arith)
fidelity-Cores m (suc k) is_map low high = is_map.1 k (omega (arith, high))

fidelity_within :
    (top : ℕ) (z : Zone) → 1 ≤ top → (1 ≤ fidelity_of top z) × (fidelity_of top z ≤ top)
unfolding fidelity_of
fidelity_within top z h = (ground arith, ground arith)

desired_within : (top : ℕ) (z : Zone) → 1 ≤ top → desired_fidelity top z ≤ top
unfolding desired_fidelity
desired_within top z h = ground arith

req_cores_of-Cores : (m : List ℕ × ℕ) (z : Zone) → IsMap m → Yields Cores (req_cores_of m z)
unfolding req_cores_of
req_cores_of-Cores (values, top) z is_map =
    let f = fidelity_of top z in
    let (low, high) = fidelity_within top z is_map.0 in
    let inside : (leb 1 f && leb f top) ≡ true = ground arith in
    rw inside (fidelity-Cores (values, top) f is_map low high)

total_from :
    (m : List ℕ × ℕ) (total : ℕ) (zones : List Zone)
    → IsMap m
    → total + 10000 * length zones < 4294967296
    → Yields
        (λ t. (total + length zones ≤ t) × (t ≤ total + 10000 * length zones))
        (total_cores m total zones)
unfolding total_cores
total_from m total [] is_map room = Yields-some total (omega arith, omega arith)
total_from m total (z ∷ zones) is_map room =
    Yields-bind _ _ (req_cores_of-Cores m z is_map) λ cores (some_cores, few).
      let exact : (total + cores) % 4294967296 ≡ total + cores = omega arith in
      rw exact (
        Yields-weaken _ (total_from m (total + cores) zones is_map (omega arith))
          λ t (low, high). (omega arith, omega arith))

-- Whatever the setting of the map says, for up to 64 zones the code reads inside the array, and the sum of
-- the cores does not wrap around: every zone counts for at least one core and at most 10000.
pub total_cores-Bounded :
    (strtol : CText → Number) (text : CText) (zones : List Zone)
    → length zones ≤ 64
    → Yields
        (λ t. (length zones ≤ t) × (t ≤ 10000 * length zones))
        (total_cores (fidelity_map strtol text) 0 zones)
total_cores-Bounded strtol text zones few =
    Yields-weaken _
      (total_from (fidelity_map strtol text) 0 zones (fidelity_map-IsMap strtol text) (omega arith))
      λ t (low, high). (omega arith, omega arith)

affordable-Within :
    (m : List ℕ × ℕ) (cap used f : ℕ)
    → IsMap m
    → f ≤ m.1
    → used ≤ cap
    → cap ≤ 640000
    → Yields (λ g. (g.0 ≤ f) × (used + g.1 ≤ cap)) (affordable m.0 cap used f)
unfolding affordable
affordable-Within m cap used zero is_map high within small =
    Yields-some (0, 0) (omega arith, omega arith)
affordable-Within m cap used (suc f) is_map high within small =
    Yields-bind _ _ (is_map.1 f (omega arith)) λ r (some_cores, few).
      let exact : (used + r) % 4294967296 ≡ used + r = omega arith in
      rw exact (
        if_cases (λ o. Yields {A = ℕ × ℕ} (λ g. (g.0 ≤ suc f) × (used + g.1 ≤ cap)) o)
          (ltb 0 r && leb (used + r) cap) _ _
          (λ fits. Yields-some (suc f, r) (omega arith, ground arith))
          (λ _.
            Yields-weaken _ (affordable-Within m cap used f is_map (omega arith) within small)
              λ g (low, inside). (omega arith, inside)))

-- The cores of all grants.
pub granted_cores : List (ℕ × ℕ) → ℕ
granted_cores [] = 0
granted_cores (g ∷ grants) = g.1 + granted_cores grants

select_from :
    (m : List ℕ × ℕ) (cap used : ℕ) (picks : List Zone)
    → IsMap m
    → used ≤ cap
    → cap ≤ 640000
    → Yields
        (λ r. (length r.1 ≡ length picks) × (used + granted_cores r.1 ≡ r.0) × (r.0 ≤ cap))
        (select_within m cap used picks)
unfolding select_within granted_cores
select_from m cap used [] is_map within small = Yields-some (used, []) (refl, omega arith, within)
select_from m cap used (z ∷ picks) is_map within small =
    Yields-bind _ _
      (affordable-Within m cap used (desired_fidelity m.1 z) is_map (desired_within m.1 z is_map.0)
        within small)
      λ g (_, inside).
        let exact : (used + g.1) % 4294967296 ≡ used + g.1 = omega arith in
        rw exact (
          Yields-bind _ _ (select_from m cap (used + g.1) picks is_map inside small)
            λ r (all, sum, below). Yields-some _ (omega (arith, all), omega (arith, sum), below))

-- Where up to 64 zones ask for more cores than the budget has, the selection, whatever the order of the
-- zones, reads inside the map, decides on every zone, and the cores it grants add up to what it counts as
-- used, which is within the budget.
pub select_within-Budget :
    (strtol : CText → Number) (text : CText) (zones picks : List Zone) (cap want : ℕ)
    → length zones ≤ 64
    → total_cores (fidelity_map strtol text) 0 zones ≡ some want
    → cap < want
    → Yields
        (λ r. (length r.1 ≡ length picks) × (granted_cores r.1 ≡ r.0) × (r.0 ≤ cap))
        (select_within (fidelity_map strtol text) cap 0 picks)
select_within-Budget strtol text zones picks cap want few asked over =
    let (t, same, (_, high)) = total_cores-Bounded strtol text zones few in
    let own : t ≡ want = cc in
    Yields-weaken _
      (select_from (fidelity_map strtol text) cap 0 picks (fidelity_map-IsMap strtol text)
        (omega arith) (omega (arith, own, high)))
      λ r (all, sum, below). (all, omega (arith, sum), below)
