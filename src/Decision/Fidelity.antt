-- ===== src/Decision/Fidelity.antt =====
-- The map from fidelities to cores: its values, whatever the setting says.
use bhc_scheduler.Common.{
  ℕ, zero, suc, ◌≤◌, ◌<◌, ◌≡◌, refl, Bool, true, false, Option, none, some, List, [], ◌∷◌, length,
  arith, get_elem?, if_cases, ltb, ◌==◌,
}
use bhc_scheduler.Common.Fallible.{Yields, Yields-some}
use bhc_scheduler.Common.Text.{CText}
use bhc_scheduler.Decision.{
  Number, taken_value, after_value, with_value, parse_from, array_of, max_fidelity_of,
  parse_fidelity_map, or_defaults, fidelity_map,
}

abbrev Allowed : Bool → ℕ → Type 0
Allowed true v = v ≤ 10000
Allowed false v = (0 < v) × (v ≤ 10000)

abbrev Values : Bool → List ℕ → Type 0
Values first [] = Unit
Values first (v ∷ vs) = Allowed first v × Values false vs

abbrev Parsed : Bool → ℕ → List ℕ × Option CText → Type 0
Parsed first room r = Values first r.0 × (length r.0 ≤ room)

taken-Allowed : (first : Bool) (n : Number) (v : ℕ) → taken_value first n ≡ some v → Allowed first v
unfolding taken_value
taken-Allowed true n v h = ground arith
taken-Allowed false n v h = ground arith

after-Parsed :
    (next : CText → List ℕ × Option CText) (first : Bool) (room v : ℕ) (text : CText)
    → ((t : CText) → Parsed false room (next t))
    → Allowed first v
    → Parsed first (suc room) (after_value next v text)
after-Parsed next first room v [] later h = ((h, tt), omega arith)
after-Parsed next first room v (c ∷ cs) later h =
    if_cases (λ r. Parsed first (suc room) r) (c == b',') _ _
      (λ _. ((h, (later cs).0), omega (arith, (later cs).1))) (λ _. ((h, tt), omega arith))

with-Parsed :
    (next : CText → List ℕ × Option CText) (first : Bool) (room : ℕ) (text : CText) (o : Option ℕ)
    → ((t : CText) → Parsed false room (next t))
    → ((v : ℕ) → o ≡ some v → Allowed first v)
    → Parsed first (suc room) (with_value next text o)
with-Parsed next first room text none later h = (tt, omega arith)
with-Parsed next first room text (some v) later h =
    after-Parsed next first room v text later (h v refl)

parse_from-Parsed :
    (strtol : CText → Number) (room : ℕ) (first : Bool) (text : CText)
    → Parsed first room (parse_from strtol room first text)
unfolding parse_from
parse_from-Parsed strtol zero first text = (tt, omega arith)
parse_from-Parsed strtol (suc room) first [] = (tt, omega arith)
parse_from-Parsed strtol (suc room) first (c ∷ cs) =
    with-Parsed (λ t. parse_from strtol room false t) first room (strtol (c ∷ cs)).rest
      (taken_value first (strtol (c ∷ cs))) (λ t. parse_from-Parsed strtol room false t)
      (λ v h. taken-Allowed first (strtol (c ∷ cs)) v h)

-- A number of cores that a fidelity can stand for.
abbrev pub Cores : ℕ → Type 0
Cores v = (0 < v) × (v ≤ 10000)

array_of-Cores :
    (n : ℕ) (vs : List ℕ) (k : ℕ)
    → Values false vs
    → k < length vs
    → length vs ≤ n
    → Yields Cores (get_elem? (array_of n vs) k)
unfolding array_of
array_of-Cores n [] k h inside room = absurd (omega arith)
array_of-Cores zero (v ∷ vs) k h inside room = absurd (omega arith)
array_of-Cores (suc n) (v ∷ vs) zero h inside room = Yields-some v h.0
array_of-Cores (suc n) (v ∷ vs) (suc k) h inside room =
    array_of-Cores n vs k h.1 (omega arith) (omega arith)

-- Every fidelity from 1 up to the highest stands for a number of cores.
abbrev pub IsMap : List ℕ × ℕ → Type 0
IsMap m =
    (1 ≤ m.1) × ((k : ℕ) → k < m.1 → Yields (λ v. (0 < v) × (v ≤ 10000)) (get_elem? m.0 (suc k)))

defaults-IsMap : (values : List ℕ) → IsMap (0 ∷ 1 ∷ 3 ∷ 6 ∷ values, 3)
defaults-IsMap values = (omega arith, entry)
  where
    entry : (k : ℕ) → k < 3 → Yields Cores (get_elem? (0 ∷ 1 ∷ 3 ∷ 6 ∷ values) (suc k))
    entry zero h = Yields-some 1 (omega arith, omega arith)
    entry (suc zero) h = Yields-some 3 (omega arith, omega arith)
    entry (suc (suc zero)) h = Yields-some 6 (omega arith, omega arith)
    entry (suc (suc (suc k))) h = absurd (omega arith)

copied-IsMap : (vs : List ℕ) → IsMap (or_defaults (array_of 8 vs, none))
unfolding array_of
copied-IsMap [] = defaults-IsMap (0 ∷ 0 ∷ 0 ∷ 0 ∷ [])
copied-IsMap (a ∷ []) = defaults-IsMap (0 ∷ 0 ∷ 0 ∷ 0 ∷ [])
copied-IsMap (a ∷ b ∷ []) = defaults-IsMap (0 ∷ 0 ∷ 0 ∷ 0 ∷ [])
copied-IsMap (a ∷ b ∷ c ∷ []) = defaults-IsMap (0 ∷ 0 ∷ 0 ∷ 0 ∷ [])
copied-IsMap (a ∷ b ∷ c ∷ d ∷ vs) = defaults-IsMap (array_of 4 vs)

Parsed-IsMap :
    (vs : List ℕ) (cursor : Option CText)
    → Parsed true 8 (vs, cursor)
    → IsMap (or_defaults (array_of 8 vs, max_fidelity_of vs cursor))
unfolding array_of
Parsed-IsMap vs none p = copied-IsMap vs
Parsed-IsMap vs (some (c ∷ cs)) p = copied-IsMap vs
Parsed-IsMap [] (some []) p = copied-IsMap []
Parsed-IsMap (a ∷ []) (some []) p = copied-IsMap (a ∷ [])
Parsed-IsMap (a ∷ b ∷ vs) (some []) (values, room) =
    rw two
      (omega arith, λ k h. array_of-Cores 7 (b ∷ vs) k values.1 (omega (arith, h)) (omega arith))
  where
    two : ltb (suc (suc (length vs))) 2 ≡ false
    two = ground arith

pub fidelity_map-IsMap : (strtol : CText → Number) (text : CText) → IsMap (fidelity_map strtol text)
unfolding parse_fidelity_map fidelity_map
fidelity_map-IsMap strtol text =
    let p = parse_from strtol 8 true text in
    Parsed-IsMap p.0 p.1 (parse_from-Parsed strtol 8 true text)
