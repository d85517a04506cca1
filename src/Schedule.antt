-- ===== src/Schedule.antt =====
-- src/core/scheduler.c: the helpers of the loop that keep no queue: the table of jobs for which a cloud
-- machine was asked for, and two functions on text.
pub mod Tick
pub mod Soundness
pub mod Placing
pub mod Scanning
pub mod Control
pub mod Cancelling
pub mod Stopping
pub mod Restoring
pub mod Held
pub mod Releasing
pub mod Loop
mod Tests
use bhc_scheduler.Common.{
  ℕ, zero, suc, ◌+◌, ◌≤◌, ◌≡◌, refl, ap, sym, ◌∙◌, Bool, true, false, ◌||◌, List, [], ◌∷◌, ◌++◌,
  ltb, ◌==◌, length, take, if◌then◌else◌, arith, Bool-cases, inl, inr,
}
use bhc_scheduler.Common.Text.{CText, str_same, str_same_refl, copy_field, is_empty}

-- `AUTO_PROV_MAX`
abbrev pub auto_prov_max : ℕ
auto_prov_max = 256

-- `auto_prov_already_tried`
unfoldable pub auto_prov_already_tried : CText → List CText → Bool
auto_prov_already_tried id [] = false
auto_prov_already_tried id (x ∷ xs) = str_same x id || auto_prov_already_tried id xs

-- `auto_prov_mark`: a full table stays as it is.
unfoldable pub auto_prov_mark : CText → List CText → List CText
auto_prov_mark id jobs =
    if ltb (length jobs) auto_prov_max then jobs ++ copy_field 37 id ∷ [] else jobs

abbrev pub commas : CText → ℕ
commas [] = zero
commas (c ∷ cs) = if c == b',' then suc (commas cs) else commas cs

-- `count_expected_files`
unfoldable pub count_expected_files : CText → ℕ
count_expected_files files = if is_empty files then 0 else 1 + commas files

abbrev pub is_space : ℕ → Bool
is_space c = c == b' ' || c == 9

abbrev pub is_space_or_end : ℕ → Bool
is_space_or_end c = is_space c || c == 13 || c == 10

unfoldable pub skip_start : CText → CText
skip_start [] = []
skip_start (c ∷ cs) = let rest = skip_start cs in if is_space c then rest else c ∷ cs

unfoldable pub cut_end : CText → CText
cut_end [] = []
cut_end (c ∷ cs) =
    let rest = cut_end cs in
    if is_space_or_end c then (if is_empty rest then [] else c ∷ rest) else c ∷ rest

-- `trim_local`
unfoldable pub trim_local : CText → CText
unfolding skip_start cut_end
trim_local s = cut_end (skip_start s)

take_whole : (n : ℕ) (s : CText) → length s ≤ n → take n s ≡ s
take_whole zero [] h = refl
take_whole zero (c ∷ s) h = absurd (omega arith)
take_whole (suc n) [] h = refl
take_whole (suc n) (c ∷ s) h = ap (◌∷◌ c) (take_whole n s (omega arith))

tried_snoc : (id : CText) (jobs : List CText) → auto_prov_already_tried id (jobs ++ id ∷ []) ≡ true
unfolding auto_prov_already_tried
tried_snoc id [] = rw (str_same_refl id) refl
tried_snoc id (x ∷ jobs) = ground (arith, tried_snoc id jobs)

-- After a job with an identifier of at most 36 bytes was marked, it counts as tried exactly if the table
-- had room for it or held it before: once 256 jobs are marked, no further job is remembered.
pub auto_prov_mark-tried :
    (id : CText) (jobs : List CText)
    → length id ≤ 36
    → auto_prov_already_tried id (auto_prov_mark id jobs)
      ≡ (ltb (length jobs) auto_prov_max || auto_prov_already_tried id jobs)
unfolding auto_prov_mark
auto_prov_mark-tried id jobs h = elim (Bool-cases (ltb (length jobs) auto_prov_max)) [
  | inl room ↦ rw (room, take_whole 36 id h) (tried_snoc id jobs)
  | inr full ↦ rw full refl
]
