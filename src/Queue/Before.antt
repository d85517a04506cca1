-- ===== src/Queue/Before.antt =====
-- `job_before` is a strict order on jobs that differ in priority, submission time or identifier.
use bhc_scheduler.Common.{◌≡◌, true, false, arith}
use bhc_scheduler.Common.Int.{eq_of_parts}
use bhc_scheduler.Common.Text.{str_before_asym, str_before_trans, str_before_total}
use bhc_scheduler.Job.{Job}
use bhc_scheduler.Queue.{job_before}

-- `b` does not come before `a`.
infix 50 ◌≼◌
abbrev pub ◌≼◌ : Job → Job → Type 0
a ≼ b = job_before b a ≡ false

pub job_before_asym : (a b : Job) → job_before a b ≡ true → a ≼ b
unfolding job_before
job_before_asym a b h = ground (arith, str_before_asym a.id b.id)

pub ≼_trans : (a b c : Job) → a ≼ b → b ≼ c → a ≼ c
unfolding job_before
≼_trans a b c h k = ground (arith, str_before_trans a.id b.id c.id)

pub ≼_refl : (a : Job) → a ≼ a
unfolding job_before
≼_refl a = ground (arith, str_before_asym a.id a.id)

-- Two jobs of which neither comes before the other agree in all that is compared.
pub ≼_antisym :
    (a b : Job)
    → a ≼ b
    → b ≼ a
    → (a.priority ≡ b.priority) × (a.submitted_at ≡ b.submitted_at) × (a.id ≡ b.id)
unfolding job_before
≼_antisym a b h k = ground (arith, eq_of_parts a.priority b.priority, str_before_total a.id b.id)
