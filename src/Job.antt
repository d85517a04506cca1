-- ===== src/Job.antt =====
-- include/job.h and the pure parts of src/core/job.c: the job record, its status, its identifier.
-- A `char` field is a byte string without its NUL; `int` is ℤ; `time_t` is a number of seconds, with
-- 0 for "not set".
use bhc_scheduler.Common.{
  ℕ, ◌+◌, ◌/◌, ◌%◌, Bool, true, false, ◌||◌, List, [], ◌∷◌, ◌++◌, ltb, if◌then◌else◌,
}
use bhc_scheduler.Common.Int.{ℤ, pos}
use bhc_scheduler.Common.Text.{CText, c_text}

-- `starting` is the value 1, which the enum no longer names: rows from before version 1 may have it.
pub data JobStatus : Type 0 where
  queued running succeeded cancelled failed created starting : JobStatus

pub JobStatus-discrete : Discrete JobStatus
JobStatus-discrete = hlevel

abbrev pub same_status : JobStatus → JobStatus → Bool
same_status queued queued = true
same_status running running = true
same_status succeeded succeeded = true
same_status cancelled cancelled = true
same_status failed failed = true
same_status created created = true
same_status starting starting = true
same_status _ _ = false

pub record Job : Type 0 where
  pub id : CText
  pub command : CText
  pub user_id : CText
  pub app_id : CText
  pub status : JobStatus
  pub priority : ℤ
  pub req_cores : ℤ
  pub req_gpu : ℤ
  pub req_ram_mb : ℤ
  pub req_disk_mb : ℤ
  pub machine_id : CText
  pub input_dir : CText
  pub output_dir : CText
  pub input_files : CText
  pub submitted_at : ℕ
  pub started_at : ℕ
  pub ended_at : ℕ
  pub exit_code : ℤ
  pub timeout_seconds : ℤ
  pub status_reason : CText
  pub depends_on : CText
  pub workflow_id : CText
  pub batch_id : CText
  pub same_machine_as : CText

-- A job whose every field is zero, as `calloc` leaves it (`JOB_STATUS_QUEUED` is 0).
abbrev pub zeroed_job : Job
zeroed_job = record {
  id = [];
  command = [];
  user_id = [];
  app_id = [];
  status = queued;
  priority = pos 0;
  req_cores = pos 0;
  req_gpu = pos 0;
  req_ram_mb = pos 0;
  req_disk_mb = pos 0;
  machine_id = [];
  input_dir = [];
  output_dir = [];
  input_files = [];
  submitted_at = 0;
  started_at = 0;
  ended_at = 0;
  exit_code = pos 0;
  timeout_seconds = pos 0;
  status_reason = [];
  depends_on = [];
  workflow_id = [];
  batch_id = [];
  same_machine_as = [];
}

-- The `switch` of `transition_allowed`; `default` takes the terminal states.
unfoldable pub transition_allowed : JobStatus → JobStatus → Bool
transition_allowed created to = same_status to queued || same_status to cancelled
transition_allowed queued to =
    same_status to running || same_status to failed || same_status to cancelled
transition_allowed running to =
    same_status to succeeded || same_status to failed || same_status to cancelled
transition_allowed _ to = false

unfoldable pub job_status_str : JobStatus → CText
job_status_str created = c_text "CREATED"
job_status_str queued = c_text "QUEUED"
job_status_str running = c_text "RUNNING"
job_status_str succeeded = c_text "SUCCEEDED"
job_status_str cancelled = c_text "CANCELLED"
job_status_str failed = c_text "FAILED"
job_status_str starting = c_text "UNKNOWN"

-- `status IN (1,2)`, in the statements of the database.
abbrev pub is_under_way : JobStatus → Bool
is_under_way status = same_status status starting || same_status status running

-- `%x` of a number below 16, and `%02x` of a byte.
unfoldable pub hex_digit : ℕ → ℕ
hex_digit n = if ltb n 10 then 48 + n else 87 + n

abbrev pub hex_byte : ℕ → CText
hex_byte b = hex_digit (b / 16) ∷ hex_digit (b % 16) ∷ []

-- The bytes of a field printed one after the other.
abbrev pub hex_bytes : List ℕ → CText
hex_bytes [] = []
hex_bytes (b ∷ bs) = hex_byte b ++ hex_bytes bs

-- `gen_uuid` on the 16 bytes read from /dev/urandom:
-- `b[6] = (b[6] & 0x0f) | 0x40`, `b[8] = (b[8] & 0x3f) | 0x80`, printed as 8-4-4-4-12.
unfoldable pub gen_uuid : (ℕ → ℕ) → CText
unfolding hex_digit
gen_uuid b =
    hex_bytes (b 0 ∷ b 1 ∷ b 2 ∷ b 3 ∷ [])
    ++ dash (
        hex_bytes (b 4 ∷ b 5 ∷ [])
        ++ dash (
            hex_bytes ((64 + b 6 % 16) ∷ b 7 ∷ [])
            ++ dash (
                hex_bytes ((128 + b 8 % 64) ∷ b 9 ∷ [])
                ++ dash (hex_bytes (b 10 ∷ b 11 ∷ b 12 ∷ b 13 ∷ b 14 ∷ b 15 ∷ [])))))
  where
    dash : CText → CText
    dash rest = b'-' ∷ rest
