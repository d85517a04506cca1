-- ===== src/Executor/Script.antt =====
-- src/core/executor.c: the texts that reach a shell: the run script, the options of ssh and scp, the
-- address of a machine. A buffer of `n` bytes that `snprintf` fills holds at most n - 1 of them.
use bhc_scheduler.Common.{
  ℕ, ◌+◌, ◌-◌, Bool, true, false, ◌&&◌, ◌||◌, Option, none, some, List, [], ◌∷◌, ◌++◌, ltb, leb,
  ◌==◌, take, if◌then◌else◌,
}
use bhc_scheduler.Common.Text.{CText, c_text, str_same, copy_field, is_empty, has_text}
use bhc_scheduler.Job.{Job}
use bhc_scheduler.Registry.{Machine, registry_get_copy}
use bhc_scheduler.Executor.{ExecConfig}

-- `case '\\': case '"': case '$': case '`': case '!':`
unfoldable pub is_special : ℕ → Bool
is_special c = c == 92 || c == 34 || c == 36 || c == 96 || c == 33

-- `shell_escape` from the `j`-th byte of the buffer on, with the buffer's length.
unfoldable pub escape_from : ℕ → ℕ → CText → CText
unfolding is_special
escape_from dst_len j [] = []
escape_from dst_len j (c ∷ src) =
    let escaped = escape_from dst_len (j + 2) src in
    let skipped = escape_from dst_len j src in
    let kept = escape_from dst_len (j + 1) src in
    if ltb (j + 2) dst_len
    then (if is_special c then 92 ∷ c ∷ escaped else if c == 10 then skipped else c ∷ kept)
    else []

-- `shell_escape`
unfoldable pub shell_escape : ℕ → CText → CText
unfolding escape_from
shell_escape dst_len src = escape_from dst_len 0 src

abbrev between : ℕ → ℕ → ℕ → Bool
between low high c = leb low c && leb c high

unfoldable pub is_letter : ℕ → Bool
is_letter c = c == 95 || between 65 90 c || between 97 122 c

unfoldable pub all_key_bytes : CText → Bool
unfolding is_letter
all_key_bytes [] = true
all_key_bytes (c ∷ cs) = (is_letter c || between 48 57 c) && all_key_bytes cs

-- `valid_env_key`
unfoldable pub valid_env_key : CText → Bool
unfolding is_letter all_key_bytes
valid_env_key [] = false
valid_env_key (c ∷ cs) = is_letter c && all_key_bytes cs

abbrev is_local_name : CText → Bool
is_local_name host =
    str_same host (c_text "localhost")
    || str_same host (c_text "127.0.0.1")
    || str_same host (c_text "::1")

abbrev address_of : CText → Option Machine → CText
address_of machine_id none = machine_id
address_of machine_id (some m) =
    if has_text m.ip then m.ip else if has_text m.hostname then m.hostname else machine_id

-- `machine_host` with a buffer of 256 bytes: whether the target is local, and its address.
unfoldable pub machine_host : CText → List Machine → Bool × CText
machine_host machine_id ms =
    if is_empty machine_id
    then (true, c_text "localhost")
    else (let out = copy_field 256 (address_of machine_id (registry_get_copy machine_id ms)) in
        (is_local_name out, out))

abbrev pub printed : ℕ → CText → CText
printed size text = take (size - 1) text

abbrev ssh_settings : CText
ssh_settings =
    c_text
      "-o BatchMode=yes -o PasswordAuthentication=no -o StrictHostKeyChecking=accept-new -o UserKnownHostsFile="

abbrev keep_alive_settings : CText
keep_alive_settings =
    c_text
      " -o LogLevel=ERROR -o ConnectTimeout=10 -o ServerAliveInterval=15 -o ServerAliveCountMax=2"

-- `build_ssh_opts`
pub build_ssh_opts : ExecConfig → CText → CText
build_ssh_opts config known_hosts =
    let hosts =
      known_hosts ++ c_text " -o GlobalKnownHostsFile=" ++ known_hosts ++ keep_alive_settings in
    if has_text config.ssh_key
    then printed 512 (c_text "-i \"" ++ config.ssh_key ++ c_text "\" " ++ ssh_settings ++ hosts)
    else printed 512 (ssh_settings ++ hosts)

-- "export KEY=\"VALUE\"\n"
abbrev export_line : CText → CText → CText
export_line key value = c_text "export " ++ key ++ c_text "=\"" ++ value ++ c_text "\"" ++ 10 ∷ []

-- The members of .app_env.json, with the value of those that are strings.
abbrev env_lines : List (CText × Option CText) → CText
env_lines [] = []
env_lines ((key, none) ∷ rest) = env_lines rest
env_lines ((key, some value) ∷ rest) =
    if valid_env_key key
    then export_line key (shell_escape 4096 value) ++ env_lines rest
    else env_lines rest

-- What `write_run_script` writes, for the members that cJSON finds in .app_env.json: none where the
-- file is missing, is empty, has 64 KiB or more, or is no JSON.
pub run_script : List (CText × Option CText) → CText → CText → Job → CText
run_script app_env remote_input remote_output j =
    let worker = shell_escape 512 j.machine_id in
    c_text "#!/bin/sh"
    ++ 10 ∷ export_line (c_text "ORCH_JOB_ID") j.id
    ++ export_line (c_text "ORCH_INPUT_DIR") remote_input
    ++ export_line (c_text "ORCH_OUTPUT_DIR") remote_output
    ++ export_line (c_text "ORCH_WORKER_ID") worker
    ++ export_line (c_text "ORCH_MACHINE_IDS") worker
    ++ export_line (c_text "ORCH_MACHINE_COUNT") (c_text "1")
    ++ env_lines app_env
    ++ c_text "mkdir -p \"$ORCH_OUTPUT_DIR\""
    ++ 10 ∷ c_text "cd \"$ORCH_OUTPUT_DIR\""
    ++ 10 ∷ c_text "exec "
    ++ j.command
    ++ 10 ∷ []

-- `write_run_script`: the path of the script and its text, or none if it cannot be opened.
pub write_run_script :
    Bool → List (CText × Option CText) → CText → CText → Job → Option (CText × CText)
write_run_script writable app_env remote_input remote_output j =
    if writable
    then some (
      printed 512 (j.input_dir ++ c_text "/.run.sh"),
      run_script app_env remote_input remote_output j,
    )
    else none
