-- ===== src/Executor/Process.antt =====
-- src/core/executor.c (POSIX): how a job gets a process, on this host or over ssh.
-- `Host` says how the calls of the operating system end; what happens in the child after `fork` is
-- outside the model.
use bhc_scheduler.Common.{
  ℕ, Bool, true, false, not, Option, none, some, List, [], ◌++◌, if◌then◌else◌,
}
use bhc_scheduler.Common.Text.{CText, c_text, copy_field, has_text}
use bhc_scheduler.Common.Rc.{Rc, ok, error}
use bhc_scheduler.Executor.{
  ActiveExecution, ExecConfig, ExecSystem, active_set_process, active_clear_process, kill,
}
use bhc_scheduler.Executor.Script.{machine_host, printed, build_ssh_opts, write_run_script}
use bhc_scheduler.Executor.Watch.{WatchArg}

-- `system_ok` is a command's exit code 0; `fork` is the child's process; `thread_ok` is the result of
-- `pthread_create`.
pub record Host : Type 0 where
  pub wordexp_ok : CText → Bool
  pub system_ok : CText → Bool
  pub fork : Option ℕ
  pub watch_memory : Bool
  pub thread_ok : Bool
  pub script_writable : Bool
  pub app_env : List (CText × Option CText)

-- The end of both branches of `spawn_process`: the watcher is started, or the process is killed.
unfoldable pub start_watcher :
    Host → ActiveExecution → WatchArg → ExecSystem → Rc × Option WatchArg × ExecSystem
unfolding active_set_process active_clear_process
start_watcher host e wa s =
    let running_process = active_set_process e wa.pid s in
    if not host.watch_memory
    then (error, none, kill wa.pid s)
    else if host.thread_ok
    then (ok, some wa, running_process)
    else (error, none, active_clear_process e (kill wa.pid running_process))

abbrev pub forked :
    Host
    → ActiveExecution
    → (ℕ → WatchArg)
    → Option ℕ
    → ExecSystem
    → Rc × Option WatchArg × ExecSystem
forked host e wa none s = (error, none, s)
forked host e wa (some pid) s = start_watcher host e (wa pid) s

abbrev local_watch : ActiveExecution → ℕ → WatchArg
local_watch e pid = record {
  execution = e.handle;
  pid = pid;
  is_remote = false;
  remote_host = [];
  remote_output = [];
  known_hosts_path = [];
}

-- `spawn_process` on this host.
unfoldable pub spawn_local : Host → ActiveExecution → ExecSystem → Rc × Option WatchArg × ExecSystem
unfolding start_watcher
spawn_local host e s =
    if host.wordexp_ok e.job.command
    then forked host e (local_watch e) host.fork s
    else (error, none, s)

-- The texts of the remote branch.
pub record Remote : Type 0 where
  pub known_hosts_path : CText
  pub ssh_opts : CText
  pub target : CText
  pub base : CText
  pub input : CText
  pub output : CText

pub remote_of : ExecConfig → CText → CText → Remote
remote_of config host id =
    let tmp = if has_text config.temp_dir then config.temp_dir else c_text "/tmp" in
    let known_hosts = printed 512 (tmp ++ c_text "/orch-" ++ id ++ c_text ".kh") in
    let work = config.ssh_remote_work_dir ++ c_text "/" ++ id in
    record {
      known_hosts_path = known_hosts;
      ssh_opts = build_ssh_opts config known_hosts;
      target = config.ssh_user ++ c_text "@" ++ host;
      base = printed 512 work;
      input = printed 512 (work ++ c_text "/input");
      output = printed 512 (work ++ c_text "/output");
    }

pub mkdir_command : Remote → CText
mkdir_command r = printed 1024 (
    c_text "ssh "
    ++ r.ssh_opts
    ++ c_text " "
    ++ r.target
    ++ c_text " \"mkdir -p '"
    ++ r.base
    ++ c_text "/input' '"
    ++ r.base
    ++ c_text "/output'\"")

pub upload_command : Remote → CText → CText
upload_command r script = printed 1024 (
    c_text "scp "
    ++ r.ssh_opts
    ++ c_text " '"
    ++ script
    ++ c_text "' "
    ++ r.target
    ++ c_text ":"
    ++ r.base
    ++ c_text "/.run.sh")

pub ssh_command : ExecConfig → Remote → CText
ssh_command config r =
    let shell = if has_text config.ssh_shell then config.ssh_shell else c_text "sh" in
    printed 1024 (
      c_text "ssh "
      ++ r.ssh_opts
      ++ c_text " "
      ++ r.target
      ++ c_text " \""
      ++ shell
      ++ c_text " '"
      ++ r.base
      ++ c_text "/.run.sh'\"")

abbrev remote_watch : Remote → CText → ActiveExecution → ℕ → WatchArg
remote_watch r host e pid = record {
  execution = e.handle;
  pid = pid;
  is_remote = true;
  remote_host = copy_field 256 host;
  remote_output = copy_field 512 r.output;
  known_hosts_path = copy_field 512 r.known_hosts_path;
}

abbrev pub script_written :
    Host
    → CText
    → Remote
    → ActiveExecution
    → ExecSystem
    → Option (CText × CText)
    → Rc × Option WatchArg × ExecSystem
script_written host name r e s none = (error, none, s)
script_written host name r e s (some (path, _)) =
    if not (host.system_ok (upload_command r path))
    then (error, none, s)
    else if not (host.wordexp_ok (ssh_command s.config r))
    then (error, none, s)
    else forked host e (remote_watch r name e) host.fork s

-- `spawn_process` over ssh. The copy of the input may fail.
unfoldable pub spawn_remote :
    Host → CText → ActiveExecution → ExecSystem → Rc × Option WatchArg × ExecSystem
unfolding start_watcher
spawn_remote host name e s =
    let r = remote_of s.config name e.job.id in
    if host.system_ok (mkdir_command r)
    then script_written host name r e s
        (write_run_script host.script_writable host.app_env r.input r.output e.job)
    else (error, none, s)

-- `spawn_process`: on this host where the machine is local or no ssh user is set.
unfoldable pub spawn_process :
    Host → ActiveExecution → ExecSystem → Rc × Option WatchArg × ExecSystem
unfolding spawn_local spawn_remote
spawn_process host e s =
    let (is_local, name) = machine_host e.job.machine_id s.alloc.machines in
    if is_local
    then spawn_local host e s
    else if has_text s.config.ssh_user
    then spawn_remote host name e s
    else spawn_local host e s
