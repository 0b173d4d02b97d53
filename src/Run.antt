-- ===== src/Run.antt =====
-- done_mod/mod_run/run_srv: the plugins of the launcher and their processes, in LauncherService.go and
-- StartStopPlugins.go.
pub mod Steps
pub mod Invariant
pub mod Preserved
pub mod Reached
pub mod Processes
pub mod Starting
use done_rest.Prelude.{
  ℕ, ◌+◌, String, Bool, true, false, not, ◌||◌, ◌&&◌, Option, none, some, List, [], ◌∷◌, ◌++◌, map,
  Dict, lookup, insert, eqb, ltb, ◌==◌, ◌/=◌, if◌then◌else◌,
}
use done_rest.Errors.{Error}

pub data Status : Type 0 where
  no_status stopped_by_user exited_by_itself : Status
  failed_starting stopped_with stop_failed : Error → Status

pub record PluginInfo : Type 0 where
  pub name : String
  pub path : String
  pub modified_time : String
  pub size : ℕ
  pub cpu : ℕ
  pub rss : ℕ
  pub pid : ℕ
  pub running : Bool
  pub status : Status
  pub start_count : ℕ
  pub start_time_mse : ℕ
  pub stop_time_mse : ℕ

-- A started command, told apart from every other one by its number, with the plugin that the
-- goroutine which waits for its end updates.
pub record Cmd : Type 0 where
  pub number : ℕ
  pub plugin_name : String
  pub cmd_path : String
  pub process_pid : ℕ

-- `waiting` are the commands whose goroutine has not run yet, and `added` the names of the services
-- that were added to the auth service.
pub record Launcher : Type 0 where
  pub plugins : Dict PluginInfo
  pub cmds : List Cmd
  pub waiting : List Cmd
  pub started : ℕ
  pub added : List String

-- What the operating system answers to a start: its error, the PID, what is known after the wait of
-- 100 milliseconds, and the use of memory and processor.
pub record StartAnswer : Type 0 where
  pub start_error : Option Error
  pub new_pid : ℕ
  pub early_end : Option Error
  pub usage : Option (ℕ × ℕ)

unfoldable pub update_status : Option (ℕ × ℕ) → PluginInfo → PluginInfo
update_status none info = if eqb info.pid 0 then info else record info { rss = 0; cpu = 0 }
update_status (some (memory, processor)) info =
    if eqb info.pid 0 then info else record info { rss = memory; cpu = processor }

unfoldable pub process_exists : String → List Cmd → Bool
process_exists path [] = false
process_exists path (c ∷ later) = c.cmd_path == path || process_exists path later

-- The core has no client of its own.
unfoldable pub add_service : String → String → List String → List String
add_service core_bin name added = if name /= core_bin then added ++ name ∷ [] else added

unfoldable pub put_plugin : String → PluginInfo → Launcher → Launcher
put_plugin name info svc = record svc { plugins = insert name info svc.plugins }

-- The end of a start, with the command of the plugin.
unfoldable pub start_command :
    ℕ → StartAnswer → String → PluginInfo → Launcher → Launcher × Option PluginInfo × Option Error
unfolding update_status put_plugin
start_command now answer name info svc = elim answer.start_error [
  | some e ↦
      let failed : PluginInfo = record info { status = failed_starting e } in
      (put_plugin name failed svc, some failed, some e)
  | none ↦
      let cmd : Cmd = record {
        number = svc.started;
        plugin_name = name;
        cmd_path = info.path;
        process_pid = answer.new_pid;
      } in
      let running : PluginInfo = record info {
        start_time_mse = now;
        pid = answer.new_pid;
        status = no_status;
        start_count = info.start_count + 1;
        running = true;
      } in
      let updated = update_status answer.usage running in
      (
        record (put_plugin name updated svc) {
          cmds = svc.cmds ++ cmd ∷ [];
          waiting = svc.waiting ++ cmd ∷ [];
          started = svc.started + 1;
        },
        some updated,
        answer.early_end,
      )
]

unfoldable pub start_known :
    String
    → ℕ
    → StartAnswer
    → String
    → PluginInfo
    → Launcher
    → Launcher × Option PluginInfo × Option Error
unfolding start_command process_exists add_service
start_known core_bin now answer name info svc =
    if info.running
    then (svc, some info, none)
    else if process_exists info.path svc.cmds
    then (svc, some info, some Error.process_exists_already)
    else start_command now answer name info
        (record svc { added = add_service core_bin name svc.added })

-- `_startPlugin`. Errors of the key, the service and the token file are logged only.
unfoldable pub start_plugin :
    String → ℕ → StartAnswer → String → Launcher → Launcher × Option PluginInfo × Option Error
unfolding start_known
start_plugin core_bin now answer name svc = elim (lookup name svc.plugins) [
  | none ↦ (svc, none, some Error.plugin_not_found)
  | some info ↦ start_known core_bin now answer name info svc
]

-- The list without the command of the number.
unfoldable pub drop_cmd : ℕ → List Cmd → List Cmd
drop_cmd number [] = []
drop_cmd number (c ∷ later) =
    let rest = drop_cmd number later in if eqb c.number number then later else c ∷ rest

unfoldable pub has_cmd : ℕ → List Cmd → Bool
has_cmd number [] = false
has_cmd number (c ∷ later) = eqb c.number number || has_cmd number later

unfoldable pub end_status : Option Error → Status
end_status none = exited_by_itself
end_status (some e) = stopped_with e

-- The goroutine of a command, once its process ended; `none` for the panic on an index of -1.
unfoldable pub ended : ℕ → Option Error → Option (ℕ × ℕ) → Cmd → Launcher → Option Launcher
unfolding update_status put_plugin end_status drop_cmd has_cmd
ended now failure usage cmd svc =
    let rest : Launcher = record svc {
      cmds = drop_cmd cmd.number svc.cmds;
      waiting = drop_cmd cmd.number svc.waiting;
    } in
    if has_cmd cmd.number svc.cmds
    then elim (lookup cmd.plugin_name svc.plugins) [
      | none ↦ some rest
      | some info ↦
          let over : PluginInfo = record info {
            stop_time_mse = now;
            running = false;
            status = end_status failure;
          } in
          some (put_plugin cmd.plugin_name (update_status usage over) rest)
    ]
    else none

unfoldable pub stop_status : Option Error → Status
stop_status none = stopped_by_user
stop_status (some e) = stop_failed e

-- `failure` is what stopping the process answers.
unfoldable pub stop_plugin :
    Option Error → String → Launcher → Launcher × Option PluginInfo × Option Error
unfolding put_plugin stop_status
stop_plugin failure name svc = elim (lookup name svc.plugins) [
  | none ↦ (svc, none, some Error.plugin_not_found)
  | some info ↦
      let over : PluginInfo = record info { running = false; status = stop_status failure } in
      (put_plugin name over svc, some over, failure)
]

-- A file of the plugins folder, which is an executable file with a size.
unfoldable pub add_plugin : String → String → String → ℕ → Launcher → Launcher
unfolding put_plugin
add_plugin name path modified size svc = elim (lookup name svc.plugins) [
  | some info ↦ put_plugin name (record info { modified_time = modified; size = size }) svc
  | none ↦
      put_plugin name
        (record {
          name = name;
          path = path;
          modified_time = modified;
          size = size;
          cpu = 0;
          rss = 0;
          pid = 0;
          running = false;
          status = no_status;
          start_count = 0;
          start_time_mse = 0;
          stop_time_mse = 0;
        })
        svc
]

unfoldable pub is_running : String → Dict PluginInfo → Bool
is_running name plugins = elim (lookup name plugins) [ none ↦ false | some info ↦ info.running ]

unfoldable pub later_error : Option Error → Option Error → Option Error
later_error err none = err
later_error err (some e) = some e

-- The loop over the autostart list, which skips what runs; the last error is returned.
unfoldable pub start_listed :
    String
    → ℕ
    → (String → StartAnswer)
    → List String
    → Launcher × Option Error
    → Launcher × Option Error
unfolding start_plugin
start_listed core_bin now answers [] (svc, err) = (svc, err)
start_listed core_bin now answers (name ∷ names) (svc, err) = elim (is_running name svc.plugins) [
  | true ↦ start_listed core_bin now answers names (svc, err)
  | false ↦
      let (after, info, err2) = start_plugin core_bin now (answers name) name svc in
      start_listed core_bin now answers names (after, later_error err err2)
]

-- The remaining plugins are those of the map.
unfoldable pub start_all_plugins :
    String → ℕ → (String → StartAnswer) → List String → Launcher → Launcher × Option Error
unfolding start_listed
start_all_plugins core_bin now answers autostart svc =
    let (after, err) = start_listed core_bin now answers autostart (svc, none) in
    start_listed core_bin now answers (map (λ entry. entry.0) after.plugins) (after, err)

-- The commands that StopAllPlugins stops, from the last one on; `has_suffix` is strings.HasSuffix.
unfoldable pub stop_targets : (String → String → Bool) → Bool → String → List Cmd → List Cmd
stop_targets has_suffix including_core core_bin [] = []
stop_targets has_suffix including_core core_bin (c ∷ newer) =
    let last = stop_targets has_suffix including_core core_bin newer in
    if not including_core && core_bin /= "" && has_suffix c.cmd_path core_bin
    then last
    else last ++ c ∷ []

-- Each stop replaces the error of the one before.
unfoldable pub last_stop : (Cmd → Option Error) → List Cmd → Option Error → Option Error
last_stop stop [] err = err
last_stop stop (c ∷ later) err = last_stop stop later (stop c)

unfoldable pub stop_all_plugins :
    (String → String → Bool)
    → (Cmd → Option Error)
    → Bool
    → String
    → Launcher
    → List Cmd × Option Error
unfolding stop_targets last_stop
stop_all_plugins has_suffix stop including_core core_bin svc =
    let targets = stop_targets has_suffix including_core core_bin svc.cmds in
    (targets, last_stop stop targets none)
