-- ===== src/Tests/Run.antt =====
-- A launcher with one plugin that was started.
use done_rest.Prelude.{
  if◌then◌else◌, ℕ, ltb, ◌++◌, inl, true, false, ◌≡◌, refl, none, some, [], ◌∷◌, lookup, insert,
}
use done_rest.Errors.{Error}
use done_rest.Run.{
  Launcher, PluginInfo, StartAnswer, Cmd, no_status, stopped_by_user, start_plugin, stop_plugin,
  ended, add_plugin, put_plugin, stop_status,
}
use done_rest.Run.Steps.{new_launcher, starts, scans, Reach, fresh, later}
use done_rest.Run.Invariant.{IsLaunched}
use done_rest.Run.Starting.{FileInfo, Boot}
use done_rest.Run.Processes.{terminate, probe, kill, probes, Waits, stop, stop_lem}
use done_rest.Run.Reached.{Reach-IsLaunched, Reach-ended, start_plugin-stop_plugin}

abbrev quick_start : StartAnswer
quick_start = record { start_error = none; new_pid = 7; early_end = none; usage = none }

abbrev started_info : PluginInfo
started_info = record {
  name = "state";
  path = "plugins/state";
  modified_time = "";
  size = 1;
  cpu = 0;
  rss = 0;
  pid = 7;
  running = true;
  status = no_status;
  start_count = 1;
  start_time_mse = 5;
  stop_time_mse = 0;
}

abbrev state_cmd : Cmd
state_cmd = record {
  number = 0;
  plugin_name = "state";
  cmd_path = "plugins/state";
  process_pid = 7;
}

abbrev launched : Launcher
launched = record {
  plugins = ("state", started_info) ∷ [];
  cmds = state_cmd ∷ [];
  waiting = state_cmd ∷ [];
  started = 1;
  added = "state" ∷ [];
}

abbrev found_state : Launcher
found_state = record new_launcher {
  plugins =
      (
        "state",
        record started_info { pid = 0; running = false; start_count = 0; start_time_mse = 0 },
      )
      ∷ [];
}

-- It is found in the folder and then started.
launched-Reach : Reach "core" launched
unfolding new_launcher add_plugin put_plugin start_plugin lookup insert
launched-Reach =
    later {svc = found_state}
      (later {svc = new_launcher} fresh (scans "state" "plugins/state" "" 1 refl))
      (starts 5 quick_start "state" refl)

Reach-IsLaunched_example : IsLaunched launched
Reach-IsLaunched_example = Reach-IsLaunched launched-Reach

Reach-ended_example :
    (after : Launcher) × (ended 9 none none state_cmd launched ≡ some after) × (after.cmds ≡ [])
Reach-ended_example = Reach-ended 9 none none [] [] state_cmd launched launched-Reach refl

start_plugin-stop_plugin_example :
    let stopped = (stop_plugin none "state" launched).0 in
    (start_plugin "core" 9 quick_start "state" launched ≡ (launched, some started_info, none))
    × (start_plugin "core" 9 quick_start "state" stopped ≡ (
      stopped,
      some (record started_info { running = false; status = stopped_by_user }),
      some Error.process_exists_already,
    ))
unfolding lookup stop_status
start_plugin-stop_plugin_example =
    start_plugin-stop_plugin 9 quick_start none "state" started_info [] [] state_cmd launched
      launched-Reach refl refl refl

abbrev core_file : FileInfo
core_file = record {
  name = "core";
  info_error = none;
  is_dir = false;
  mode = true;
  size = 9;
  mod_time = "";
}

-- The core is there, and the folder of plugins has the state service, which is to start too.
abbrev boot : Boot
boot = record {
  core_bin = "core";
  core_path = "bin/core";
  plugin_path = λ name. name;
  autostart = "state" ∷ [];
  core_info = inl core_file;
  plugin_files = inl (
      record core_file { name = "state" }
      ∷ record core_file { name = "README"; mode = false }
      ∷ []);
  answers = λ name. quick_start;
  connection = none;
}

stop_lem_example :
    (n : ℕ) × Waits (λ n. ltb n 3) n
    × (stop true (λ n. ltb n 3) none ≡ (
      terminate ∷ (probes n ++ probe ∷ (if ltb n 3 then kill ∷ [] else [])),
      if ltb n 3 then none else none,
    ))
stop_lem_example = stop_lem (λ n. ltb n 3) none
