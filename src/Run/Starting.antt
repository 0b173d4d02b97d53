-- ===== src/Run/Starting.antt =====
-- The start of the launcher in done_mod/mod_run/run_srv/LauncherService.go: the core and the plugins of
-- the folders, and the first starts.
pub mod Calls
use done_rest.Prelude.{
  ℕ, String, Bool, true, false, not, ◌&&◌, ◌≡◌, ◌⊎◌, inl, inr, refl, arith, Option, none, some,
  List, [], ◌∷◌, Dict, lookup, ltb, ◌==◌, if◌then◌else◌, Bool-cases, if_both,
}
use done_rest.Errors.{Error}
use done_rest.Run.{
  Launcher, PluginInfo, StartAnswer, no_status, add_plugin, put_plugin, start_plugin, is_running,
}
use done_rest.Run.Steps.{Step, starts, scans, Reach, later}

-- An entry of a folder, as os.ReadDir and its Info tell of it; `mode` is the bit 0100 of the mode.
pub record FileInfo : Type 0 where
  pub name : String
  pub info_error : Option Error
  pub is_dir : Bool
  pub mode : Bool
  pub size : ℕ
  pub mod_time : String

-- The loop of addPlugins.
unfoldable pub add_files : (String → String) → List FileInfo → Launcher → Launcher
unfolding add_plugin
add_files path_of [] svc = svc
add_files path_of (f ∷ files) svc = add_files path_of files (elim f.info_error [
  | some e ↦ svc
  | none ↦
      if not f.is_dir && f.mode && ltb 0 f.size
      then add_plugin f.name (path_of f.name) f.mod_time f.size svc
      else svc
])

-- ScanPlugins of the plugins folder; `path_of` joins it to a name.
unfoldable pub scan_plugins :
    (String → String) → List FileInfo ⊎ Error → Launcher → Launcher × Option Error
unfolding add_files
scan_plugins path_of (inr e) svc = (svc, some e)
scan_plugins path_of (inl files) svc = (add_files path_of files svc, none)

-- The entry of a plugin that was not known.
abbrev pub new_info : String → String → String → ℕ → PluginInfo
new_info name path modified size = record {
  name = name;
  path = path;
  modified_time = modified;
  size = size;
  cpu = 0;
  rss = 0;
  pid = 0;
  running = false;
  status = no_status;
  start_count = 0;
  start_time_mse = 0;
  stop_time_mse = 0;
}

-- What os.Stat tells of the core, with the path that it was asked for.
unfoldable pub add_core : String → String → FileInfo ⊎ Error → Launcher → Launcher × Option Error
unfolding put_plugin
add_core core_bin core_path (inr e) svc = (svc, some Error.core_not_found)
add_core core_bin core_path (inl f) svc = elim (lookup core_bin svc.plugins) [
  | some info ↦
      (put_plugin core_bin (record info { modified_time = f.mod_time; size = f.size }) svc, none)
  | none ↦ (put_plugin core_bin (new_info f.name core_path f.mod_time f.size) svc, none)
]

-- The configuration, and what the system answers during a start: the file of the core, the files of
-- the plugins folder, the start of each plugin, and the connection to the hub, which is made unless
-- the launcher was given one.
pub record Boot : Type 0 where
  pub core_bin : String
  pub core_path : String
  pub plugin_path : String → String
  pub autostart : List String
  pub core_info : FileInfo ⊎ Error
  pub plugin_files : List FileInfo ⊎ Error
  pub answers : String → StartAnswer
  pub connection : Option Error

module _ (boot : Boot) (now : ℕ) where
  -- Errors of a start are not looked at.
  autostart_all : List String → Launcher → Launcher
  unfolding start_plugin
  autostart_all [] svc = svc
  autostart_all (name ∷ names) svc =
      autostart_all names (start_plugin boot.core_bin now (boot.answers name) name svc).0

  started_core : Launcher × Option Error → Launcher × Option Error
  unfolding autostart_all
  started_core (svc, some e) = (svc, some e)
  started_core (svc, none) = elim boot.connection [
    | some e ↦ (svc, some e)
    | none ↦ (autostart_all boot.autostart svc, none)
  ]

  -- The core starts first, if it is a plugin.
  start_core : Launcher → Launcher × Option Error
  unfolding start_plugin
  start_core svc = elim (lookup boot.core_bin svc.plugins) [
    | none ↦ (svc, none)
    | some info ↦
        let (after, started, err) =
          start_plugin boot.core_bin now (boot.answers boot.core_bin) boot.core_bin svc in
        (after, err)
  ]

  scanned : Launcher × Option Error → Launcher × Option Error
  unfolding start_core started_core
  scanned (svc, some e) = (svc, some e)
  scanned (svc, none) = started_core (start_core svc)

  with_core : Launcher × Option Error → Launcher × Option Error
  unfolding scanned scan_plugins
  with_core (svc, some e) = (svc, some e)
  with_core (svc, none) = scanned (scan_plugins boot.plugin_path boot.plugin_files svc)

  -- The watching of the folders is left out.
  unfoldable pub start : Launcher → Launcher × Option Error
  unfolding with_core add_core
  start svc = with_core (
      if boot.core_bin == ""
      then (svc, none)
      else add_core boot.core_bin boot.core_path boot.core_info svc)
