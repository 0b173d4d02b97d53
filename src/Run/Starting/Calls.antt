-- ===== src/Run/Starting/Calls.antt =====
-- What a start of the launcher calls, in done_mod/mod_run/run_srv/LauncherService.go.
use done_rest.Prelude.{
  ℕ, String, Bool, false, ◌≡◌, ◌≢◌, inl, inr, refl, ap, ◌∙◌, Option, none, some, List, [], ◌∷◌, map,
  lookup, Option-cases, Bool-cases, not, ◌&&◌, ltb, if◌then◌else◌, ne→false,
}
use done_rest.Errors.{Error}
use done_rest.Run.{Launcher, StartAnswer, add_plugin, put_plugin, start_plugin}
use done_rest.Run.Starting.{
  FileInfo, Boot, new_info, add_files, scan_plugins, add_core, autostart_all, started_core,
  start_core, scanned, with_core, start,
}

-- The scan of a file of a path, or the start of a plugin, with the answer of the system.
pub data Call : Type 0 where
  scan : String → String → FileInfo → Call
  launch : String → StartAnswer → Call

unfoldable pub run : String → ℕ → List Call → Launcher → Launcher
run core_bin now [] svc = svc
run core_bin now (scan name path f ∷ calls) svc =
    run core_bin now calls (add_plugin name path f.mod_time f.size svc)
run core_bin now (launch name answer ∷ calls) svc =
    run core_bin now calls (start_plugin core_bin now answer name svc).0

-- A readable file that is no folder, can be executed and is not empty.
unfoldable pub is_plugin : FileInfo → Bool
is_plugin f = elim f.info_error [ some e ↦ false | none ↦ not f.is_dir && f.mode && ltb 0 f.size ]

-- The scans of the plugins in a folder.
unfoldable pub plugin_scans : (String → String) → List FileInfo → List Call
unfolding is_plugin
plugin_scans path_of [] = []
plugin_scans path_of (f ∷ files) =
    let rest = plugin_scans path_of files in
    if is_plugin f then scan f.name (path_of f.name) f ∷ rest else rest

run-plugin_scans :
    (core_bin : String) (now : ℕ) (path_of : String → String) (files : List FileInfo)
    (svc : Launcher)
    → add_files path_of files svc ≡ run core_bin now (plugin_scans path_of files) svc
unfolding add_files run plugin_scans is_plugin
run-plugin_scans core_bin now path_of [] svc = refl
run-plugin_scans core_bin now path_of (f ∷ files) svc = elim (Option-cases f.info_error) [
  | inr (e, failed) ↦ rw failed (run-plugin_scans core_bin now path_of files svc)
  | inl readable ↦ rw readable (elim (Bool-cases (not f.is_dir && f.mode && ltb 0 f.size)) [
    | inl fits ↦ rw fits (run-plugin_scans core_bin now path_of files _)
    | inr other ↦ rw other (run-plugin_scans core_bin now path_of files svc)
  ])
]

found_core : String → String → FileInfo → Launcher → String → Launcher × Option Error
found_core core_bin core_path f svc name =
    (put_plugin core_bin (new_info name core_path f.mod_time f.size) svc, none)

add_core-scan :
    (core_bin core_path : String) (f : FileInfo) (svc : Launcher)
    → f.name ≡ core_bin
    → add_core core_bin core_path (inl f) svc
      ≡ (add_plugin core_bin core_path f.mod_time f.size svc, none)
unfolding add_core add_plugin found_core
add_core-scan core_bin core_path f svc named = elim (Option-cases (lookup core_bin svc.plugins)) [
  | inl missing ↦
      rw (missing, add_core, add_plugin) (ap (found_core core_bin core_path f svc) named)
  | inr (info, found) ↦ rw (found, add_core, add_plugin) refl
]

module _ (boot : Boot) (now : ℕ) where
  abbrev pub launches : String → Call
  launches name = launch name (boot.answers name)

  autostart_all-run :
      (names : List String) (svc : Launcher)
      → autostart_all boot now names svc ≡ run boot.core_bin now (map launches names) svc
  unfolding autostart_all run
  autostart_all-run [] svc = refl
  autostart_all-run (name ∷ names) svc = autostart_all-run names _

  launched : Launcher → Launcher
  launched svc = (start_plugin boot.core_bin now (boot.answers boot.core_bin) boot.core_bin svc).0

  start_core-launch :
      (svc : Launcher)
      → (start_plugin boot.core_bin now (boot.answers boot.core_bin) boot.core_bin svc).2 ≡ none
      → start_core boot now svc
        ≡ ((start_plugin boot.core_bin now (boot.answers boot.core_bin) boot.core_bin svc).0, none)
  unfolding start_core start_plugin launched
  start_core-launch svc works = elim (Option-cases (lookup boot.core_bin svc.plugins)) [
    | inl missing ↦
        let no : some Error.plugin_not_found ≡ none = rw (start_plugin, missing) at works in cc no
    | inr (info, found) ↦ rw (found, start_core) (ap (λ e. (launched svc, e)) works)
  ]

  -- A start that finds its core, under its own name, and the folder of plugins, that starts the core
  -- without an error, and that connects: it scans the core, and then the files of the folder that can
  -- be read and executed and are neither folders nor empty, starts the core, and then the plugins to
  -- start, each in its order, and does nothing else; there is no error.
  start-run :
      (core : FileInfo) (files : List FileInfo) (svc : Launcher)
      → boot.core_bin ≢ ""
      → boot.core_info ≡ inl core
      → core.name ≡ boot.core_bin
      → boot.plugin_files ≡ inl files
      → boot.connection ≡ none
      → let found =
          run boot.core_bin now
            (scan boot.core_bin boot.core_path core ∷ plugin_scans boot.plugin_path files)
            svc in
        (start_plugin boot.core_bin now (boot.answers boot.core_bin) boot.core_bin found).2 ≡ none
        → start boot now svc
          ≡ (run boot.core_bin now (map launches (boot.core_bin ∷ boot.autostart)) found, none)
  unfolding start with_core scanned scan_plugins started_core run launched
  start-run core files svc named core_there own readable connects works =
      let found_it = add_core-scan boot.core_bin boot.core_path core svc own in
      let scanned_core = add_plugin boot.core_bin boot.core_path core.mod_time core.size svc in
      let added = add_files boot.plugin_path files scanned_core in
      let found = run boot.core_bin now (plugin_scans boot.plugin_path files) scanned_core in
      let same : added ≡ found =
        run-plugin_scans boot.core_bin now boot.plugin_path files scanned_core in
      let at_core : start boot now svc
          ≡ with_core boot now (add_core boot.core_bin boot.core_path boot.core_info svc) =
        rw (ne→false boot.core_bin "" named) refl in
      at_core
      ∙ ap (λ i. with_core boot now (add_core boot.core_bin boot.core_path i svc)) core_there
      ∙ ap (with_core boot now) found_it
      ∙ ap (λ r. scanned boot now (scan_plugins boot.plugin_path r scanned_core)) readable
      ∙ ap (λ v. started_core boot now (start_core boot now v)) same
      ∙ ap (started_core boot now) (start_core-launch found works)
      ∙ rw connects (ap (λ v. (v, none)) (autostart_all-run boot.autostart (launched found)))
