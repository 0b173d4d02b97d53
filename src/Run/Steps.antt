-- ===== src/Run/Steps.antt =====
-- The calls of the launcher of done_mod/mod_run/run_srv and the ends of its processes, in any order.
use done_rest.Prelude.{ℕ, String, ◌≡◌, Option, some, List, [], ◌∷◌, ◌++◌}
use done_rest.Errors.{Error}
use done_rest.Run.{Launcher, StartAnswer, Cmd, start_plugin, stop_plugin, add_plugin, ended}

unfoldable pub new_launcher : Launcher
new_launcher = record { plugins = []; cmds = []; waiting = []; started = 0; added = [] }

-- One call or goroutine; each holds the mutex.
pub data Step (core_bin : String) (svc : Launcher) : Launcher → Type 0 where
  starts :
      (now : ℕ) (answer : StartAnswer) (name : String) {after : Launcher}
      → after ≡ (start_plugin core_bin now answer name svc).0
      → Step core_bin svc after
  stops :
      (failure : Option Error) (name : String) {after : Launcher}
      → after ≡ (stop_plugin failure name svc).0
      → Step core_bin svc after
  scans :
      (name path modified : String) (size : ℕ) {after : Launcher}
      → after ≡ add_plugin name path modified size svc
      → Step core_bin svc after
  ends :
      (now : ℕ) (failure : Option Error) (usage : Option (ℕ × ℕ)) (older newer : List Cmd)
      (cmd : Cmd) {after : Launcher}
      → svc.waiting ≡ older ++ cmd ∷ newer
      → some after ≡ ended now failure usage cmd svc
      → Step core_bin svc after

-- The states that a new launcher comes to.
pub data Reach (core_bin : String) : Launcher → Type 0 where
  fresh : Reach core_bin new_launcher
  later :
      {svc after : Launcher} → Reach core_bin svc → Step core_bin svc after → Reach core_bin after
