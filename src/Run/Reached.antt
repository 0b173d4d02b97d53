-- ===== src/Run/Reached.antt =====
-- The states that the launcher of done_mod/mod_run/run_srv comes to.
use done_rest.Prelude.{
  ℕ, String, true, false, ◌≡◌, refl, sym, subst, ◌∙◌, Option, some, List, [], ◌∷◌, ◌++◌, lookup,
  lookup-insert_self, Holds-nil, arith, ap, inl, inr, eq_refl, Bool-cases, if◌then◌else◌, none,
}
use done_rest.Errors.{Error}
use done_rest.Run.{
  Launcher, PluginInfo, StartAnswer, Cmd, start_plugin, start_known, ended, process_exists,
  put_plugin, stop_plugin, stop_status,
}
use done_rest.Run.Steps.{new_launcher, Step, starts, stops, scans, ends, Reach, fresh, later}
use done_rest.Run.Invariant.{
  IsCovered, IsLaunched, process_exists-append, IsLaunched-stop_plugin, IsLaunched-add_plugin,
}
use done_rest.Run.Preserved.{IsLaunched-start_plugin, ended-some}

IsLaunched-some : (a b : Launcher) → some a ≡ some b → IsLaunched a → IsLaunched b
IsLaunched-some a b h ok = let same : a ≡ b = cc h in subst IsLaunched same ok

Step-IsLaunched :
    {core_bin : String} {svc after : Launcher}
    → Step core_bin svc after
    → IsLaunched svc
    → IsLaunched after
Step-IsLaunched (starts now answer name e) ok =
    subst IsLaunched (sym e) (IsLaunched-start_plugin _ now answer name _ ok)
Step-IsLaunched (stops failure name e) ok =
    subst IsLaunched (sym e) (IsLaunched-stop_plugin failure name _ ok)
Step-IsLaunched (scans name path modified size e) ok =
    subst IsLaunched (sym e) (IsLaunched-add_plugin name path modified size _ ok)
Step-IsLaunched (ends now failure usage older newer c waits e) ok =
    let (reached, found, kept, left) = ended-some now failure usage older newer c _ ok waits in
    IsLaunched-some reached _ (sym found ∙ sym e) kept

-- In every state that a new launcher comes to, by any starts, stops and scans and ends of processes
-- in any order: no two processes are of one executable, a plugin that is said to run has a process,
-- and the commands are those whose goroutine waits for their end.
pub Reach-IsLaunched : {core_bin : String} {svc : Launcher} → Reach core_bin svc → IsLaunched svc
unfolding new_launcher
Reach-IsLaunched fresh = record {
  alone = tt;
  numbered = tt;
  below = tt;
  awaited = refl;
  covered = Holds-nil (IsCovered []);
}
Reach-IsLaunched (later r step) = Step-IsLaunched step (Reach-IsLaunched r)

-- In every state that a new launcher comes to, the goroutine of a process that ended finds its
-- command in the list, and takes it and no other off.
pub Reach-ended :
    {core_bin : String} (now : ℕ) (failure : Option Error) (usage : Option (ℕ × ℕ))
    (older newer : List Cmd) (c : Cmd) (svc : Launcher)
    → Reach core_bin svc
    → svc.waiting ≡ older ++ c ∷ newer
    → (after : Launcher) × (ended now failure usage c svc ≡ some after)
      × (after.cmds ≡ older ++ newer)
Reach-ended now failure usage older newer c svc reached waits =
    let (after, found, kept, left) =
      ended-some now failure usage older newer c svc (Reach-IsLaunched reached) waits in
    (after, found, left)

process_exists-waiting :
    (svc : Launcher) (older newer : List Cmd) (c : Cmd)
    → IsLaunched svc
    → svc.waiting ≡ older ++ c ∷ newer
    → process_exists c.cmd_path svc.cmds ≡ true
unfolding process_exists
process_exists-waiting svc older newer c ok waits =
    ap (process_exists c.cmd_path) (sym ok.awaited ∙ waits)
    ∙ process_exists-append c.cmd_path older (c ∷ newer)
    ∙ ground (arith, eq_refl c.cmd_path)

-- In every state that a new launcher comes to, so after any starts, stops, scans and ends of other
-- processes too, and as long as a process of a plugin's executable has not ended: a start of the
-- plugin changes nothing, and has the error that the process exists already unless the plugin is
-- said to run; after one more StopPlugin too, and then always with that error.
pub start_plugin-stop_plugin :
    {core_bin : String} (now : ℕ) (answer : StartAnswer) (failure : Option Error) (name : String)
    (info : PluginInfo) (older newer : List Cmd) (c : Cmd) (svc : Launcher)
    → Reach core_bin svc
    → svc.waiting ≡ older ++ c ∷ newer
    → lookup name svc.plugins ≡ some info
    → c.cmd_path ≡ info.path
    → let stopped = (stop_plugin failure name svc).0 in
      let over : PluginInfo = record info { running = false; status = stop_status failure } in
      let refused : Option Error = some Error.process_exists_already in
      (start_plugin core_bin now answer name svc
        ≡ (svc, some info, if info.running then none else refused))
      × (start_plugin core_bin now answer name stopped ≡ (stopped, some over, refused))
unfolding start_plugin stop_plugin put_plugin start_known
start_plugin-stop_plugin now answer failure name info older newer c svc reached waits found same =
    let over : PluginInfo = record info { running = false; status = stop_status failure } in
    let there : process_exists info.path svc.cmds ≡ true =
      subst (λ (path : String). process_exists path svc.cmds ≡ true) same
        (process_exists-waiting svc older newer c (Reach-IsLaunched reached) waits) in
    (
      rw (found, start_plugin)
          (elim (Bool-cases info.running) [
            | inl runs ↦ rw runs refl
            | inr idle ↦ rw (idle, there) refl
          ]),
      rw (found, stop_plugin)
          (rw (lookup-insert_self name over svc.plugins, start_plugin, there) refl),
    )
