-- ===== src/Run/Preserved.antt =====
-- Each call of the launcher of done_mod/mod_run/run_srv, and each end of a process, keeps its
-- invariant.
use done_rest.Prelude.{
  ℕ, ◌+◌, ◌<◌, String, true, false, ◌≡◌, inl, inr, refl, sym, ap, subst, ◌∙◌, Option, none, some,
  List, [], ◌∷◌, ◌++◌, Dict, lookup, insert, insert-Holds, lookup-insert, Holds, ◌==◌, arith,
  eq_iff, eq_refl, Bool-cases, Option-cases, All, All-append,
}
use done_rest.Errors.{Error}
use done_rest.Run.{
  Launcher, PluginInfo, StartAnswer, Cmd, start_plugin, start_known, start_command, add_service,
  ended, process_exists, update_status, put_plugin, end_status,
}
use done_rest.Run.Invariant.{
  IsAlone, IsNumbered, IsCovered, IsLaunched, runs, IsAlone-snoc, IsNumbered-snoc, IsAlone-remove,
  IsNumbered-remove, All-remove, drop_cmd-append, runs-append, runs-remove, IsLaunched-put_plugin,
}

update_status_lem :
    (usage : Option (ℕ × ℕ)) (info : PluginInfo)
    → ((update_status usage info).running ≡ info.running)
      × ((update_status usage info).path ≡ info.path)
unfolding update_status
update_status_lem none info = ground arith
update_status_lem (some (m, p)) info = ground arith

below_more :
    (n : ℕ) (cs : List Cmd)
    → All (λ (c : Cmd). c.number < n) cs
    → All (λ (c : Cmd). c.number < n + 1) cs
below_more n [] h = tt
below_more n (c ∷ cs) h = (omega (arith, h.0), below_more n cs h.1)

-- A plugin that had a process still has one.
IsCovered-append :
    (cs : List Cmd) (c : Cmd) (name : String) (info : PluginInfo)
    → IsCovered cs name info
    → IsCovered (cs ++ c ∷ []) name info
IsCovered-append cs c name info (inl idle) = inl idle
IsCovered-append cs c name info (inr there) =
    inr (runs-append name info.path cs (c ∷ []) ∙ rw there refl)

-- A new command runs its plugin.
runs_new :
    (cs : List Cmd) (c : Cmd) (path : String)
    → path ≡ c.cmd_path
    → runs c.plugin_name path (cs ++ c ∷ []) ≡ true
unfolding runs
runs_new cs c path e = ground (
  arith,
  eq_refl c.plugin_name,
  eq_iff c.cmd_path path,
  runs-append c.plugin_name path cs (c ∷ []),
)

IsLaunched-append :
    (svc : Launcher) (c : Cmd) (updated : PluginInfo)
    → c.number ≡ svc.started
    → process_exists c.cmd_path svc.cmds ≡ false
    → updated.path ≡ c.cmd_path
    → IsLaunched svc
    → IsLaunched (record svc {
      plugins = insert c.plugin_name updated svc.plugins;
      cmds = svc.cmds ++ c ∷ [];
      waiting = svc.waiting ++ c ∷ [];
      started = svc.started + 1;
    })
IsLaunched-append svc c updated next alone at ok = record {
  alone = IsAlone-snoc svc.cmds c ok.alone alone;
  numbered =
      IsNumbered-snoc svc.cmds c ok.numbered
        (subst (λ n. All (λ (d : Cmd). d.number < n) svc.cmds) (sym next) ok.below);
  below =
      All-append (λ (d : Cmd). d.number < svc.started + 1) svc.cmds (c ∷ [])
        (below_more svc.started svc.cmds ok.below) (omega (arith, next), tt);
  awaited = ap (λ cs. cs ++ c ∷ []) ok.awaited;
  covered =
      insert-Holds (IsCovered (svc.cmds ++ c ∷ [])) c.plugin_name updated svc.plugins
        (inr (runs_new svc.cmds c updated.path at))
        (λ name info found. IsCovered-append svc.cmds c name info (ok.covered name info found));
}

IsLaunched-start_command :
    (now : ℕ) (answer : StartAnswer) (name : String) (info : PluginInfo) (svc : Launcher)
    → info.running ≡ false
    → process_exists info.path svc.cmds ≡ false
    → IsLaunched svc
    → IsLaunched (start_command now answer name info svc).0
unfolding start_command put_plugin runs
IsLaunched-start_command now answer name info svc idle alone ok =
    elim (Option-cases answer.start_error) [
      | inr (e, failed) ↦
          rw (failed, start_command) (IsLaunched-put_plugin name _ svc (inl idle) ok)
      | inl fine ↦
          rw (fine, start_command)
            (IsLaunched-append svc
              (record {
                number = svc.started;
                plugin_name = name;
                cmd_path = info.path;
                process_pid = answer.new_pid;
              })
              _ refl alone (update_status_lem answer.usage _).1 ok)
    ]

pub IsLaunched-start_plugin :
    (core_bin : String) (now : ℕ) (answer : StartAnswer) (name : String) (svc : Launcher)
    → IsLaunched svc
    → IsLaunched (start_plugin core_bin now answer name svc).0
unfolding start_plugin start_known
IsLaunched-start_plugin core_bin now answer name svc ok =
    elim (Option-cases (lookup name svc.plugins)) [
      | inl missing ↦ rw (missing, start_plugin) ok
      | inr (info, found) ↦
          rw (found, start_plugin)
            (elim (Bool-cases info.running) [
              | inl runs_now ↦ simp runs_now ok
              | inr idle ↦ simp idle (elim (Bool-cases (process_exists info.path svc.cmds)) [
                | inl twice ↦ rw twice ok
                | inr alone ↦ rw alone (
                    IsLaunched-start_command now answer name info
                      (record svc { added = add_service core_bin name svc.added }) idle alone
                      (record {
                        alone = ok.alone;
                        numbered = ok.numbered;
                        below = ok.below;
                        awaited = ok.awaited;
                        covered = ok.covered;
                      }))
              ])
            ])
    ]

-- The plugin of the ended command is not running, and the others keep their processes.
IsCovered-insert :
    (older newer : List Cmd) (c : Cmd) (over : PluginInfo) (plugins : Dict PluginInfo)
    → over.running ≡ false
    → Holds (IsCovered (older ++ c ∷ newer)) plugins
    → Holds (IsCovered (older ++ newer)) (insert c.plugin_name over plugins)
IsCovered-insert older newer c over plugins idle h name info found =
    elim (Bool-cases (c.plugin_name == name)) [
      | inl same ↦
          let e : some over ≡ some info =
            ground (arith, found, same, lookup-insert c.plugin_name name over plugins) in
          let is_over : over ≡ info = cc e in
          inl (ap (λ (i : PluginInfo). i.running) (sym is_over) ∙ idle)
      | inr apart ↦
          let kept : lookup name plugins ≡ some info =
            ground (arith, found, apart, lookup-insert c.plugin_name name over plugins) in
          elim (h name info kept) [
            | inl stopped ↦ inl stopped
            | inr there ↦ inr (
                runs-remove name info.path older newer c
                  (ground (arith, apart, eq_iff c.plugin_name name)) there)
          ]
    ]

-- Without an entry of the plugin.
IsCovered-remove :
    (older newer : List Cmd) (c : Cmd) (plugins : Dict PluginInfo)
    → lookup c.plugin_name plugins ≡ none
    → Holds (IsCovered (older ++ c ∷ newer)) plugins
    → Holds (IsCovered (older ++ newer)) plugins
IsCovered-remove older newer c plugins missing h name info found =
    elim (Bool-cases (c.plugin_name == name)) [
      | inl same ↦
          cc (ap (λ n. lookup n plugins) ((eq_iff c.plugin_name name).0 same), missing, found)
      | inr apart ↦ elim (h name info found) [
        | inl stopped ↦ inl stopped
        | inr there ↦ inr (
            runs-remove name info.path older newer c
              (ground (arith, apart, eq_iff c.plugin_name name)) there)
      ]
    ]

abbrev rest_of : Launcher → Dict PluginInfo → List Cmd → Launcher
rest_of svc plugins cs = record svc { plugins = plugins; cmds = cs; waiting = cs }

IsLaunched-rest_of :
    (svc : Launcher) (plugins : Dict PluginInfo) (older newer : List Cmd) (c : Cmd)
    → svc.cmds ≡ older ++ c ∷ newer
    → IsLaunched svc
    → Holds (IsCovered (older ++ newer)) plugins
    → IsLaunched (rest_of svc plugins (older ++ newer))
IsLaunched-rest_of svc plugins older newer c held ok covered = record {
  alone = IsAlone-remove older newer c (subst IsAlone held ok.alone);
  numbered = IsNumbered-remove older newer c (subst IsNumbered held ok.numbered);
  below =
      All-remove (λ (d : Cmd). d.number < svc.started) older newer c
        (subst (All (λ (d : Cmd). d.number < svc.started)) held ok.below);
  awaited = refl;
  covered = covered;
}

-- The end of a process whose goroutine waits finds its command, which is taken off the list, and
-- keeps the invariant.
pub ended-some :
    (now : ℕ) (failure : Option Error) (usage : Option (ℕ × ℕ)) (older newer : List Cmd) (c : Cmd)
    (svc : Launcher)
    → IsLaunched svc
    → svc.waiting ≡ older ++ c ∷ newer
    → (after : Launcher) × (ended now failure usage c svc ≡ some after)
      × IsLaunched after
      × (after.cmds ≡ older ++ newer)
unfolding ended put_plugin
ended-some now failure usage older newer c svc ok waits =
    let held = sym ok.awaited ∙ waits in
    let (dropped, there) = drop_cmd-append older newer c (subst IsNumbered held ok.numbered) in
    let covered = subst (λ cs. Holds (IsCovered cs) svc.plugins) held ok.covered in
    elim (Option-cases (lookup c.plugin_name svc.plugins)) [
      | inl missing ↦ (
        rest_of svc svc.plugins (older ++ newer),
        rw (held, there, missing, held, waits, dropped) refl,
        IsLaunched-rest_of svc svc.plugins older newer c held ok
            (IsCovered-remove older newer c svc.plugins missing covered),
        refl,
      )
      | inr (info, found) ↦
          let over : PluginInfo = record info {
            stop_time_mse = now;
            running = false;
            status = end_status failure;
          } in
          let updated = update_status usage over in
          (
            rest_of svc (insert c.plugin_name updated svc.plugins) (older ++ newer),
            rw (held, there, found, held, waits, dropped) refl,
            IsLaunched-rest_of svc (insert c.plugin_name updated svc.plugins) older newer c held ok
                (IsCovered-insert older newer c updated svc.plugins (update_status_lem usage over).0
                  covered),
            refl,
          )
    ]
