-- ===== src/Run/Invariant.antt =====
-- What holds of the launcher of done_mod/mod_run/run_srv in every state that it comes to.
use done_rest.Prelude.{
  ℕ, ◌<◌, String, Bool, true, false, ◌||◌, ◌&&◌, ◌≡◌, ◌≢◌, ◌⊎◌, inl, inr, refl, ◌∙◌, Option, List,
  [], ◌∷◌, ◌++◌, lookup, insert-Holds, Holds, ◌==◌, arith, eq_iff, Option-cases, All,
}
use done_rest.Errors.{Error}
use done_rest.Run.{
  Launcher, PluginInfo, Cmd, stop_plugin, add_plugin, process_exists, has_cmd, drop_cmd, put_plugin,
}

-- No two processes are of one executable.
abbrev pub IsAlone : List Cmd → Type 0
IsAlone [] = Unit
IsAlone (c ∷ cs) = (process_exists c.cmd_path cs ≡ false) × IsAlone cs

-- No two commands have one number.
abbrev pub IsNumbered : List Cmd → Type 0
IsNumbered [] = Unit
IsNumbered (c ∷ cs) = (has_cmd c.number cs ≡ false) × IsNumbered cs

-- A process of the plugin's executable was started for it.
unfoldable pub runs : String → String → List Cmd → Bool
runs name path [] = false
runs name path (c ∷ cs) = (c.plugin_name == name && c.cmd_path == path) || runs name path cs

-- A plugin is said to run only with a process.
abbrev pub IsCovered : List Cmd → String → PluginInfo → Type 0
IsCovered cmds name info = (info.running ≡ false) ⊎ (runs name info.path cmds ≡ true)

-- The commands are those whose goroutine waits, with numbers below the next one.
pub record IsLaunched (svc : Launcher) : Type 0 where
  pub alone : IsAlone svc.cmds
  pub numbered : IsNumbered svc.cmds
  pub below : All (λ (c : Cmd). c.number < svc.started) svc.cmds
  pub awaited : svc.waiting ≡ svc.cmds
  pub covered : Holds (IsCovered svc.cmds) svc.plugins

pub process_exists-append :
    (path : String) (cs ds : List Cmd)
    → process_exists path (cs ++ ds) ≡ (process_exists path cs || process_exists path ds)
unfolding process_exists
process_exists-append path [] ds = refl
process_exists-append path (c ∷ cs) ds = ground (arith, process_exists-append path cs ds)

has_cmd-append : (n : ℕ) (cs ds : List Cmd) → has_cmd n (cs ++ ds) ≡ (has_cmd n cs || has_cmd n ds)
unfolding has_cmd
has_cmd-append n [] ds = refl
has_cmd-append n (c ∷ cs) ds = ground (arith, has_cmd-append n cs ds)

pub runs-append :
    (name path : String) (cs ds : List Cmd)
    → runs name path (cs ++ ds) ≡ (runs name path cs || runs name path ds)
unfolding runs
runs-append name path [] ds = refl
runs-append name path (c ∷ cs) ds = ground (arith, runs-append name path cs ds)

pub IsAlone-snoc :
    (cs : List Cmd) (c : Cmd)
    → IsAlone cs
    → process_exists c.cmd_path cs ≡ false
    → IsAlone (cs ++ c ∷ [])
unfolding process_exists
IsAlone-snoc [] c h n = (refl, tt)
IsAlone-snoc (d ∷ cs) c h n = (
  process_exists-append d.cmd_path cs (c ∷ [])
      ∙ ground (arith, h.0, n, eq_iff d.cmd_path c.cmd_path, eq_iff c.cmd_path d.cmd_path),
  IsAlone-snoc cs c h.1 (ground (arith, n)),
)

pub IsNumbered-snoc :
    (cs : List Cmd) (c : Cmd)
    → IsNumbered cs
    → All (λ (d : Cmd). d.number < c.number) cs
    → IsNumbered (cs ++ c ∷ [])
unfolding has_cmd
IsNumbered-snoc [] c h b = (refl, tt)
IsNumbered-snoc (d ∷ cs) c h b =
    (has_cmd-append d.number cs (c ∷ []) ∙ ground (arith, h.0, b.0), IsNumbered-snoc cs c h.1 b.1)

pub IsAlone-remove :
    (older newer : List Cmd) (c : Cmd) → IsAlone (older ++ c ∷ newer) → IsAlone (older ++ newer)
unfolding process_exists
IsAlone-remove [] newer c h = h.1
IsAlone-remove (d ∷ older) newer c h = (
  ground (
    arith,
    h.0,
    process_exists-append d.cmd_path older (c ∷ newer),
    process_exists-append d.cmd_path older newer,
  ),
  IsAlone-remove older newer c h.1,
)

pub IsNumbered-remove :
    (older newer : List Cmd) (c : Cmd)
    → IsNumbered (older ++ c ∷ newer)
    → IsNumbered (older ++ newer)
unfolding has_cmd
IsNumbered-remove [] newer c h = h.1
IsNumbered-remove (d ∷ older) newer c h = (
  ground
      (arith, h.0, has_cmd-append d.number older (c ∷ newer), has_cmd-append d.number older newer),
  IsNumbered-remove older newer c h.1,
)

pub All-remove :
    (P : Cmd → Type 0) (older newer : List Cmd) (c : Cmd)
    → All P (older ++ c ∷ newer)
    → All P (older ++ newer)
All-remove P [] newer c h = h.1
All-remove P (d ∷ older) newer c h = (h.0, All-remove P older newer c h.1)

pub drop_cmd-append :
    (older newer : List Cmd) (c : Cmd)
    → IsNumbered (older ++ c ∷ newer)
    → (drop_cmd c.number (older ++ c ∷ newer) ≡ older ++ newer)
      × (has_cmd c.number (older ++ c ∷ newer) ≡ true)
unfolding drop_cmd has_cmd
drop_cmd-append [] newer c h = ground arith
drop_cmd-append (d ∷ older) newer c h =
    ground
      (arith, h.0, has_cmd-append d.number older (c ∷ newer), drop_cmd-append older newer c h.1)

-- A plugin of another name keeps its process.
pub runs-remove :
    (name path : String) (older newer : List Cmd) (c : Cmd)
    → c.plugin_name ≢ name
    → runs name path (older ++ c ∷ newer) ≡ true
    → runs name path (older ++ newer) ≡ true
unfolding runs
runs-remove name path older newer c apart h = ground (
  arith,
  eq_iff c.plugin_name name,
  runs-append name path older (c ∷ newer),
  runs-append name path older newer,
)

pub runs-process_exists :
    (name path : String) (cs : List Cmd) → runs name path cs ≡ true → process_exists path cs ≡ true
unfolding runs process_exists
runs-process_exists name path [] h = cc h
runs-process_exists name path (c ∷ cs) h = ground (arith, h, runs-process_exists name path cs)

-- A plugin's entry is replaced by one that is covered.
pub IsLaunched-put_plugin :
    (name : String) (info : PluginInfo) (svc : Launcher)
    → IsCovered svc.cmds name info
    → IsLaunched svc
    → IsLaunched (put_plugin name info svc)
unfolding put_plugin
IsLaunched-put_plugin name info svc h ok = record {
  alone = ok.alone;
  numbered = ok.numbered;
  below = ok.below;
  awaited = ok.awaited;
  covered = insert-Holds (IsCovered svc.cmds) name info svc.plugins h ok.covered;
}

pub IsLaunched-stop_plugin :
    (failure : Option Error) (name : String) (svc : Launcher)
    → IsLaunched svc
    → IsLaunched (stop_plugin failure name svc).0
unfolding stop_plugin
IsLaunched-stop_plugin failure name svc ok = elim (Option-cases (lookup name svc.plugins)) [
  | inl missing ↦ rw (missing, stop_plugin) ok
  | inr (info, found) ↦ rw (found, stop_plugin) (IsLaunched-put_plugin name _ svc (inl refl) ok)
]

pub IsLaunched-add_plugin :
    (name path modified : String) (size : ℕ) (svc : Launcher)
    → IsLaunched svc
    → IsLaunched (add_plugin name path modified size svc)
unfolding add_plugin
IsLaunched-add_plugin name path modified size svc ok =
    elim (Option-cases (lookup name svc.plugins)) [
      | inl missing ↦ rw (missing, add_plugin) (IsLaunched-put_plugin name _ svc (inl refl) ok)
      | inr (info, found) ↦
          rw (found, add_plugin) (IsLaunched-put_plugin name _ svc (ok.covered name info found) ok)
    ]
