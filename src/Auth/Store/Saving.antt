-- ===== src/Auth/Store/Saving.antt =====
-- `save`, behind lemmas: it leaves the entries alone, and writes the file exactly when it succeeds.
use done_rest.Prelude.{◌≡◌, ◌≢◌, ◌⊎◌, none, some, arith}
use done_rest.Auth.Store.{AuthnFileStore, Io, json, save}

module _ (io : Io) (s : AuthnFileStore) where
  pub entries-save : (save io s).0.entries ≡ s.entries
  unfolding save
  entries-save = ground arith

  pub watcher-save : (save io s).0.watcher ≡ s.watcher
  unfolding save
  watcher-save = ground arith

  -- Either the file holds the entries, or nothing has changed and there is an error.
  pub save_cases :
      (((save io s).1 ≡ none) × ((save io s).0.file ≡ some (json s.entries)))
      ⊎ (((save io s).1 ≢ none) × ((save io s).0.file ≡ s.file))
  unfolding save
  save_cases = ground arith
