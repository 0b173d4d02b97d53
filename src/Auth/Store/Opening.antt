-- ===== src/Auth/Store/Opening.antt =====
-- The opening of the store keeps it valid, in done_mod/mod_auth/auth_str/AuthnFileStore.go.
use done_rest.Prelude.{none, some, if_both}
use done_rest.Auth.Store.{AuthnFileStore, Io, Outcome, open_store, watch_file, reload}
use done_rest.Auth.Store.Validity.{IsValid, reload-IsValid}

watch_file-IsValid : (io : Io) (o : Outcome) → IsValid o.0 → IsValid (watch_file io o).0
unfolding watch_file
watch_file-IsValid io (s, some e) v = v
watch_file-IsValid io (s, none) v = record { entries = v.entries; file = v.file }

pub open_store-IsValid : (io : Io) (s : AuthnFileStore) → IsValid s → IsValid (open_store io s).0
unfolding open_store
open_store-IsValid io s v =
    if_both (λ (o : Outcome). IsValid o.0) s.watcher v
      (watch_file-IsValid io (reload io s) (reload-IsValid io s v))
