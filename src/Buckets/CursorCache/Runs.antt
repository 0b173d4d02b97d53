-- ===== src/Buckets/CursorCache/Runs.antt =====
-- Sequences of calls of the cursor cache and of rounds of its loop.
use done_rest.Prelude.{ℕ, ◌≤◌, String, Bool, Option, List, [], ◌∷◌}
use done_rest.Buckets.CursorCache.{CursorCache, add, get, release, release_expired}
use done_rest.Buckets.CursorCache.Ownership.{IsCache}

pub data Call (Cursor Bucket : Type 0) : Type 0 where
  adds : Cursor → Option Bucket → String → ℕ → Call Cursor Bucket
  gets : ℕ → String → String → Bool → Call Cursor Bucket
  releases : String → String → Call Cursor Bucket
  rounds : ℕ → Call Cursor Bucket

module _ {Cursor Bucket : Type 0} (format : ℕ → String) where
  unfoldable pub perform :
      Call Cursor Bucket → CursorCache Cursor Bucket → CursorCache Cursor Bucket
  perform (adds cursor bucket client_id lifespan) cc =
      (add format cursor bucket client_id lifespan cc).0
  perform (gets now key client_id u) cc = (get now key client_id u cc).0
  perform (releases client_id key) cc = (release client_id key cc).0
  perform (rounds now) cc = release_expired now cc

  unfoldable pub run :
      List (Call Cursor Bucket) → CursorCache Cursor Bucket → CursorCache Cursor Bucket
  run [] cc = cc
  run (c ∷ cs) cc = run cs (perform c cc)

  -- A well-formed cache whose counter is at most a number.
  record IsBelow (n : ℕ) (cc : CursorCache Cursor Bucket) : Type 0 where
    cache : IsCache format cc
    small : cc.cursor_counter ≤ n
