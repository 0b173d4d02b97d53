-- ===== src/Tests/Cursors.antt =====
-- A cursor cache whose keys are as many marks as the counter says.
use done_rest.Prelude.{ℕ, zero, suc, ◌≡◌, refl, ap, String, true, some, List, [], ◌∷◌}
use done_rest.Buckets.CursorCache.{CursorInfo, CursorCache}
use done_rest.Buckets.CursorCache.Runs.{Call, adds, gets, releases, rounds}

abbrev pub marks : ℕ → String
marks zero = String.[]
marks (suc n) = String.◌∷◌ "x" (marks n)

abbrev pub size : String → ℕ
size String.[] = 0
size (String.◌∷◌ c s) = suc (size s)

pub size-marks : (n : ℕ) → size (marks n) ≡ n
size-marks zero = refl
size-marks (suc n) = ap suc (size-marks n)

-- Cursors and buckets are texts here.
abbrev Cache : Type 0
Cache = CursorCache String String

abbrev fresh : Cache
fresh = record { cursors_by_key = []; cursor_counter = 1; freed = [] }

abbrev entry : CursorInfo String String
entry = record {
  key = "k";
  bucket = some "b";
  cursor = "c";
  owner_id = "alice";
  last_used = 100;
  lifespan = 50;
}

abbrev some_calls : List (Call String String)
some_calls =
    adds "c" (some "b") "alice" 50
    ∷ gets 100 "xx" "alice" true
    ∷ releases "bob" "xx"
    ∷ rounds 120
    ∷ []
