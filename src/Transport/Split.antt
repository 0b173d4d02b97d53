-- ===== src/Transport/Split.antt =====
-- Go's `strings.Split` with a separator of one ASCII character, given by its code.
use Prim.Native.Char.{Char, code}
use Prim.Native.String.{◌++◌ as append_text}
use text.Mathlib.TextLemmas.{nil-append, cons-append}
use done_rest.Prelude.{ℕ, String, ◌≡◌, ◌≢◌, refl, arith, List, [], ◌∷◌, eqb, if◌then◌else◌}

unfoldable pub extend_first : Char → List String → List String
extend_first c [] = String.◌∷◌ c String.[] ∷ []
extend_first c (p ∷ ps) = String.◌∷◌ c p ∷ ps

unfoldable pub split : ℕ → String → List String
unfolding extend_first
split sep String.[] = String.[] ∷ []
split sep (String.◌∷◌ c s) =
    let rest = split sep s in if eqb (code c) sep then String.[] ∷ rest else extend_first c rest

-- The separator does not stand in the text.
abbrev pub Avoids : ℕ → String → Type 0
Avoids sep String.[] = Unit
Avoids sep (String.◌∷◌ c s) = (code c ≢ sep) × Avoids sep s

pub split-Avoids : (sep : ℕ) (s : String) → Avoids sep s → split sep s ≡ s ∷ []
unfolding split
split-Avoids sep String.[] h = refl
split-Avoids sep (String.◌∷◌ c s) h = ground (arith, split-Avoids sep s h.1)

pub split-append :
    (sep : Char) (p rest : String)
    → Avoids (code sep) p
    → split (code sep) (append_text p (String.◌∷◌ sep rest)) ≡ p ∷ split (code sep) rest
unfolding split
split-append sep String.[] rest h = rw nil-append (ground arith)
split-append sep (String.◌∷◌ c p) rest h =
    rw cons-append (ground (arith, split-append sep p rest h.1))
