-- ===== src/Bus/Slices.antt =====
-- Go's slices: a length and a capacity over an array that other slices may share. `append` writes
-- into the array while the capacity allows it, and copies to a new array otherwise. The runtime
-- chooses the new capacity; `grow` is that choice, from the old capacity and the needed length.
use done_rest.Prelude.{
  ℕ, zero, suc, ◌+◌, ◌<◌, ◌≡◌, refl, ◌∙◌, arith, List, [], ◌∷◌, leb, eqb, length, if◌then◌else◌,
}

pub record Slice : Type 0 where
  pub array : ℕ
  pub len : ℕ
  pub cap : ℕ

-- Arrays by number, from 0 up to `next`.
pub record Heap (A : Type 0) : Type 0 where
  pub next : ℕ
  pub cell : ℕ → ℕ → A

module _ {A : Type 0} where
  unfoldable pub update : (ℕ → A) → ℕ → A → ℕ → A
  update f i x j = if eqb i j then x else f j

  unfoldable pub write_cells : (ℕ → A) → ℕ → List A → ℕ → A
  write_cells f i [] = f
  write_cells f i (x ∷ xs) = write_cells (update f i x) (suc i) xs

  -- The cells from `i` on, `n` of them.
  unfoldable pub read_cells : (ℕ → A) → ℕ → ℕ → List A
  read_cells f i zero = []
  read_cells f i (suc n) = f i ∷ read_cells f (suc i) n

  abbrev pub set_array : Heap A → ℕ → (ℕ → A) → ℕ → ℕ → A
  set_array h a row b = if eqb a b then row else h.cell b

  unfoldable pub read : Heap A → Slice → List A
  read h s = read_cells (h.cell s.array) 0 s.len

  unfoldable pub append : (ℕ → ℕ → ℕ) → Heap A → Slice → List A → Slice × Heap A
  append grow h s xs =
      let need = s.len + length xs in
      let row = write_cells (h.cell s.array) s.len xs in
      if leb need s.cap
      then (record s { len = need }, record h { cell = set_array h s.array row })
      else (
        record { array = h.next; len = need; cap = grow s.cap need },
        record { next = suc h.next; cell = set_array h h.next row },
      )

  -- A slice literal: a new array of its length.
  unfoldable pub literal : Heap A → List A → Slice × Heap A
  literal h xs = (
    record { array = h.next; len = length xs; cap = length xs },
    record { next = suc h.next; cell = set_array h h.next (write_cells (h.cell h.next) 0 xs) },
  )

  -- What is written at one place is read through every slice of the array that reaches it.
  write_cells_above : (f : ℕ → A) (i j : ℕ) (xs : List A) → j < i → write_cells f i xs j ≡ f j
  unfolding write_cells
  write_cells_above f i j [] h = refl
  write_cells_above f i j (x ∷ xs) h =
      write_cells_above (update f i x) (suc i) j xs (omega arith) ∙ unfold update in ground arith

  pub write_cells_head : (f : ℕ → A) (i : ℕ) (x : A) (xs : List A) → write_cells f i (x ∷ xs) i ≡ x
  unfolding write_cells
  write_cells_head f i x xs =
      write_cells_above (update f i x) (suc i) i xs (omega arith) ∙ unfold update in ground arith
