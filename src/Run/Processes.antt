-- ===== src/Run/Processes.antt =====
-- The stopping of a process in done_mod/mod_run/run_srv/Stop.go.
use done_rest.Prelude.{
  if◌then◌else◌, ℕ, zero, suc, ◌+◌, ◌<◌, Bool, true, false, ◌≡◌, refl, arith, Option, none, List,
  [], ◌∷◌, ◌++◌, length, Bool-cases, inl, inr, ap, ◌∙◌, subst,
}
use done_rest.Errors.{Error}

-- Probe is the signal 0, whose error says that the process has ended.
pub data Signal : Type 0 where
  terminate probe kill : Signal

abbrev pub stop_rounds : ℕ
stop_rounds = 100

-- The loop of one second in steps of ten milliseconds: the probes that it sends, of which the n-th
-- is answered by `alive`.
unfoldable pub await_end : (ℕ → Bool) → ℕ → ℕ → List Signal
await_end alive zero n = []
await_end alive (suc rounds) n =
    let rest = await_end alive rounds (suc n) in
    probe ∷ (elim (alive n) [ false ↦ [] | true ↦ rest ])

-- The probe after the loop, and the end of one that still lives.
unfoldable pub finish : List Signal → Option Error → Bool → List Signal × Option Error
finish probes kill_error false = (terminate ∷ (probes ++ probe ∷ []), none)
finish probes kill_error true = (terminate ∷ (probes ++ probe ∷ kill ∷ []), kill_error)

-- The signals, and the error; `found` tells whether the process was found, which on Linux it always
-- is.
unfoldable pub stop : Bool → (ℕ → Bool) → Option Error → List Signal × Option Error
unfolding await_end finish
stop false alive kill_error = ([], none)
stop true alive kill_error =
    let probes = await_end alive stop_rounds 0 in finish probes kill_error (alive (length probes))

-- So many probes.
abbrev pub probes : ℕ → List Signal
probes zero = []
probes (suc n) = probe ∷ probes n

-- How many probes the second of waiting takes: up to the first that tells of the end, or all hundred.
pub data Waits (alive : ℕ → Bool) : ℕ → Type 0 where
  breaks :
      (k : ℕ) → k < 100 → ((i : ℕ) → i < k → alive i ≡ true) → alive k ≡ false → Waits alive (suc k)
  times_out : ((i : ℕ) → i < 100 → alive i ≡ true) → Waits alive 100

-- The loop from the n-th probe on, with the same two ends.
data Loops (alive : ℕ → Bool) (rounds n : ℕ) : ℕ → Type 0 where
  loop_breaks :
      (k : ℕ)
      → k < rounds
      → ((i : ℕ) → i < k → alive (n + i) ≡ true)
      → alive (n + k) ≡ false
      → Loops alive rounds n (suc k)
  loop_times_out : ((i : ℕ) → i < rounds → alive (n + i) ≡ true) → Loops alive rounds n rounds

lives_on :
    (alive : ℕ → Bool) (n k : ℕ)
    → alive n ≡ true
    → ((i : ℕ) → i < k → alive (suc n + i) ≡ true)
    → (i : ℕ) → i < suc k
    → alive (n + i) ≡ true
lives_on alive n k first later zero h = subst (λ (j : ℕ). alive j ≡ true) (omega arith) first
lives_on alive n k first later (suc i) h =
    subst (λ (j : ℕ). alive j ≡ true) (omega arith) (later i (omega arith))

Loops-suc :
    (alive : ℕ → Bool) (rounds n m : ℕ)
    → alive n ≡ true
    → Loops alive rounds (suc n) m
    → Loops alive (suc rounds) n (suc m)
Loops-suc alive rounds n _ first (loop_breaks k early lives over) =
    loop_breaks (suc k) (omega arith) (lives_on alive n k first lives)
      (subst (λ (j : ℕ). alive j ≡ false) (omega arith) over)
Loops-suc alive rounds n _ first (loop_times_out lives) =
    loop_times_out (lives_on alive n rounds first lives)

await_end_lem :
    (alive : ℕ → Bool) (rounds n : ℕ)
    → (m : ℕ) × Loops alive rounds n m × (await_end alive rounds n ≡ probes m)
unfolding await_end
await_end_lem alive zero n = (0, loop_times_out (λ i h. absurd (omega arith)), refl)
await_end_lem alive (suc rounds) n = elim (Bool-cases (alive n)) [
  | inl lives ↦
      let (m, loops, sent) = await_end_lem alive rounds (suc n) in
      (suc m, Loops-suc alive rounds n m lives loops, rw lives (ap (λ s. probe ∷ s) sent))
  | inr gone ↦ (
    1,
    loop_breaks 0 (omega arith) (λ i h. absurd (omega arith))
        (subst (λ (j : ℕ). alive j ≡ false) (omega arith) gone),
    rw gone refl,
  )
]

Loops-Waits : (alive : ℕ → Bool) (m : ℕ) → Loops alive 100 0 m → Waits alive m
Loops-Waits alive _ (loop_breaks k early lives over) =
    breaks k early (λ i h. subst (λ (j : ℕ). alive j ≡ true) (omega arith) (lives i h))
      (subst (λ (j : ℕ). alive j ≡ false) (omega arith) over)
Loops-Waits alive _ (loop_times_out lives) =
    times_out (λ i h. subst (λ (j : ℕ). alive j ≡ true) (omega arith) (lives i h))

length-probes : (n : ℕ) → length (probes n) ≡ n
length-probes zero = refl
length-probes (suc n) = omega (arith, length-probes n)

finish_lem :
    (sent : List Signal) (kill_error : Option Error) (lives : Bool)
    → finish sent kill_error lives ≡ (
      terminate ∷ (sent ++ probe ∷ (if lives then kill ∷ [] else [])),
      if lives then kill_error else none,
    )
unfolding finish
finish_lem sent kill_error false = refl
finish_lem sent kill_error true = refl

-- Stopping a process that is found sends it the signal to terminate and then probes, up to the first
-- of a hundred that tells of its end, and one probe more; if the process lives at that last one, it
-- is killed and the error is that of killing it, and else no signal follows and there is no error.
pub stop_lem :
    (alive : ℕ → Bool) (kill_error : Option Error)
    → (n : ℕ) × Waits alive n
      × (stop true alive kill_error ≡ (
        terminate ∷ (probes n ++ probe ∷ (if alive n then kill ∷ [] else [])),
        if alive n then kill_error else none,
      ))
unfolding stop finish
stop_lem alive kill_error =
    let (n, loops, sent) = await_end_lem alive 100 0 in
    (
      n,
      Loops-Waits alive n loops,
      ap (λ s. finish s kill_error (alive (length s))) sent
          ∙ ap (λ l. finish (probes n) kill_error (alive l)) (length-probes n)
          ∙ finish_lem (probes n) kill_error (alive n),
    )
