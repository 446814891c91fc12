-- ===== src/Engine/Closing/Counted.antt =====
-- Each file of a bulk copy that goes well is counted as done, and only once.
use b2c_fast_copy.Base.{
  ℕ, zero, suc, ◌+◌, ◌^◌, ◌≤◌, ◌<◌, ◌≡◌, ◌≢◌, ◌⊎◌, inl, inr, refl, ap, ◌∙◌, true, false, List,
  length, arith, eq-cases, ◌==◌, if◌then◌else◌,
}
use b2c_fast_copy.Win.Defs.{Os}
use b2c_fast_copy.Rings.{Chunk}
use b2c_fast_copy.Stats.{add_read, add_written, count_up}
use b2c_fast_copy.Rings.{release_free, push_filled}
use b2c_fast_copy.Engine.Defs.{
  Shared, Job, Pc, looping, acquiring, claiming, returning, reading, pushing, popping, preparing,
  writing, releasing, settling, counting, finalizing, exited, Worker,
}
use b2c_fast_copy.Engine.Steps.{settle, count}
use b2c_fast_copy.Engine.Read.{open_source, load, read}
use b2c_fast_copy.Engine.Write.{
  create_and_size, prepare_destination, prepare, open_dest, store, write, trim, finalize,
  carry_times,
}
use b2c_fast_copy.Engine.Worker.{dispatch}
use b2c_fast_copy.Engine.Worker.Conserve.{count-fits}
use b2c_fast_copy.Engine.Worker.Frame.{
  claim_cases, acquire_cases, pop_cases, read_pc, prepare_pc, write_pc,
}
use b2c_fast_copy.Engine.Content.Data.{fail-errors, fail_entry-errors}
use b2c_fast_copy.Engine.Content.Effect.{
  Effect, read-Effect, prepare-Effect, write-Effect, finalize-Effect,
}

-- 1 for a file whose chunks are all counted, and the number of such files below `n`.
abbrev pub closed_at : {W : Type 0} → Shared W → ℕ → ℕ
closed_at sh f = if (sh.entries f).done == (sh.entries f).chunks then 1 else 0

abbrev pub closed : {W : Type 0} → Shared W → ℕ → ℕ
closed sh zero = 0
closed sh (suc n) = closed_at sh n + closed sh n

-- 1 for a worker that is about to finalize a file.
abbrev pub last_step : Pc → ℕ
last_step (finalizing g) = 1
last_step _ = 0

abbrev pub last_step_by : Worker → ℕ
last_step_by w = last_step w.pc

module _ {W : Type 0} where
  closed-same :
      (s t : Shared W) (n : ℕ) → ((f : ℕ) → closed_at t f ≡ closed_at s f) → closed t n ≡ closed s n
  closed-same s t zero same = refl
  closed-same s t (suc n) same = omega (arith, same n, closed-same s t n same)

  -- One file more.
  closed-raise :
      (s t : Shared W) (g n : ℕ)
      → g < n
      → closed_at s g ≡ 0
      → ((f : ℕ) → f ≢ g → closed_at t f ≡ closed_at s f)
      → closed t n ≡ closed s n + closed_at t g
  closed-raise s t g zero lt unclosed same = absurd (omega arith)
  closed-raise s t g (suc n) lt unclosed same = elim (eq-cases n g) [
    | inl eq ↦ omega (arith, below n (omega arith), ap (closed_at t) eq, ap (closed_at s) eq)
    | inr ne ↦ omega (arith, same n ne, closed-raise s t g n (omega arith) unclosed same)
  ]
    where
      below : (m : ℕ) → m ≤ g → closed t m ≡ closed s m
      below zero le = refl
      below (suc m) le = omega (arith, same m (omega arith), below m (omega arith))

  closed-le : (s : Shared W) (n : ℕ) → closed s n ≤ n
  closed-le s zero = omega arith
  closed-le s (suc n) = ground (arith, closed-le s n)

  -- An error is recorded; or no file is marked, and the files done and those about to be counted are the
  -- ones whose chunks are all counted, and no error is counted.
  abbrev pub IsCounted : (base errs n last : ℕ) → Shared W → Type 0
  IsCounted base errs n last sh =
      (0 < length sh.errors)
      ⊎ ((f : ℕ) → (sh.entries f).failed ≡ false)
        × (sh.stats.files_done + last ≡ base + closed sh n)
        × (sh.stats.errors ≡ errs)

  -- A step that records an error, or marks and counts nothing.
  abbrev Passes : Shared W → Shared W → Type 0
  Passes s t =
      (0 < length t.errors)
      ⊎ ((f : ℕ) → (t.entries f).failed ≡ (s.entries f).failed)
        × (t.stats.files_done ≡ s.stats.files_done)
        × (t.stats.errors ≡ s.stats.errors)

module _ {W : Type 0} (sys : Os W) where
  read-Passes :
      (sh : Shared W) (hs : List ℕ) (buf : ℕ) (job : Job) → Passes sh (read sys sh hs buf job).0
  unfolding read open_source load add_read
  read-Passes sh hs buf job = grind (arith, fail_entry-errors)

  prepare-Passes : (sh : Shared W) (c : Chunk) → Passes sh (prepare sys sh c).0
  unfolding prepare prepare_destination create_and_size
  prepare-Passes sh c = grind (arith, fail_entry-errors)

  write-Passes : (sh : Shared W) (hs : List ℕ) (c : Chunk) → Passes sh (write sys sh hs c).0
  unfolding write open_dest store add_written
  write-Passes sh hs c = grind (arith, fail_entry-errors)

  -- A file with its master handle is counted, if no error comes up and it is not marked.
  finalize-counts :
      (sh : Shared W) (g : ℕ)
      → (sh.entries g).master ≡ true
      → (sh.entries g).failed ≡ false
      → (0 < length (finalize sys sh g).errors)
        ⊎ ((f : ℕ) → ((finalize sys sh g).entries f).failed ≡ (sh.entries f).failed)
          × ((finalize sys sh g).stats.files_done ≡ count_up sh.stats.files_done 1)
          × ((finalize sys sh g).stats.errors ≡ sh.stats.errors)
  unfolding finalize trim carry_times
  finalize-counts sh g held unmarked = grind (arith, fail-errors)

  same-closed : (sh t : Shared W) (n : ℕ) → Effect sh t → closed t n ≡ closed sh n
  same-closed sh t n effect =
      closed-same sh t n (λ f. ground (arith, effect.done f, effect.chunks f))

  -- A call of the operating system that ends with no file to finalize.
  call-IsCounted :
      (sh t : Shared W) (base errs n rest : ℕ)
      → Effect sh t
      → Passes sh t
      → IsCounted base errs n rest sh
      → IsCounted base errs n rest t
  call-IsCounted sh t base errs n rest effect passes (inl failed) =
      inl (omega (arith, effect.errors))
  call-IsCounted sh t base errs n rest effect (inl failed) (inr h) = inl failed
  call-IsCounted sh t base errs n rest effect (inr (marks, done, same)) (inr h) =
      inr (λ f. marks f ∙ h.0 f, omega (arith, h.1, done, same-closed sh t n effect), same ∙ h.2)

  shift-IsCounted :
      (sh : Shared W) (base errs n m m' : ℕ)
      → m' ≡ m
      → IsCounted base errs n m sh
      → IsCounted base errs n m' sh
  shift-IsCounted sh base errs n m m' same (inl failed) = inl failed
  shift-IsCounted sh base errs n m m' same (inr h) = inr (h.0, omega (arith, h.1, same), h.2)

  -- A chunk of file `g` is counted, which has not been closed.
  count-IsCounted :
      (sh : Shared W) (g base errs n rest : ℕ)
      → g < n
      → (0 < length sh.errors) ⊎ (closed_at sh g ≡ 0) × ((sh.entries g).done + 1 < 2 ^ 64)
      → IsCounted base errs n (0 + rest) sh
      → IsCounted base errs n (last_step (count sh g).1 + rest) (count sh g).0
  unfolding count
  count-IsCounted sh g base errs n rest lt unclosed (inl failed) = inl failed
  count-IsCounted sh g base errs n rest lt (inl failed) (inr h) = inl failed
  count-IsCounted sh g base errs n rest lt (inr (unclosed, fits)) (inr h) = inr (
    λ f. ground (arith, h.0 f, h.0 g),
    ground (arith, h.1, raise, count-fits (sh.entries g).done fits),
    h.2,
  )
    where
      raise : closed (count sh g).0 n ≡ closed sh n + closed_at (count sh g).0 g
      raise = closed-raise sh (count sh g).0 g n lt unclosed (λ f ne. ground arith)

  finalize-IsCounted :
      (sh : Shared W) (g base errs n rest : ℕ)
      → base + n < 2 ^ 64
      → (sh.entries g).master ≡ true
      → IsCounted base errs n (1 + rest) sh
      → IsCounted base errs n (0 + rest) (finalize sys sh g)
  finalize-IsCounted sh g base errs n rest few held (inl failed) =
      inl (omega (arith, (finalize-Effect sys sh g).errors))
  finalize-IsCounted sh g base errs n rest few held (inr h) =
      elim (finalize-counts sh g held (h.0 g)) [
        | inl failed ↦ inl failed
        | inr (marks, done, same) ↦ inr (
          λ f. marks f ∙ h.0 f,
          omega (
            arith,
            h.1,
            done,
            count-fits sh.stats.files_done (omega (arith, h.1, few, closed-le sh n)),
            same-closed sh (finalize sys sh g) n (finalize-Effect sys sh g),
          ),
          same ∙ h.2,
        )
      ]

  pub dispatch-IsCounted :
      (target idx : ℕ) (pc : Pc) (w : Worker) (sh : Shared W) (base errs n rest : ℕ)
      → base + n < 2 ^ 64
      → ((g : ℕ)
          → pc ≡ counting g
          → (g < n)
            × ((0 < length sh.errors) ⊎ (closed_at sh g ≡ 0) × ((sh.entries g).done + 1 < 2 ^ 64)))
      → ((g : ℕ) → pc ≡ finalizing g → (sh.entries g).master ≡ true)
      → IsCounted base errs n (last_step pc + rest) sh
      → IsCounted base errs n
          (last_step (dispatch sys target idx pc w sh).1.pc + rest)
          (dispatch sys target idx pc w sh).0
  unfolding dispatch settle release_free push_filled
  dispatch-IsCounted target idx looping w sh base errs n rest few unclosed held h =
      shift-IsCounted sh base errs n _ _ (ground arith) h
  dispatch-IsCounted target idx (acquiring last) w sh base errs n rest few unclosed held h =
      elim (acquire_cases sh last) [
        | inl e ↦ rw e (shift-IsCounted sh base errs n _ _ (ground arith) h)
        | inr (buf, tail, free, e) ↦ rw e (h)
      ]
  dispatch-IsCounted target idx (claiming last buf) w sh base errs n rest few unclosed held h =
      elim (claim_cases sh last buf) [ inl (end, e) ↦ rw e (h) | inr (job, at, e) ↦ rw e (h) ]
  dispatch-IsCounted target idx (returning last buf) w sh base errs n rest few unclosed held h =
      shift-IsCounted sh base errs n _ _ (ground arith) h
  dispatch-IsCounted target idx (reading buf job) w sh base errs n rest few unclosed held h =
      elim (read_pc sys sh w.src buf job) [
        | inl e ↦ rw e (
            call-IsCounted sh _ base errs n (0 + rest) (read-Effect sys sh w.src buf job)
              (read-Passes sh w.src buf job) h)
        | inr e ↦ rw e (
            call-IsCounted sh _ base errs n (0 + rest) (read-Effect sys sh w.src buf job)
              (read-Passes sh w.src buf job) h)
      ]
  dispatch-IsCounted target idx (pushing c) w sh base errs n rest few unclosed held h = h
  dispatch-IsCounted target idx (popping last) w sh base errs n rest few unclosed held h =
      elim (pop_cases sh last) [
        | inl (empty, e) ↦ rw e (shift-IsCounted sh base errs n _ _ (ground arith) h)
        | inr (ch, tail, filled, e) ↦ rw e (h)
      ]
  dispatch-IsCounted target idx (preparing c) w sh base errs n rest few unclosed held h =
      elim (prepare_pc sys sh c) [
        | inl e ↦ rw e (
            call-IsCounted sh _ base errs n (0 + rest) (prepare-Effect sys sh c)
              (prepare-Passes sh c) h)
        | inr e ↦ rw e (
            call-IsCounted sh _ base errs n (0 + rest) (prepare-Effect sys sh c)
              (prepare-Passes sh c) h)
      ]
  dispatch-IsCounted target idx (writing c) w sh base errs n rest few unclosed held h =
      elim (write_pc sys sh w.dst c) [
        | inl e ↦ rw e (
            call-IsCounted sh _ base errs n (0 + rest) (write-Effect sys sh w.dst c)
              (write-Passes sh w.dst c) h)
        | inr e ↦ rw e (
            call-IsCounted sh _ base errs n (0 + rest) (write-Effect sys sh w.dst c)
              (write-Passes sh w.dst c) h)
      ]
  dispatch-IsCounted target idx (releasing buf after) w sh base errs n rest few unclosed held h = h
  dispatch-IsCounted target idx (settling after) w sh base errs n rest few unclosed held h =
      shift-IsCounted sh base errs n _ _ (ground arith) h
  dispatch-IsCounted target idx (counting g) w sh base errs n rest few unclosed held h =
      let due = unclosed g refl in count-IsCounted sh g base errs n rest due.0 due.1 h
  dispatch-IsCounted target idx (finalizing g) w sh base errs n rest few unclosed held h =
      finalize-IsCounted sh g base errs n rest few (held g refl) h
  dispatch-IsCounted target idx exited w sh base errs n rest few unclosed held h = h
