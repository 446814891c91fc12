-- ===== src/Engine/Content/Others.antt =====
-- What a step of one worker means for the others: their buffers and their files stay ready.
use b2c_fast_copy.Base.{ℕ, ◌≡◌, ◌≢◌, inl, inr, refl, sym, ap, true, some, arith}
use b2c_fast_copy.Win.Defs.{Os}
use b2c_fast_copy.Engine.Defs.{
  Shared, Pc, looping, acquiring, claiming, returning, reading, pushing, popping, preparing,
  writing, releasing, settling, counting, finalizing, exited, Worker,
}
use b2c_fast_copy.Engine.Steps.{claim, settle, count}
use b2c_fast_copy.Engine.Worker.{dispatch}
use b2c_fast_copy.Engine.Worker.Frame.{acquire_cases, pop_cases}
use b2c_fast_copy.Engine.Sound.Exclusive.{buffer_of}
use b2c_fast_copy.Engine.Content.Defs.{Copy, IsCarrying}
use b2c_fast_copy.Engine.Content.Effect.{
  read-Effect, prepare-Effect, write-Effect, finalize-Effect, read-memory, prepare-memory,
  write-memory, finalize-memory,
}
use b2c_fast_copy.Engine.Content.Steps.{IsLoaded-memory}

module _ {W : Type 0} (sys : Os W) where
  -- A step writes to no buffer but the worker's own.
  pub dispatch-memory :
      (target idx : ℕ) (pc : Pc) (w : Worker) (sh : Shared W) (b : ℕ)
      → buffer_of pc ≢ some b
      → (dispatch sys target idx pc w sh).0.memory b ≡ sh.memory b
  unfolding dispatch claim settle count
  dispatch-memory target idx (acquiring last) w sh b ne = elim (acquire_cases sh last) [
    | inl e ↦ rw e refl
    | inr (buf, tail, free, e) ↦ rw e refl
  ]
  dispatch-memory target idx (popping last) w sh b ne = elim (pop_cases sh last) [
    | inl (empty, e) ↦ rw e refl
    | inr (ch, tail, filled, e) ↦ rw e refl
  ]
  dispatch-memory target idx (reading buf job) w sh b ne =
      read-memory sys sh w.src buf job b (λ e. ne (ap some (sym e)))
  dispatch-memory target idx (preparing ch) w sh b ne = rw (prepare-memory sys sh ch) refl
  dispatch-memory target idx (writing ch) w sh b ne = rw (write-memory sys sh w.dst ch) refl
  dispatch-memory target idx (finalizing f) w sh b ne = rw (finalize-memory sys sh f) refl
  dispatch-memory target idx looping w sh b ne = refl
  dispatch-memory target idx (claiming last buf) w sh b ne = refl
  dispatch-memory target idx (returning last buf) w sh b ne = refl
  dispatch-memory target idx (pushing ch) w sh b ne = refl
  dispatch-memory target idx (releasing buf after) w sh b ne = refl
  dispatch-memory target idx (settling after) w sh b ne = refl
  dispatch-memory target idx (counting f) w sh b ne = refl
  dispatch-memory target idx exited w sh b ne = refl

  -- A file that is prepared stays so.
  pub dispatch-prepared :
      (target idx : ℕ) (pc : Pc) (w : Worker) (sh : Shared W) (g : ℕ)
      → (sh.entries g).prepared ≡ true
      → ((dispatch sys target idx pc w sh).0.entries g).prepared ≡ true
  unfolding dispatch claim settle count
  dispatch-prepared target idx (acquiring last) w sh g h = elim (acquire_cases sh last) [
    | inl e ↦ rw e h
    | inr (buf, tail, free, e) ↦ rw e h
  ]
  dispatch-prepared target idx (popping last) w sh g h = elim (pop_cases sh last) [
    | inl (empty, e) ↦ rw e h
    | inr (ch, tail, filled, e) ↦ rw e h
  ]
  dispatch-prepared target idx (reading buf job) w sh g h =
      (read-Effect sys sh w.src buf job).prepared g h
  dispatch-prepared target idx (preparing ch) w sh g h = (prepare-Effect sys sh ch).prepared g h
  dispatch-prepared target idx (writing ch) w sh g h = (write-Effect sys sh w.dst ch).prepared g h
  dispatch-prepared target idx (finalizing f) w sh g h = (finalize-Effect sys sh f).prepared g h
  dispatch-prepared target idx (counting f) w sh g h = ground arith
  dispatch-prepared target idx looping w sh g h = h
  dispatch-prepared target idx (claiming last buf) w sh g h = h
  dispatch-prepared target idx (returning last buf) w sh g h = h
  dispatch-prepared target idx (pushing ch) w sh g h = h
  dispatch-prepared target idx (releasing buf after) w sh g h = h
  dispatch-prepared target idx (settling after) w sh g h = h
  dispatch-prepared target idx exited w sh g h = h

-- What a worker carries holds as long as its buffer and the preparations do.
pub IsCarrying-keep :
    {W : Type 0} (c : Copy) (s t : Shared W) (pc : Pc)
    → ((b : ℕ) → buffer_of pc ≡ some b → t.memory b ≡ s.memory b)
    → ((g : ℕ) → (s.entries g).prepared ≡ true → (t.entries g).prepared ≡ true)
    → IsCarrying c s pc
    → IsCarrying c t pc
IsCarrying-keep c s t (pushing ch) same mono h = IsLoaded-memory (same ch.buf refl) h
IsCarrying-keep c s t (preparing ch) same mono h = IsLoaded-memory (same ch.buf refl) h
IsCarrying-keep c s t (writing ch) same mono h =
    (IsLoaded-memory (same ch.buf refl) h.0, mono ch.file h.1)
IsCarrying-keep c s t (reading buf job) same mono h = h
IsCarrying-keep c s t (releasing buf after) same mono h = h
IsCarrying-keep c s t (settling after) same mono h = h
IsCarrying-keep c s t (counting f) same mono h = h
IsCarrying-keep c s t (finalizing f) same mono h = h
IsCarrying-keep c s t looping same mono h = h
IsCarrying-keep c s t (acquiring last) same mono h = h
IsCarrying-keep c s t (claiming last buf) same mono h = h
IsCarrying-keep c s t (returning last buf) same mono h = h
IsCarrying-keep c s t (popping last) same mono h = h
IsCarrying-keep c s t exited same mono h = h
