-- ===== src/Engine/Content/Turn/Carrying.antt =====
-- After a step the local variables of the worker say what they should.
use b2c_fast_copy.Base.{ℕ, ◌+◌, ◌%◌, ◌^◌, ◌≡◌, inl, inr, ap, ◌∙◌, List, arith, All-get_elem?}
use native.Mathlib.Nat.{mod-eq_of_lt}
use b2c_fast_copy.Device.{round_up}
use b2c_fast_copy.Win.Defs.{FilePath, Os}
use b2c_fast_copy.Win.FileSystem.{Content, IsFileSystem}
use b2c_fast_copy.Rings.{release_free, push_filled}
use b2c_fast_copy.Engine.Defs.{
  Shared, Job, Pc, early, counted, looping, acquiring, claiming, returning, reading, pushing,
  popping, preparing, writing, releasing, settling, counting, finalizing, exited, Worker,
}
use b2c_fast_copy.Engine.Steps.{settle, count}
use b2c_fast_copy.Engine.Read.{read}
use b2c_fast_copy.Engine.Worker.{dispatch}
use b2c_fast_copy.Engine.Worker.Frame.{
  claim_cases, acquire_cases, pop_cases, chunk_of, read_pc, prepare_pc, write_pc,
}
use b2c_fast_copy.Engine.Content.Defs.{Copy, IsCopyable, IsJobOf, IsLoaded, IsCarrying, IsSourced}
use b2c_fast_copy.Engine.Content.Data.{read-bytes}
use b2c_fast_copy.Engine.Content.Effect.{prepare-memory, prepare_prepared}
use b2c_fast_copy.Engine.Content.Steps.{IsLoaded-memory}

module _ {W : Type 0} (sys : Os W) (content : W → FilePath → Content)
    (laws : IsFileSystem sys content) (c : Copy) (ok : IsCopyable c) where
  -- The chunk of a read that succeeded is loaded.
  read-IsLoaded :
      (sh : Shared W) (hs : List ℕ) (buf : ℕ) (job : Job)
      → IsJobOf c job
      → IsSourced content c sh
      → (read sys sh hs buf job).1 ≡ pushing (chunk_of sh.align buf job)
      → IsLoaded c (read sys sh hs buf job).0.memory (chunk_of sh.align buf job)
  read-IsLoaded sh hs buf job k s e = record {
    job = k;
    padded = same;
    bytes = λ i h.
        read-bytes sys content laws sh hs buf job (chunk_of sh.align buf job) i e
          (omega (arith, same, k.above))
          (rw (s.tasks job.file, s.sources job.file k.known, ok.sized job.file k.known)
            (omega (arith, k.inside)))
          (rw (s.tasks job.file, s.sources job.file k.known, ok.sized job.file k.known)
            (ok.small job.file k.known))
        ∙ ap (λ (d : Content). d.byte (job.offset + i)) source;
  }
    where
      same : round_up job.len sh.align % 2 ^ 32 ≡ round_up job.len c.align
      same = rw s.aligned (mod-eq_of_lt k.narrow)

      source : content sh.os (sh.entries job.file).task.src ≡ c.source job.file
      source = rw (s.tasks job.file) (s.sources job.file k.known)

  pub dispatch-IsCarrying :
      (target idx : ℕ) (pc : Pc) (w : Worker) (sh : Shared W)
      → IsCarrying c sh pc
      → IsSourced content c sh
      → IsCarrying c (dispatch sys target idx pc w sh).0 (dispatch sys target idx pc w sh).1.pc
  unfolding dispatch settle count release_free push_filled
  dispatch-IsCarrying target idx looping w sh k s = ground arith
  dispatch-IsCarrying target idx (acquiring last) w sh k s = elim (acquire_cases sh last) [
    | inl e ↦ rw e (ground arith)
    | inr (buf, rest, free, e) ↦ rw e tt
  ]
  dispatch-IsCarrying target idx (claiming last buf) w sh k s = elim (claim_cases sh last buf) [
    | inl (end, e) ↦ rw e tt
    | inr (job, at, e) ↦ rw e (All-get_elem? (IsJobOf c) sh.jobs sh.cursor job s.jobs at)
  ]
  dispatch-IsCarrying target idx (returning last buf) w sh k s = ground arith
  dispatch-IsCarrying target idx (reading buf job) w sh k s = elim (read_pc sys sh w.src buf job) [
    | inl e ↦ rw e (read-IsLoaded sh w.src buf job k s e)
    | inr e ↦ rw e tt
  ]
  dispatch-IsCarrying target idx (pushing ch) w sh k s = tt
  dispatch-IsCarrying target idx (popping last) w sh k s = elim (pop_cases sh last) [
    | inl (empty, e) ↦ rw e (ground arith)
    | inr (ch, rest, filled, e) ↦ rw e (rw filled at s.ring).0
  ]
  dispatch-IsCarrying target idx (preparing ch) w sh k s = elim (prepare_pc sys sh ch) [
    | inl e ↦ rw e (
      IsLoaded-memory (ap (λ (m : ℕ → ℕ → ℕ). m ch.buf) (prepare-memory sys sh ch)) k,
      prepare_prepared sys sh ch ch e,
    )
    | inr e ↦ rw e tt
  ]
  dispatch-IsCarrying target idx (writing ch) w sh k s = elim (write_pc sys sh w.dst ch) [
    | inl e ↦ rw e k.0.job.known
    | inr e ↦ rw e tt
  ]
  dispatch-IsCarrying target idx (releasing buf after) w sh k s = k
  dispatch-IsCarrying target idx (settling early) w sh k s = tt
  dispatch-IsCarrying target idx (settling (counted f)) w sh k s = k
  dispatch-IsCarrying target idx (counting f) w sh k s = ground arith
  dispatch-IsCarrying target idx (finalizing f) w sh k s = tt
  dispatch-IsCarrying target idx exited w sh k s = tt
