-- ===== src/Engine/Closing/Turn.antt =====
-- A step of a worker keeps the chunks of a file in balance.
use b2c_fast_copy.Base.{
  drop_past, drop_next, ℕ, ◌+◌, ◌^◌, ◌<◌, ◌≡◌, inl, inr, ap, true, [], ◌∷◌, drop, drop_end, arith,
  eq-cases, total-append,
}
use b2c_fast_copy.Win.Defs.{FilePath, Os}
use b2c_fast_copy.Win.FileSystem.{Content, IsFileSystem}
use b2c_fast_copy.Rings.{release_free, push_filled}
use b2c_fast_copy.Engine.Defs.{
  Shared, Pc, early, counted, looping, acquiring, claiming, returning, reading, pushing, popping,
  preparing, writing, releasing, settling, counting, finalizing, exited, Worker,
}
use b2c_fast_copy.Engine.Steps.{settle, count}
use b2c_fast_copy.Engine.Worker.{dispatch}
use b2c_fast_copy.Engine.Worker.Frame.{claim_cases, acquire_cases, pop_cases}
use b2c_fast_copy.Engine.Worker.Conserve.{count-fits}
use b2c_fast_copy.Engine.Content.Defs.{Copy, IsCopyable, IsCarrying, IsSourced}
use b2c_fast_copy.Engine.Closing.{chunk_in, due, closing, IsPosted}
use b2c_fast_copy.Engine.Closing.Step.{
  ClosesFile, read-Closes, prepare-Closes, write-Closes, finalize-Closes,
}

module _ {W : Type 0} (sys : Os W) (content : W → FilePath → Content)
    (laws : IsFileSystem sys content) (c : Copy) (ok : IsCopyable c) (f : ℕ)
    (known : f < c.count) where
  pub dispatch-Closes :
      (target idx : ℕ) (pc : Pc) (w : Worker) (sh : Shared W) (rest others : ℕ)
      → sh.cursor + 1 < 2 ^ 64
      → (sh.entries f).chunks < 2 ^ 64
      → ((g : ℕ) → (sh.entries g).prepared ≡ true → (sh.entries g).master ≡ true)
      → IsCarrying c sh pc
      → IsPosted sh pc
      → IsSourced content c sh
      → ClosesFile content c f (due f pc + rest) (closing f pc + others) sh
      → ClosesFile content c f
          (due f (dispatch sys target idx pc w sh).1.pc + rest)
          (closing f (dispatch sys target idx pc w sh).1.pc + others)
          (dispatch sys target idx pc w sh).0
  unfolding dispatch settle count release_free push_filled
  dispatch-Closes target idx looping w sh rest others u v p k q s h = ground arith
  dispatch-Closes target idx (acquiring last) w sh rest others u v p k q s h =
      elim (acquire_cases sh last) [
        | inl e ↦ rw e (ground arith)
        | inr (buf, tail, free, e) ↦ rw e (ground arith)
      ]
  dispatch-Closes target idx (claiming last buf) w sh rest others u v p k q s h =
      elim (claim_cases sh last buf) [
        | inl (end, e) ↦
            let stop : drop sh.cursor sh.jobs ≡ [] = drop_end sh.jobs sh.cursor end in
            let past = drop_past sh.jobs sh.cursor stop in
            let fits = count-fits sh.cursor u in rw e (ground (arith, h))
        | inr (job, at, e) ↦
            let next = drop_next sh.jobs sh.cursor job at in
            let fits = count-fits sh.cursor u in rw e (ground (arith, h))
      ]
  dispatch-Closes target idx (returning last buf) w sh rest others u v p k q s h = ground arith
  dispatch-Closes target idx (reading buf job) w sh rest others u v p k q s h =
      read-Closes sys content laws c ok f known sh w.src buf job rest others h
  dispatch-Closes target idx (pushing ch) w sh rest others u v p k q s h =
      ground (arith, total-append (chunk_in f) sh.rings.filled (ch ∷ []))
  dispatch-Closes target idx (popping last) w sh rest others u v p k q s h =
      elim (pop_cases sh last) [
        | inl (empty, e) ↦ rw e (ground arith)
        | inr (ch, tail, filled, e) ↦ rw e (ground (arith, h))
      ]
  dispatch-Closes target idx (preparing ch) w sh rest others u v p k q s h =
      prepare-Closes sys content laws c ok f known sh ch rest others k.job.known s h
  dispatch-Closes target idx (writing ch) w sh rest others u v p k q s h =
      write-Closes sys content laws c ok f known sh w.dst ch rest others k.0.job.known s h
  dispatch-Closes target idx (releasing buf early) w sh rest others u v p k q s h = h
  dispatch-Closes target idx (releasing buf (counted g)) w sh rest others u v p k q s h = h
  dispatch-Closes target idx (settling early) w sh rest others u v p k q s h = h
  dispatch-Closes target idx (settling (counted g)) w sh rest others u v p k q s h = h
  dispatch-Closes target idx (counting g) w sh rest others u v p k q s h = elim h [
    | inl failed ↦ inl failed
    | inr b ↦ elim (eq-cases g f) [
      | inl own ↦
          let done = ap (λ x. (sh.entries x).done) own in
          let chunks = ap (λ x. (sh.entries x).chunks) own in
          let more : (sh.entries f).done + 1 < 2 ^ 64 = ground (arith, b.0, own) in
          let fits = count-fits (sh.entries f).done more in
          inr (ground (arith, b.0), λ e. ground arith)
      | inr apart ↦ inr (ground (arith, b.0), λ e. ground (arith, b.1))
    ]
  ]
  dispatch-Closes target idx (finalizing g) w sh rest others u v p k q s h =
      finalize-Closes sys content laws c ok f known sh g (0 + rest) (0 + others) k (p g q) s
        (ground (arith, h))
  dispatch-Closes target idx exited w sh rest others u v p k q s h = h
