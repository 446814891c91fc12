-- ===== src/Engine/Content/Turn/Arrival.antt =====
-- What a step of a worker does to a byte that is on its way or stands at its destination.
use b2c_fast_copy.Base.{
  drop_past, drop_next, ℕ, total-append, drop, drop_end, ◌+◌, ◌^◌, ◌<◌, ◌≡◌, inl, inr, [], ◌∷◌,
  arith,
}
use b2c_fast_copy.Win.Defs.{FilePath, Os}
use b2c_fast_copy.Win.FileSystem.{Content, IsFileSystem}
use b2c_fast_copy.Rings.{release_free, push_filled}
use b2c_fast_copy.Engine.Defs.{
  Shared, Pc, early, counted, looping, acquiring, claiming, returning, reading, pushing, popping,
  preparing, writing, releasing, settling, counting, finalizing, exited, Worker,
}
use b2c_fast_copy.Engine.Steps.{settle, count}
use b2c_fast_copy.Engine.Worker.{dispatch}
use b2c_fast_copy.Engine.Worker.Frame.{claim_cases, acquire_cases, pop_cases}
use b2c_fast_copy.Engine.Content.Defs.{
  chunk_at, carried, Arrives, Copy, IsCopyable, IsCarrying, IsSourced,
}
use b2c_fast_copy.Engine.Worker.Conserve.{count-fits}
use b2c_fast_copy.Engine.Content.Turn.Calls.{
  read-Arrives, prepare-Arrives, write-Arrives, finalize-Arrives,
}

module _ {W : Type 0} (sys : Os W) (content : W → FilePath → Content)
    (laws : IsFileSystem sys content) (c : Copy) (ok : IsCopyable c) (f k : ℕ) (known : f < c.count)
    (inside : k < (c.task f).size) where
  pub dispatch-Arrives :
      (target idx : ℕ) (pc : Pc) (w : Worker) (sh : Shared W) (rest : ℕ)
      → sh.cursor + 1 < 2 ^ 64
      → IsCarrying c sh pc
      → IsSourced content c sh
      → Arrives content c f k (carried f k pc + rest) sh
      → Arrives content c f k
          (carried f k (dispatch sys target idx pc w sh).1.pc + rest)
          (dispatch sys target idx pc w sh).0
  unfolding dispatch settle count release_free push_filled
  dispatch-Arrives target idx looping w sh rest u h s a = ground arith
  dispatch-Arrives target idx (acquiring last) w sh rest u h s a = elim (acquire_cases sh last) [
    | inl e ↦ rw e (ground arith)
    | inr (buf, tail, free, e) ↦ rw e a
  ]
  dispatch-Arrives target idx (claiming last buf) w sh rest u h s a =
      elim (claim_cases sh last buf) [
        | inl (end, e) ↦
            let stop : drop sh.cursor sh.jobs ≡ [] = drop_end sh.jobs sh.cursor end in
            let past = drop_past sh.jobs sh.cursor stop in
            let fits = count-fits sh.cursor u in rw e (ground (arith, a))
        | inr (job, at, e) ↦
            let next = drop_next sh.jobs sh.cursor job at in
            let fits = count-fits sh.cursor u in rw e (ground (arith, a))
      ]
  dispatch-Arrives target idx (returning last buf) w sh rest u h s a = ground arith
  dispatch-Arrives target idx (reading buf job) w sh rest u h s a =
      read-Arrives sys content laws c ok f k known inside sh w.src buf job rest a
  dispatch-Arrives target idx (pushing ch) w sh rest u h s a =
      ground (arith, total-append (chunk_at f k) sh.rings.filled (ch ∷ []))
  dispatch-Arrives target idx (popping last) w sh rest u h s a = elim (pop_cases sh last) [
    | inl (empty, e) ↦ rw e (ground arith)
    | inr (ch, tail, filled, e) ↦ rw e (ground (arith, a))
  ]
  dispatch-Arrives target idx (preparing ch) w sh rest u h s a =
      prepare-Arrives sys content laws c ok f k known inside sh ch rest h.job.known s a
  dispatch-Arrives target idx (writing ch) w sh rest u h s a =
      write-Arrives sys content laws c ok f k known inside sh w.dst ch rest h.0 h.1 s a
  dispatch-Arrives target idx (releasing buf after) w sh rest u h s a = a
  dispatch-Arrives target idx (settling early) w sh rest u h s a = a
  dispatch-Arrives target idx (settling (counted g)) w sh rest u h s a = a
  dispatch-Arrives target idx (counting g) w sh rest u h s a = ground arith
  dispatch-Arrives target idx (finalizing g) w sh rest u h s a =
      finalize-Arrives sys content laws c ok f k known inside sh g rest h s a
  dispatch-Arrives target idx exited w sh rest u h s a = a
