-- ===== src/Engine/Content/Outside.antt =====
-- A bulk copy leaves every file alone that is not one of its destinations.
use b2c_fast_copy.Base.{
  ℕ, ◌<◌, ◌≡◌, ◌≢◌, inl, inr, refl, ◌∙◌, List, [], ◌∷◌, length, get_elem?, Option-cases,
}
use b2c_fast_copy.Win.Defs.{FilePath, Os}
use b2c_fast_copy.Win.FileSystem.{Content, IsFileSystem}
use b2c_fast_copy.Rings.{release_free, push_filled}
use b2c_fast_copy.Engine.Defs.{
  Shared, Pc, looping, acquiring, claiming, returning, reading, pushing, popping, preparing,
  writing, releasing, settling, counting, finalizing, exited, Worker,
}
use b2c_fast_copy.Engine.Steps.{settle, count, claim}
use b2c_fast_copy.Engine.Worker.{Pipeline, dispatch, step, turn, run}
use b2c_fast_copy.Engine.Worker.Frame.{acquire_cases, pop_cases}
use b2c_fast_copy.Engine.Sound.{IsSound, turn-IsSound}
use b2c_fast_copy.Engine.Content.Defs.{Copy, IsCopyable, IsCarrying, IsSourced, IsCopying}
use b2c_fast_copy.Engine.Content.Calls.{read-keeps, prepare-other, write-other, finalize-other}
use b2c_fast_copy.Engine.Content.Run.{turn-IsCopying}

module _ {W : Type 0} (sys : Os W) (content : W → FilePath → Content)
    (laws : IsFileSystem sys content) (c : Copy) (ok : IsCopyable c) (capacity : ℕ) (q : FilePath)
    (outside : (f : ℕ) → f < c.count → q ≢ (c.task f).dst) where
  not_own :
      (sh : Shared W) (f : ℕ) → IsSourced content c sh → f < c.count → q ≢ (sh.entries f).task.dst
  not_own sh f s known = rw (s.tasks f) (outside f known)

  dispatch-outside :
      (target idx : ℕ) (pc : Pc) (w : Worker) (sh : Shared W)
      → IsSourced content c sh
      → IsCarrying c sh pc
      → content (dispatch sys target idx pc w sh).0.os q ≡ content sh.os q
  unfolding dispatch settle count claim release_free push_filled
  dispatch-outside target idx looping w sh s k = refl
  dispatch-outside target idx (acquiring last) w sh s k = elim (acquire_cases sh last) [
    | inl e ↦ rw e refl
    | inr (buf, tail, free, e) ↦ rw e refl
  ]
  dispatch-outside target idx (claiming last buf) w sh s k = refl
  dispatch-outside target idx (returning last buf) w sh s k = refl
  dispatch-outside target idx (reading buf job) w sh s k =
      read-keeps sys content laws sh w.src buf job q
  dispatch-outside target idx (pushing ch) w sh s k = refl
  dispatch-outside target idx (popping last) w sh s k = elim (pop_cases sh last) [
    | inl (empty, e) ↦ rw e refl
    | inr (ch, tail, filled, e) ↦ rw e refl
  ]
  dispatch-outside target idx (preparing ch) w sh s k =
      prepare-other sys content laws sh ch q (not_own sh ch.file s k.job.known)
  dispatch-outside target idx (writing ch) w sh s k =
      write-other sys content laws sh w.dst ch q (not_own sh ch.file s k.0.job.known)
  dispatch-outside target idx (releasing buf after) w sh s k = refl
  dispatch-outside target idx (settling after) w sh s k = refl
  dispatch-outside target idx (counting f) w sh s k = refl
  dispatch-outside target idx (finalizing f) w sh s k =
      finalize-other sys content laws sh f q (not_own sh f s k)
  dispatch-outside target idx exited w sh s k = refl

  pub run-outside :
      (ts : List (ℕ × ℕ)) (p : Pipeline W)
      → IsSound capacity (length ts) p
      → IsCopying content c p
      → content (run sys p ts).shared.os q ≡ content p.shared.os q
  unfolding run turn step
  run-outside [] p sound copying = refl
  run-outside (t ∷ ts) p sound copying =
      run-outside ts (turn sys p t) (turn-IsSound sys capacity p (length ts) t sound)
        (turn-IsCopying sys content laws c ok capacity p (length ts) t sound copying)
      ∙ turned t
    where
      turned : (t : ℕ × ℕ) → content (turn sys p t).shared.os q ≡ content p.shared.os q
      turned (target, idx) = elim (Option-cases (get_elem? p.workers idx)) [
        | inl e ↦ rw (e, turn) refl
        | inr (w, e) ↦
            rw (e, turn)
              (dispatch-outside target idx w.pc w p.shared copying.sourced
                (copying.workers idx w e))
      ]
