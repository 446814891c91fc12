-- ===== src/Engine/Session/Parts.antt =====
-- What the two parts of a copy do when they record no error, and what they leave alone.
use b2c_fast_copy.Base.{
  ℕ, ◌+◌, ◌%◌, ◌^◌, ◌<◌, ◌≡◌, ◌≢◌, refl, ap, subst, ◌∙◌, some, List, [], length, get_elem?, min,
  All,
}
use b2c_fast_copy.Win.Defs.{FilePath, Reply, Os}
use b2c_fast_copy.Win.FileSystem.{Content, IsFileSystem}
use b2c_fast_copy.Win.Std.{Std, IsStd, Same}
use b2c_fast_copy.Stats.{Stats}
use b2c_fast_copy.Scanner.{FileTask}
use b2c_fast_copy.Engine.Defs.{exited, Worker}
use b2c_fast_copy.Engine.Worker
use b2c_fast_copy.Engine.Bulk.{Setup, start_shared, start}
use b2c_fast_copy.Engine.Sound.{start-IsSound}
use b2c_fast_copy.Engine.Content.Defs.{IsCopyable}
use b2c_fast_copy.Engine.Content.Start.{
  IsReady, copy_of, entry_at-task, task_there, start-IsCopying,
}
use b2c_fast_copy.Engine.Content.Outside.{run-outside}
use b2c_fast_copy.Engine.Closing.Finish.{run-finishes}
use b2c_fast_copy.Engine.Closing.Done.{run-counts}
use b2c_fast_copy.Engine.Claims.{Thread, idle, working, reporting, left, move}
use b2c_fast_copy.Engine.Claims.Once.{IsTaken, IsOnce, run_keeps, move-IsOnce, start-IsOnce}
use b2c_fast_copy.Engine.Small.{Small, copy, tell, run_small}
use b2c_fast_copy.Engine.Small.Copies.{IsApart, tell_os}

-- The files have the sizes that the scan found.
abbrev pub AreSized : {W : Type 0} → (W → FilePath → Content) → List FileTask → W → Type 0
AreSized content ts w =
    (i : ℕ) (t : FileTask)
    → get_elem? ts i ≡ some t
    → ((content w t.src).size ≡ t.size) × (t.size < 2 ^ 64)

-- All files of a list read at their destinations like their sources before.
abbrev pub AreCopied :
    {W : Type 0} → (W → FilePath → Content) → List FileTask → (before after : W) → Type 0
AreCopied content ts before after =
    (i : ℕ) (t : FileTask)
    → get_elem? ts i ≡ some t
    → Same (content after t.dst) (content before t.src)

abbrev pub IsOutside : List FileTask → FilePath → Type 0
IsOutside ts q = (i : ℕ) (t : FileTask) → get_elem? ts i ≡ some t → q ≢ t.dst

module _ {W : Type 0} (sys : Os W) (content : W → FilePath → Content)
    (laws : IsFileSystem sys content) (s : Setup) (ready : IsReady s) (ok : IsApart s.bulk) (os : W)
    (sized : AreSized content s.bulk os) where
  setup-IsCopyable : IsCopyable (copy_of content s os)
  setup-IsCopyable = record {
    apart = λ f g lf lg.
        ok.apart f g _ _ (task_there s.block_size s.bulk f lf)
          (task_there s.block_size s.bulk g lg);
    distinct = λ f g lf lg ne.
        ok.distinct f g _ _ (task_there s.block_size s.bulk f lf)
          (task_there s.block_size s.bulk g lg) ne;
    sized = λ f lf. (sized f _ (task_there s.block_size s.bulk f lf)).0;
    small = λ f lf. (sized f _ (task_there s.block_size s.bulk f lf)).1;
  }

  module _ (stats : Stats) (memory : ℕ → ℕ → ℕ) (ts : List (ℕ × ℕ)) (few : length ts < 2 ^ 64) where
    pub bulk-copies :
        let p = Worker.run sys (start s stats memory os) ts in
        p.shared.remaining ≡ 0
        → p.shared.errors ≡ []
        → All (λ (w : Worker). w.pc ≡ exited) p.workers
        → AreCopied content s.bulk os p.shared.os
    bulk-copies done clean gone i t at =
        let (same, lt) = entry_at-task s.block_size s.bulk i t at in
        let file =
          run-finishes sys content laws s stats memory os ts few ready setup-IsCopyable done clean
            gone i lt in
        subst
          (λ (u : FileTask).
            Same (content (Worker.run sys (start s stats memory os) ts).shared.os u.dst)
              (content os u.src))
          same (record { size = file.0; byte = file.1 })

    pub bulk-outside :
        (q : FilePath)
        → IsOutside s.bulk q
        → content (Worker.run sys (start s stats memory os) ts).shared.os q ≡ content os q
    unfolding start start_shared
    bulk-outside q out =
        run-outside sys content laws (copy_of content s os) setup-IsCopyable (s.buffers % 2 ^ 32) q
          (λ f lt. out f _ (task_there s.block_size s.bulk f lt)) ts (start s stats memory os)
          (start-IsSound s stats memory os (length ts) few ready.countable)
          (start-IsCopying content s ready os stats memory)

    pub bulk-counts :
        stats.files_done + length s.bulk < 2 ^ 64
        → let p = Worker.run sys (start s stats memory os) ts in
          p.shared.remaining ≡ 0
          → p.shared.errors ≡ []
          → All (λ (w : Worker). w.pc ≡ exited) p.workers
          → (p.shared.stats.files_done ≡ stats.files_done + length s.bulk)
            × (p.shared.stats.errors ≡ stats.errors)
    bulk-counts fits =
        run-counts sys content laws s stats memory os ts few ready setup-IsCopyable fits

-- The copy of small files leaves every other file alone.
module _ {W : Type 0} (fs : Std W) (content : W → FilePath → Content)
    (laws : IsStd fs content) where
  pub small-outside :
      (workers : ℕ) (small : List FileTask) (stats : Stats) (os : W) (schedule : List ℕ)
      → (q : FilePath) → IsOutside small q
      → content (run_small fs workers small stats os schedule).shared.os q ≡ content os q
  unfolding run_small move copy
  small-outside workers small stats os schedule q out =
      (run_keeps small (copy fs) tell (λ p. IsOnce small p × (content p.shared.os q ≡ content os q))
        (λ p k th at h. (
          move-IsOnce small (copy fs) tell p k th at h.0,
          kept p.next p.shared th (h.0.taken k th at) h.1,
        ))
        schedule _ (start-IsOnce small (min workers 16) _, refl)).1
    where
      kept :
          (next : ℕ) (s : Small W) (th : Thread FileTask (Reply ℕ))
          → IsTaken small next th
          → content s.os q ≡ content os q
          → content (move small (copy fs) tell th next s).1.os q ≡ content os q
      kept next s idle k h = h
      kept next s (working i t) k h = laws.copy_other s.os t.src t.dst q (out i t k.1) ∙ h
      kept next s (reporting i t r) k h = ap (λ w. content w q) (tell_os t r s) ∙ h
      kept next s left k h = h
