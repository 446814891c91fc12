-- ===== src/Engine/Small/Copies.antt =====
-- Every small file is copied, or an error is recorded.
use b2c_fast_copy.Base.{
  ℕ, ◌+◌, ◌^◌, ◌≤◌, ◌<◌, ◌≡◌, ◌≢◌, ◌⊎◌, refl, inl, inr, sym, ap, subst, ◌∙◌, some, List, [], ◌∷◌,
  arith, get_elem?, length, length-append, min, All,
}
use b2c_fast_copy.Win.Defs.{FilePath, Reply}
use b2c_fast_copy.Win.FileSystem.{Content}
use b2c_fast_copy.Win.Std.{Std, IsStd, Same}
use b2c_fast_copy.Stats.{Stats, add_read, add_written}
use b2c_fast_copy.Scanner.{FileTask}
use b2c_fast_copy.Engine.Claims.{IsLeft}
use b2c_fast_copy.Engine.Claims.Tally.{IsMeasured, run-tally, total-one}
use b2c_fast_copy.Engine.Claims.Settled.{IsSettling, run-settles}
use b2c_fast_copy.Engine.Worker.Conserve.{count-fits}
use b2c_fast_copy.Engine.Small.{Small, Line, copy, tell, run_small}

-- The files that have been dealt with.
abbrev pub dealt_with : {W : Type 0} → Small W → ℕ
dealt_with s = s.stats.files_done + s.stats.errors

-- Errors are counted only if one is recorded.
abbrev pub IsListed : {W : Type 0} → ℕ → Small W → Type 0
IsListed before s = (s.errors ≡ []) → s.stats.errors ≡ before

module _ {W : Type 0} (fs : Std W) where
  counted :
      (before : ℕ)
      → IsMeasured
          (copy fs)
          tell
          (IsListed before)
          dealt_with
          (λ (t : FileTask). 1)
          (λ (t : FileTask) (r : Reply ℕ). 1)
          (2 ^ 64)
  unfolding copy tell add_read add_written
  counted before = record {
    on_work = λ t s h. (h, refl, refl);
    on_report = λ t r s h few. told t r s h few;
  }
    where
      told :
          (t : FileTask) (r : Reply ℕ) (s : Small W)
          → IsListed before s
          → dealt_with s + 1 < 2 ^ 64
          → IsListed before (tell t r s) × (dealt_with (tell t r s) ≡ dealt_with s + 1)
      told t (Reply.done n) s h few =
          (h, omega (arith, count-fits s.stats.files_done (omega arith)))
      told t (Reply.failed code) s h few = (
        λ e. absurd (ground (arith, length-append s.errors (Line.not_copied t.src code ∷ []), e)),
        omega (arith, count-fits s.stats.errors (omega arith)),
      )

tell_errors :
    {W : Type 0} (t : FileTask) (r : Reply ℕ) (s : Small W)
    → length s.errors ≤ length (tell t r s).errors
unfolding tell add_read add_written
tell_errors t (Reply.done n) s = omega arith
tell_errors t (Reply.failed code) s =
    ground (arith, length-append s.errors (Line.not_copied t.src code ∷ []))

pub tell_os : {W : Type 0} (t : FileTask) (r : Reply ℕ) (s : Small W) → (tell t r s).os ≡ s.os
unfolding tell add_read add_written
tell_os t (Reply.done n) s = refl
tell_os t (Reply.failed code) s = refl

-- Sources and destinations are different files, and two destinations are different files.
pub record IsApart (ts : List FileTask) : Type 0 where
  pub apart :
      (i j : ℕ) (t u : FileTask) → get_elem? ts i ≡ some t → get_elem? ts j ≡ some u → t.src ≢ u.dst
  pub distinct :
      (i j : ℕ) (t u : FileTask)
      → get_elem? ts i ≡ some t
      → get_elem? ts j ≡ some u
      → i ≢ j
      → t.dst ≢ u.dst

module _ {W : Type 0} (fs : Std W) (content : W → FilePath → Content) (laws : IsStd fs content)
    (ts : List FileTask) (ok : IsApart ts) (before : W) where
  -- No source has changed.
  abbrev SourcesKept : Small W → Type 0
  SourcesKept s =
      (i : ℕ) (t : FileTask) → get_elem? ts i ≡ some t → content s.os t.src ≡ content before t.src

  abbrev IsCopied : FileTask → Small W → Type 0
  IsCopied t s = Same (content s.os t.dst) (content before t.src)

  abbrev WhenDone : FileTask → Reply ℕ → Small W → Type 0
  WhenDone t (Reply.done n) s = IsCopied t s
  WhenDone t (Reply.failed code) s = Unit

  abbrev Settled : FileTask → Small W → Type 0
  Settled t s = (0 < length s.errors) ⊎ IsCopied t s

  WhenDone-move :
      (t : FileTask) (r : Reply ℕ) (s s' : Small W)
      → content s'.os t.dst ≡ content s.os t.dst
      → WhenDone t r s
      → WhenDone t r s'
  WhenDone-move t (Reply.done n) s s' e h = subst (λ d. Same d (content before t.src)) (sym e) h
  WhenDone-move t (Reply.failed code) s s' e h = tt

  copy_done :
      (t : FileTask) (s : Small W)
      → content s.os t.src ≡ content before t.src
      → WhenDone t (copy fs t s).1 (copy fs t s).0
  unfolding copy
  copy_done t s e = by_reply (fs.copy s.os t.src t.dst).1 refl
    where
      by_reply : (r : Reply ℕ) → (fs.copy s.os t.src t.dst).1 ≡ r → WhenDone t r (copy fs t s).0
      by_reply (Reply.done n) h =
          subst (λ d. Same (content (fs.copy s.os t.src t.dst).0 t.dst) d) e
            (laws.copy_same s.os t.src t.dst n h)
      by_reply (Reply.failed code) h = tt

  tell_own : (t : FileTask) (r : Reply ℕ) (s : Small W) → WhenDone t r s → Settled t (tell t r s)
  unfolding tell add_read add_written
  tell_own t (Reply.done n) s h = inr h
  tell_own t (Reply.failed code) s h =
      inl (ground (arith, length-append s.errors (Line.not_copied t.src code ∷ [])))

  settling : IsSettling ts (copy fs) tell SourcesKept WhenDone Settled
  unfolding copy
  settling = record {
    work_own = λ i t s at h. (
      λ j u there. laws.copy_other s.os t.src t.dst u.src (ok.apart j i u t there at) ∙ h j u there,
      copy_done t s (h i t at),
    );
    work_other = λ i j t u s at there ne h.
        let same =
          laws.copy_other s.os t.src t.dst u.dst (ok.distinct j i u t there at (λ e. ne (sym e))) in
        (
          λ d. elim d [
            | inl failed ↦ inl failed
            | inr is ↦ inr (subst (λ x. Same x (content before u.src)) (sym same) is)
          ],
          λ r q. WhenDone-move u r s (copy fs t s).0 same q,
        );
    report_own = λ t r s h q.
        (λ j u there. ap (λ w. content w u.src) (tell_os t r s) ∙ h j u there, tell_own t r s q);
    report_other = λ t u r s h.
        let same = ap (λ w. content w u.dst) (tell_os t r s) in
        (
          λ d. elim d [
            | inl failed ↦ inl (omega (arith, tell_errors t r s))
            | inr is ↦ inr (subst (λ x. Same x (content before u.src)) (sym same) is)
          ],
          λ q g. WhenDone-move u q s (tell t r s) same g,
        );
  }

module _ {W : Type 0} (fs : Std W) where
  run_small-tally :
      (workers : ℕ) (small : List FileTask) (stats : Stats) (os : W) (schedule : List ℕ)
      → 0 < workers
      → stats.files_done + stats.errors + length small < 2 ^ 64
      → let p = run_small fs workers small stats os schedule in
        All IsLeft p.threads
        → IsListed stats.errors p.shared
          × (dealt_with p.shared ≡ stats.files_done + stats.errors + length small)
  unfolding run_small
  run_small-tally workers small stats os schedule some_worker few gone =
      let (listed, all) =
        run-tally small (copy fs) tell (min workers 16)
          (record { bytes = 0; stats = stats; errors = []; os = os }) schedule
          (IsListed stats.errors) dealt_with (λ t. 1) (λ t r. 1) (2 ^ 64) (counted fs stats.errors)
          (omega arith) (λ e. refl) (omega (arith, total-one small)) gone in
      (listed, omega (arith, all, total-one small))

module _ {W : Type 0} (fs : Std W) (content : W → FilePath → Content)
    (laws : IsStd fs content) where
  -- When all threads of a copy of small files have left and no error is recorded, whatever the schedule
  -- was, each file has been counted as done, no error has been counted, and each file reads at its
  -- destination like its source before the copy. This holds for at least one worker, sources and
  -- destinations that are `IsApart`, a disk that follows `IsStd`, and counters that stay below 2 ^ 64.
  pub run_small-copies :
      (workers : ℕ) (small : List FileTask) (stats : Stats) (os : W) (schedule : List ℕ)
      → 0 < workers
      → IsApart small
      → stats.files_done + stats.errors + length small < 2 ^ 64
      → let p = run_small fs workers small stats os schedule in
        All IsLeft p.threads
        → p.shared.errors ≡ []
        → (p.shared.stats.files_done ≡ stats.files_done + length small)
          × (p.shared.stats.errors ≡ stats.errors)
          × ((i : ℕ) (t : FileTask)
              → get_elem? small i ≡ some t
              → Same (content p.shared.os t.dst) (content os t.src))
  unfolding run_small
  run_small-copies workers small stats os schedule some_worker ok few gone clean =
      let tally = run_small-tally fs workers small stats os schedule some_worker few gone in
      (
        omega (arith, tally.0 clean, tally.1),
        tally.0 clean,
        λ i t at. elim (settled.1 i t at) [
          | inl failed ↦ absurd (ground (arith, clean))
          | inr is ↦ is
        ],
      )
    where
      settled :
          let p = run_small fs workers small stats os schedule in
          SourcesKept fs content laws small ok os p.shared
          × ((i : ℕ) (t : FileTask)
              → get_elem? small i ≡ some t
              → Settled fs content laws small ok os t p.shared)
      settled =
          run-settles small (copy fs) tell (SourcesKept fs content laws small ok os)
            (WhenDone fs content laws small ok os) (Settled fs content laws small ok os)
            (settling fs content laws small ok os) (min workers 16)
            (record { bytes = 0; stats = stats; errors = []; os = os }) schedule (omega arith)
            (λ i t at. refl) gone
