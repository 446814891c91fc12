-- ===== src/Engine/Session/Dealt.antt =====
-- What each part of a copy has done with its files, and what the two do together.
use b2c_fast_copy.Base.{
  ℕ, ◌+◌, ◌^◌, ◌<◌, ◌≡◌, inl, inr, refl, sym, subst, ◌∙◌, true, Bool-cases, none, List, [], ◌∷◌,
  ◌++◌, map, length, arith, get_elem?-le, get_elem?-append_left, get_elem?-append_right,
  get_elem?-append_cases, append-eq_nil, All, ◌==◌,
}
use b2c_fast_copy.Win.Defs.{FilePath}
use b2c_fast_copy.Win.FileSystem.{Content, IsFileSystem}
use b2c_fast_copy.Win.Std.{IsStd, Same}
use b2c_fast_copy.Arena.{Arena, Allocation}
use b2c_fast_copy.Scanner.{FileTask, Plan, file_count}
use b2c_fast_copy.Engine.Defs.{Message, exited, Worker}
use b2c_fast_copy.Engine.Content.Start.{IsReady}
use b2c_fast_copy.Engine.Copier.{Copier, setup_of}
use b2c_fast_copy.Engine.Claims.{IsLeft}
use b2c_fast_copy.Engine.Small.{Line, Small}
use b2c_fast_copy.Engine.Small.Copies.{IsApart, run_small-copies}
use b2c_fast_copy.Engine.Session.{
  Outcome, no_outcome, Session, Rig, Schedules, setup_with, bulk_copy, allocate, bulk_outcome,
  run_bulk, bulk_part, small_pool, small_part, verify_pool, conclude,
}
use b2c_fast_copy.Engine.Session.Parts.{
  AreSized, AreCopied, IsOutside, bulk-copies, bulk-outside, bulk-counts, small-outside,
}

map-eq_nil : (ms : List Message) → map Line.bulk ms ≡ [] → ms ≡ []
map-eq_nil [] e = refl
map-eq_nil (m ∷ ms) e = absurd (cc)

module _ {W H : Type 0} (rig : Rig W H) (c : Copier) (content : W → FilePath → Content) where
  -- What a part of a copy has done with a list of files, from one session to the next.
  pub record Dealt (ts : List FileTask) (s t : Session W) : Type 0 where
    pub done : t.stats.files_done ≡ s.stats.files_done + length ts
    pub errors : t.stats.errors ≡ s.stats.errors
    pub copied : AreCopied content ts s.os t.os
    pub outside : (q : FilePath) → IsOutside ts q → content t.os q ≡ content s.os q

  nothing-Dealt : (ts : List FileTask) (s : Session W) → (length ts == 0) ≡ true → Dealt ts s s
  nothing-Dealt ts s e =
      let empty : length ts ≡ 0 = ground arith in
      record {
        done = omega arith;
        errors = refl;
        copied = λ i t at. absurd (omega (arith, get_elem?-le ts i t at));
        outside = λ q out. refl;
      }

  -- The threads of the bulk copy have ended.
  abbrev pub BulkEnded : Plan → Schedules → Session W → Type 0
  BulkEnded plan schedules s =
      (arena : Arena)
      → allocate rig c ≡ Allocation.made arena
      → let p = bulk_copy rig c plan arena schedules.bulk s in
        (p.shared.remaining ≡ 0) × All (λ (w : Worker). w.pc ≡ exited) p.workers

  module _ (files : IsFileSystem rig.sys content) (std : IsStd rig.fs content) (plan : Plan)
      (schedules : Schedules) (few : length schedules.bulk < 2 ^ 64) (s : Session W) where
    bulk-Dealt :
        (a : Allocation)
        → allocate rig c ≡ a
        → ((arena : Arena)
            → allocate rig c ≡ Allocation.made arena
            → IsReady (setup_with rig c plan arena))
        → IsApart plan.bulk
        → AreSized content plan.bulk s.os
        → s.stats.files_done + length plan.bulk < 2 ^ 64
        → BulkEnded plan schedules s
        → (run_bulk rig c plan schedules.bulk s no_outcome a).2 ≡ none
        → (run_bulk rig c plan schedules.bulk s no_outcome a).1.errors ≡ []
        → Dealt plan.bulk s (run_bulk rig c plan schedules.bulk s no_outcome a).0
    unfolding bulk_copy bulk_outcome setup_of
    bulk-Dealt (Allocation.made arena) is ready apart sized fits ended quiet clean =
        let end = ended arena is in
        let none_failed = map-eq_nil _ clean in
        let count =
          bulk-counts rig.sys content files (setup_with rig c plan arena) (ready arena is) apart
            s.os sized s.stats rig.arena_bytes schedules.bulk few fits end.0 none_failed end.1 in
        record {
          done = count.0;
          errors = count.1;
          copied =
              bulk-copies rig.sys content files (setup_with rig c plan arena) (ready arena is) apart
                s.os sized s.stats rig.arena_bytes schedules.bulk few end.0 none_failed end.1;
          outside =
              bulk-outside rig.sys content files (setup_with rig c plan arena) (ready arena is)
                apart s.os sized s.stats rig.arena_bytes schedules.bulk few;
        }
    bulk-Dealt Allocation.refused is ready apart sized fits ended quiet clean = absurd (cc)
    bulk-Dealt Allocation.panicked is ready apart sized fits ended quiet clean = absurd (cc)

    pub bulk_part-Dealt :
        ((arena : Arena)
          → allocate rig c ≡ Allocation.made arena
          → IsReady (setup_with rig c plan arena))
        → IsApart plan.bulk
        → AreSized content plan.bulk s.os
        → s.stats.files_done + length plan.bulk < 2 ^ 64
        → BulkEnded plan schedules s
        → (bulk_part rig c plan schedules.bulk s no_outcome).2 ≡ none
        → (bulk_part rig c plan schedules.bulk s no_outcome).1.errors ≡ []
        → Dealt plan.bulk s (bulk_part rig c plan schedules.bulk s no_outcome).0
    bulk_part-Dealt ready apart sized fits ended quiet clean =
        elim (Bool-cases (length plan.bulk == 0)) [
          | inl e ↦ rw e (nothing-Dealt plan.bulk s e)
          | inr e ↦ rw e (
              bulk-Dealt (allocate rig c) refl ready apart sized fits ended (rw e at quiet)
                (rw e at clean))
        ]

    pub small_part-Dealt :
        (o : Outcome)
        → 0 < c.workers
        → IsApart plan.small
        → s.stats.files_done + s.stats.errors + length plan.small < 2 ^ 64
        → All IsLeft (small_pool rig c plan schedules.small s).threads
        → (small_part rig c plan schedules.small s o).1.errors ≡ []
        → Dealt plan.small s (small_part rig c plan schedules.small s o).0
    unfolding small_part
    small_part-Dealt o some_worker apart fits gone clean =
        elim (Bool-cases (length plan.small == 0)) [
          | inl e ↦ rw (e, small_part) (nothing-Dealt plan.small s e)
          | inr e ↦
              rw (e, small_part) (copies (append-eq_nil o.errors _ (rw (e, small_part) at clean)).1)
        ]
      where
        end : Small W
        end = (small_pool rig c plan schedules.small s).shared

        copies : end.errors ≡ [] → Dealt plan.small s (record { os = end.os; stats = end.stats })
        copies none_failed =
            let all =
              run_small-copies rig.fs content std c.workers plan.small s.stats s.os schedules.small
                some_worker apart fits gone none_failed in
            record {
              done = all.0;
              errors = all.1;
              copied = all.2;
              outside =
                  small-outside rig.fs content std c.workers plan.small s.stats s.os
                    schedules.small;
            }

  pub small_part_clean :
      (plan : Plan) (schedule : List ℕ) (s : Session W) (o : Outcome)
      → (small_part rig c plan schedule s o).1.errors ≡ []
      → o.errors ≡ []
  unfolding small_part
  small_part_clean plan schedule s o clean = elim (Bool-cases (length plan.small == 0)) [
    | inl e ↦ rw (e, small_part) at clean
    | inr e ↦ (append-eq_nil o.errors _ (rw (e, small_part) at clean)).0
  ]

  pub conclude_clean :
      (plan : Plan) (schedule : List ℕ) (s : Session W) (o : Outcome)
      → (conclude rig c plan schedule s o).errors ≡ []
      → o.errors ≡ []
  unfolding conclude
  conclude_clean plan schedule s o clean = elim (Bool-cases c.opts.verify) [
    | inl e ↦
        (append-eq_nil o.errors (verify_pool rig c plan schedule s).shared.bad
          (ground (arith, clean))).0
    | inr e ↦ ground (arith, clean)
  ]

  pub conclude_files :
      (plan : Plan) (schedule : List ℕ) (s : Session W) (o : Outcome)
      → ((conclude rig c plan schedule s o).files ≡ s.stats.files_done)
        × ((conclude rig c plan schedule s o).files_expected ≡ length plan.bulk + length plan.small)
  unfolding conclude file_count
  conclude_files plan schedule s o = ground arith

-- Two lists of tasks that are apart together are apart one by one.
pub IsApart-left : (xs ys : List FileTask) → IsApart (xs ++ ys) → IsApart xs
IsApart-left xs ys ok = record {
  apart = λ i j t u et eu.
      ok.apart i j t u (get_elem?-append_left xs ys i t et) (get_elem?-append_left xs ys j u eu);
  distinct = λ i j t u et eu ne.
      ok.distinct i j t u (get_elem?-append_left xs ys i t et) (get_elem?-append_left xs ys j u eu)
        ne;
}

pub IsApart-right : (xs ys : List FileTask) → IsApart (xs ++ ys) → IsApart ys
IsApart-right xs ys ok = record {
  apart = λ i j t u et eu.
      ok.apart (length xs + i) (length xs + j) t u (get_elem?-append_right xs ys i ∙ et)
        (get_elem?-append_right xs ys j ∙ eu);
  distinct = λ i j t u et eu ne.
      ok.distinct (length xs + i) (length xs + j) t u (get_elem?-append_right xs ys i ∙ et)
        (get_elem?-append_right xs ys j ∙ eu) (λ e. ne (omega (arith, e)));
}

module _ {W H : Type 0} (rig : Rig W H) (c : Copier) (content : W → FilePath → Content) where
  pub both_copied :
      (plan : Plan) (s t u : Session W)
      → IsApart (plan.bulk ++ plan.small)
      → Dealt rig c content plan.bulk s t
      → Dealt rig c content plan.small t u
      → AreCopied content (plan.bulk ++ plan.small) s.os u.os
  both_copied plan s t u ok bulk small i task at =
      elim (get_elem?-append_cases plan.bulk plan.small i task at) [
        | inl first ↦
            let kept = small.outside task.dst (λ j other there.
              ok.distinct i (length plan.bulk + j) task other at
                (get_elem?-append_right plan.bulk plan.small j ∙ there)
                (omega (arith, get_elem?-le plan.bulk i task first))) in
            subst (λ d. Same d (content s.os task.src)) (sym kept) (bulk.copied i task first)
        | inr (j, second) ↦
            let kept = bulk.outside task.src (λ k other there.
              ok.apart i k task other at
                (get_elem?-append_left plan.bulk plan.small k other there)) in
            subst (λ d. Same (content u.os task.dst) d) kept (small.copied j task second)
      ]
