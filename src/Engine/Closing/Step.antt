-- ===== src/Engine/Closing/Step.antt =====
-- What the calls of a worker do to the chunks of a file that are due.
use b2c_fast_copy.Base.{
  ℕ, ◌+◌, ◌≤◌, ◌<◌, ◌≡◌, ◌≢◌, ◌⊎◌, inl, inr, sym, ap, subst, ◌∙◌, true, List, length, arith,
  eq-cases, ◌==◌, if◌then◌else◌,
}
use native.Mathlib.Decide.{dec_lt}
use b2c_fast_copy.Win.Defs.{FilePath, Os}
use b2c_fast_copy.Win.FileSystem.{Content, IsFileSystem}
use b2c_fast_copy.Rings.{Chunk, release_free, push_filled}
use b2c_fast_copy.Engine.Defs.{
  Shared, Job, Pc, early, counted, looping, acquiring, claiming, returning, reading, pushing,
  popping, preparing, writing, releasing, settling, counting, finalizing, exited, Worker,
}
use b2c_fast_copy.Engine.Steps.{settle, count}
use b2c_fast_copy.Engine.Read.{read}
use b2c_fast_copy.Engine.Write.{prepare, write, finalize}
use b2c_fast_copy.Engine.Worker.{dispatch}
use b2c_fast_copy.Engine.Worker.Frame.{
  claim_cases, acquire_cases, pop_cases, Keeps, read-Keeps, read_pc, prepare-Keeps, prepare_pc,
  write-Keeps, write_pc, finalize-Keeps,
}
use b2c_fast_copy.Engine.Content.Defs.{Copy, IsCopyable, IsCarrying, IsSourced}
use b2c_fast_copy.Engine.Content.Trim.{finalize-size}
use b2c_fast_copy.Engine.Content.Calls.{read-keeps, prepare-other, write-other, finalize-other}
use b2c_fast_copy.Engine.Content.Effect.{
  Effect, read_early, prepare_early, write_early, read-Effect, prepare-Effect, write-Effect,
  finalize-Effect,
}
use b2c_fast_copy.Engine.Closing.{job_in, chunk_in, due, closing, queued, IsPosted, Closes}

module _ {W : Type 0} (sys : Os W) where
  -- Past the write, the file of the chunk is prepared.
  pub dispatch-IsPosted :
      (c : Copy) (target idx : ℕ) (pc : Pc) (w : Worker) (sh : Shared W)
      → IsCarrying c sh pc
      → IsPosted sh pc
      → IsPosted (dispatch sys target idx pc w sh).0 (dispatch sys target idx pc w sh).1.pc
  unfolding dispatch settle count release_free push_filled
  dispatch-IsPosted c target idx looping w sh k h = ground arith
  dispatch-IsPosted c target idx (acquiring last) w sh k h = elim (acquire_cases sh last) [
    | inl e ↦ rw e (ground arith)
    | inr (buf, rest, free, e) ↦ rw e tt
  ]
  dispatch-IsPosted c target idx (claiming last buf) w sh k h = elim (claim_cases sh last buf) [
    | inl (end, e) ↦ rw e tt
    | inr (job, at, e) ↦ rw e tt
  ]
  dispatch-IsPosted c target idx (returning last buf) w sh k h = ground arith
  dispatch-IsPosted c target idx (reading buf job) w sh k h = elim (read_pc sys sh w.src buf job) [
    | inl e ↦ rw e tt
    | inr e ↦ rw e tt
  ]
  dispatch-IsPosted c target idx (pushing ch) w sh k h = tt
  dispatch-IsPosted c target idx (popping last) w sh k h = elim (pop_cases sh last) [
    | inl (empty, e) ↦ rw e (ground arith)
    | inr (ch, rest, filled, e) ↦ rw e tt
  ]
  dispatch-IsPosted c target idx (preparing ch) w sh k h = elim (prepare_pc sys sh ch) [
    | inl e ↦ rw e tt
    | inr e ↦ rw e tt
  ]
  dispatch-IsPosted c target idx (writing ch) w sh k h = elim (write_pc sys sh w.dst ch) [
    | inl e ↦ rw e ((write-Effect sys sh w.dst ch).prepared ch.file k.1)
    | inr e ↦ rw e tt
  ]
  dispatch-IsPosted c target idx (releasing buf early) w sh k h = tt
  dispatch-IsPosted c target idx (releasing buf (counted g)) w sh k h = h
  dispatch-IsPosted c target idx (settling early) w sh k h = tt
  dispatch-IsPosted c target idx (settling (counted g)) w sh k h = h
  dispatch-IsPosted c target idx (counting g) w sh k h = ground arith
  dispatch-IsPosted c target idx (finalizing g) w sh k h = tt
  dispatch-IsPosted c target idx exited w sh k h = tt

-- The balance of file `f` of a copy.
abbrev pub ClosesFile :
    {W : Type 0} → (W → FilePath → Content) → Copy → (f due closing : ℕ) → Shared W → Type 0
ClosesFile content c f n m sh = Closes content (c.task f).dst (c.task f).size f n m sh

module _ {W : Type 0} (sys : Os W) (content : W → FilePath → Content)
    (laws : IsFileSystem sys content) (c : Copy) (ok : IsCopyable c) (f : ℕ)
    (known : f < c.count) where
  -- A step that leaves the counts of the file alone, and its size if all its chunks are counted.
  keep-Closes :
      (s t : Shared W) (n n' m : ℕ)
      → length s.errors ≤ length t.errors
      → (t.entries f).done ≡ (s.entries f).done
      → (t.entries f).chunks ≡ (s.entries f).chunks
      → queued f t + n' ≡ queued f s + n
      → ((0 < n) ⊎ ((content t.os (c.task f).dst).size ≡ (content s.os (c.task f).dst).size))
      → ClosesFile content c f n m s
      → ClosesFile content c f n' m t
  keep-Closes s t n n' m errors done chunks work same (inl failed) = inl (omega arith)
  keep-Closes s t n n' m errors done chunks work same (inr b) = inr (
    omega (arith, b.0),
    λ e. elim same [
      | inl some_due ↦ absurd (omega (arith, b.0))
      | inr size ↦ elim (b.1 (omega arith)) [
        | inl some_worker ↦ inl some_worker
        | inr is ↦ inr (size ∙ is)
      ]
    ],
  )

  -- The same for a call of the operating system.
  call-Closes :
      (s t : Shared W) (n m : ℕ)
      → Keeps s t
      → Effect s t
      → ((0 < n) ⊎ ((content t.os (c.task f).dst).size ≡ (content s.os (c.task f).dst).size))
      → ClosesFile content c f n m s
      → ClosesFile content c f n m t
  call-Closes s t n m keeps effect same h =
      keep-Closes s t n n m effect.errors (effect.done f) (effect.chunks f)
        (ground (arith, keeps.rings, keeps.jobs, keeps.cursor)) same h

  pub read-Closes :
      (sh : Shared W) (hs : List ℕ) (buf : ℕ) (job : Job) (rest m : ℕ)
      → ClosesFile content c f (job_in f job + rest) (0 + m) sh
      → ClosesFile content c f
          (due f (read sys sh hs buf job).1 + rest)
          (closing f (read sys sh hs buf job).1 + m)
          (read sys sh hs buf job).0
  read-Closes sh hs buf job rest m h = elim (read_pc sys sh hs buf job) [
    | inl e ↦ rw e (
        call-Closes sh _ (job_in f job + rest) (0 + m) (read-Keeps sys sh hs buf job)
          (read-Effect sys sh hs buf job)
          (inr (
            ap (λ (d : Content). d.size)
              (read-keeps sys content laws sh hs buf job (c.task f).dst)))
          h)
    | inr e ↦ inl (read_early sys sh hs buf buf job e)
  ]

  -- A call on the destination of a chunk's file: that file has a chunk due, or is another.
  own_or_other :
      (sh t : Shared W) (g rest : ℕ)
      → g < c.count
      → IsSourced content c sh
      → ((q : FilePath) → q ≢ (sh.entries g).task.dst → content t.os q ≡ content sh.os q)
      → (0 < (if g == f then 1 else 0) + rest)
        ⊎ ((content t.os (c.task f).dst).size ≡ (content sh.os (c.task f).dst).size)
  own_or_other sh t g rest there s other = elim (eq-cases g f) [
    | inl own ↦ inl (ground (arith, own))
    | inr apart ↦ inr (
        ap (λ (d : Content). d.size)
          (other (c.task f).dst
            (rw (s.tasks g) (ok.distinct f g known there (λ e. apart (sym e))))))
  ]

  pub prepare-Closes :
      (sh : Shared W) (ch : Chunk) (rest m : ℕ)
      → ch.file < c.count
      → IsSourced content c sh
      → ClosesFile content c f (chunk_in f ch + rest) (0 + m) sh
      → ClosesFile content c f
          (due f (prepare sys sh ch).1 + rest)
          (closing f (prepare sys sh ch).1 + m)
          (prepare sys sh ch).0
  prepare-Closes sh ch rest m there s h = elim (prepare_pc sys sh ch) [
    | inl e ↦ rw e (
        call-Closes sh _ (chunk_in f ch + rest) (0 + m) (prepare-Keeps sys sh ch)
          (prepare-Effect sys sh ch)
          (own_or_other sh (prepare sys sh ch).0 ch.file rest there s
            (prepare-other sys content laws sh ch))
          h)
    | inr e ↦ inl (prepare_early sys sh ch ch.buf e)
  ]

  pub write-Closes :
      (sh : Shared W) (hs : List ℕ) (ch : Chunk) (rest m : ℕ)
      → ch.file < c.count
      → IsSourced content c sh
      → ClosesFile content c f (chunk_in f ch + rest) (0 + m) sh
      → ClosesFile content c f
          (due f (write sys sh hs ch).1 + rest)
          (closing f (write sys sh hs ch).1 + m)
          (write sys sh hs ch).0
  write-Closes sh hs ch rest m there s h = elim (write_pc sys sh hs ch) [
    | inl e ↦ rw e (
        call-Closes sh _ (chunk_in f ch + rest) (0 + m) (write-Keeps sys sh hs ch)
          (write-Effect sys sh hs ch)
          (own_or_other sh (write sys sh hs ch).0 ch.file rest there s
            (write-other sys content laws sh hs ch))
          h)
    | inr e ↦ inl (write_early sys sh hs ch ch.buf e)
  ]

  -- `finalize` gives the file its size; another file keeps its own.
  pub finalize-Closes :
      (sh : Shared W) (g n m : ℕ)
      → g < c.count
      → (sh.entries g).master ≡ true
      → IsSourced content c sh
      → ClosesFile content c f n ((if g == f then 1 else 0) + m) sh
      → ClosesFile content c f n m (finalize sys sh g)
  finalize-Closes sh g n m there held s (inl failed) =
      inl (omega (arith, (finalize-Effect sys sh g).errors))
  finalize-Closes sh g n m there held s (inr b) =
      elim (dec_lt 0 (length (finalize sys sh g).errors)) [
        | yes failed ↦ inl failed
        | no clean ↦ elim (eq-cases g f) [
          | inl own ↦ inr (sum, λ e. inr (own_size own (omega arith)))
          | inr apart ↦ inr (
            sum,
            λ e. elim (b.1 (omega (arith, effect.done f, effect.chunks f))) [
              | inl some_worker ↦ inl (ground (arith, some_worker, apart))
              | inr is ↦ inr (other_size apart ∙ is)
            ],
          )
        ]
      ]
    where
      effect : Effect sh (finalize sys sh g)
      effect = finalize-Effect sys sh g

      keeps : Keeps sh (finalize sys sh g)
      keeps = finalize-Keeps sys sh g

      sum :
          ((finalize sys sh g).entries f).done + queued f (finalize sys sh g) + n
          ≡ ((finalize sys sh g).entries f).chunks
      sum =
          ground (arith, b.0, effect.done f, effect.chunks f, keeps.rings, keeps.jobs, keeps.cursor)

      own_size :
          g ≡ f
          → length (finalize sys sh g).errors ≡ 0
          → (content (finalize sys sh g).os (c.task f).dst).size ≡ (c.task f).size
      own_size own clean =
          subst (λ x. (content (finalize sys sh g).os (c.task x).dst).size ≡ (c.task x).size) own
            (let is = finalize-size sys content laws sh g clean held in rw (s.tasks g) at is)

      other_size :
          g ≢ f
          → (content (finalize sys sh g).os (c.task f).dst).size
            ≡ (content sh.os (c.task f).dst).size
      other_size apart =
          ap (λ (d : Content). d.size)
            (finalize-other sys content laws sh g (c.task f).dst
              (rw (s.tasks g) (ok.distinct f g known there (λ e. apart (sym e)))))
