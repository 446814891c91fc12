-- ===== src/Engine/Content/Turn/Calls.antt =====
-- What the calls of a worker do to a byte that is on its way or stands at its destination.
use b2c_fast_copy.Base.{
  ℕ, ◌+◌, ◌≤◌, ◌<◌, ◌≡◌, ◌⊎◌, ◌-◌, inl, inr, refl, sym, ap, subst, ◌∙◌, true, List, length, arith,
  eq-cases,
}
use native.Mathlib.Decide.{dec_lt}
use b2c_fast_copy.Win.Defs.{FilePath, Os}
use b2c_fast_copy.Win.FileSystem.{Content, IsFileSystem}
use b2c_fast_copy.Scanner.{FileTask}
use b2c_fast_copy.Rings.{Chunk}
use b2c_fast_copy.Engine.Defs.{Shared, Job}
use b2c_fast_copy.Engine.Read.{read}
use b2c_fast_copy.Engine.Write.{prepare, write, finalize}
use b2c_fast_copy.Engine.Worker.Frame.{
  Keeps, read-Keeps, read_pc, prepare-Keeps, prepare_pc, write-Keeps, write_pc, finalize-Keeps,
}
use b2c_fast_copy.Engine.Content.Defs.{
  job_at, chunk_at, carried, pending, Stands, Arrives, Copy, IsCopyable, IsLoaded, IsSourced,
}
use b2c_fast_copy.Engine.Content.Data.{write-inside, write-outside}
use b2c_fast_copy.Engine.Content.Trim.{finalize-bytes}
use b2c_fast_copy.Engine.Content.Calls.{
  read-keeps, prepare-other, prepare-again, write-other, finalize-other,
}
use b2c_fast_copy.Engine.Content.Effect.{
  read_early, prepare_early, write_early, Effect, read-Effect, prepare-Effect, write-Effect,
  finalize-Effect,
}

module _ {W : Type 0} (sys : Os W) (content : W → FilePath → Content)
    (laws : IsFileSystem sys content) (c : Copy) (ok : IsCopyable c) (f k : ℕ) (known : f < c.count)
    (inside : k < (c.task f).size) where
  -- A step with no error recorded that keeps the work that is under way and the byte that stands.
  keep-Arrives :
      (s t : Shared W) (m n : ℕ)
      → length s.errors ≤ length t.errors
      → pending f k s + m ≤ pending f k t + n
      → (length t.errors ≡ 0 → Stands content c f k s → Stands content c f k t)
      → Arrives content c f k m s
      → Arrives content c f k n t
  keep-Arrives s t m n errors work stand (inl e) = inl (omega arith)
  keep-Arrives s t m n errors work stand (inr (inl e)) = inr (inl (omega arith))
  keep-Arrives s t m n errors work stand (inr (inr e)) = elim (dec_lt 0 (length t.errors)) [
    | yes failed ↦ inl failed
    | no clean ↦ inr (inr (stand (omega arith) e))
  ]

  Keeps-pending : {s t : Shared W} → Keeps s t → pending f k t ≡ pending f k s
  Keeps-pending {s} {t} h = ground (arith, h.rings, h.jobs, h.cursor)

  -- The same for a call of the operating system.
  call-Arrives :
      (s t : Shared W) (m n : ℕ)
      → Keeps s t
      → Effect s t
      → m ≤ n
      → (length t.errors ≡ 0
          → (s.entries f).prepared ≡ true
          → (content t.os (c.task f).dst).byte k ≡ (content s.os (c.task f).dst).byte k)
      → Arrives content c f k m s
      → Arrives content c f k n t
  call-Arrives s t m n keeps effect le same a =
      keep-Arrives s t m n effect.errors (omega (arith, Keeps-pending keeps, le))
        (λ clean st. (effect.prepared f st.0, same clean st.0 ∙ st.1)) a

  pub read-Arrives :
      (sh : Shared W) (hs : List ℕ) (buf : ℕ) (job : Job) (rest : ℕ)
      → Arrives content c f k (job_at f k job + rest) sh
      → Arrives content c f k
          (carried f k (read sys sh hs buf job).1 + rest)
          (read sys sh hs buf job).0
  read-Arrives sh hs buf job rest a = elim (read_pc sys sh hs buf job) [
    | inl e ↦ rw e (
        call-Arrives sh _ (job_at f k job + rest) (job_at f k job + rest)
          (read-Keeps sys sh hs buf job) (read-Effect sys sh hs buf job) (omega arith)
          (λ clean st.
            ap (λ (d : Content). d.byte k)
              (read-keeps sys content laws sh hs buf job (c.task f).dst))
          a)
    | inr e ↦ inl (read_early sys sh hs buf buf job e)
  ]

  pub prepare-Arrives :
      (sh : Shared W) (ch : Chunk) (rest : ℕ)
      → ch.file < c.count
      → IsSourced content c sh
      → Arrives content c f k (chunk_at f k ch + rest) sh
      → Arrives content c f k (carried f k (prepare sys sh ch).1 + rest) (prepare sys sh ch).0
  prepare-Arrives sh ch rest there s a = elim (prepare_pc sys sh ch) [
    | inl e ↦ rw e (
        call-Arrives sh _ (chunk_at f k ch + rest) (chunk_at f k ch + rest)
          (prepare-Keeps sys sh ch) (prepare-Effect sys sh ch) (omega arith) same a)
    | inr e ↦ inl (prepare_early sys sh ch ch.buf e)
  ]
    where
      same :
          length (prepare sys sh ch).0.errors ≡ 0
          → (sh.entries f).prepared ≡ true
          → (content (prepare sys sh ch).0.os (c.task f).dst).byte k
            ≡ (content sh.os (c.task f).dst).byte k
      same clean st = elim (eq-cases ch.file f) [
        | inl own ↦
            rw
              (prepare-again sys content laws sh ch
                (subst (λ g. (sh.entries g).prepared ≡ true) (sym own) st))
              refl
        | inr other ↦
            ap (λ (d : Content). d.byte k)
              (prepare-other sys content laws sh ch (c.task f).dst
                (rw (s.tasks ch.file) (ok.distinct f ch.file known there (λ e. other (sym e)))))
      ]

  -- A clean write of another piece leaves the byte alone.
  write-same :
      (sh : Shared W) (hs : List ℕ) (ch : Chunk)
      → IsLoaded c sh.memory ch
      → IsSourced content c sh
      → chunk_at f k ch ≡ 0
      → length (write sys sh hs ch).0.errors ≡ 0
      → (content (write sys sh hs ch).0.os (c.task f).dst).byte k
        ≡ (content sh.os (c.task f).dst).byte k
  write-same sh hs ch load s off clean = elim (eq-cases ch.file f) [
    | inl own ↦
        let e =
          write-outside sys content laws sh hs ch k clean
            (omega (arith, load.job.inside, ok.small ch.file load.job.known)) (outside own) in
        subst (λ p. (content (write sys sh hs ch).0.os p).byte k ≡ (content sh.os p).byte k)
          (ap (λ (t : FileTask). t.dst) (s.tasks ch.file) ∙ ap (λ g. (c.task g).dst) own) e
    | inr other ↦
        ap (λ (d : Content). d.byte k)
          (write-other sys content laws sh hs ch (c.task f).dst (
            rw (s.tasks ch.file) (ok.distinct f ch.file known load.job.known (λ e. other (sym e)))))
  ]
    where
      outside : ch.file ≡ f → (k < ch.offset) ⊎ (ch.offset + ch.padded ≤ k)
      outside own =
          ground (arith, off, load.padded, load.job.padding, inside, ap (λ g. (c.task g).size) own)

  -- A clean write of the byte's piece puts it there.
  write-put :
      (sh : Shared W) (hs : List ℕ) (ch : Chunk)
      → IsLoaded c sh.memory ch
      → IsSourced content c sh
      → 0 < chunk_at f k ch
      → length (write sys sh hs ch).0.errors ≡ 0
      → (ch.file ≡ f)
        × ((content (write sys sh hs ch).0.os (c.task f).dst).byte k ≡ (c.source f).byte k)
  write-put sh hs ch load s on clean = (own, there)
    where
      own : ch.file ≡ f
      own = ground (arith, on)

      off : ch.offset + (k - ch.offset) ≡ k
      off = ground (arith, on)

      short : k - ch.offset < ch.len
      short = ground (arith, on)

      there : (content (write sys sh hs ch).0.os (c.task f).dst).byte k ≡ (c.source f).byte k
      there =
          let e =
            write-inside sys content laws sh hs ch (k - ch.offset) clean
              (omega (arith, load.job.inside, ok.small ch.file load.job.known))
              (omega (arith, load.padded, load.job.above, short))
            ∙ load.bytes (k - ch.offset) short in
          subst
            (λ g. (content (write sys sh hs ch).0.os (c.task g).dst).byte k ≡ (c.source g).byte k)
            own
            (subst
              (λ p.
                (content (write sys sh hs ch).0.os (c.task ch.file).dst).byte p
                ≡ (c.source ch.file).byte p)
              off (rw (s.tasks ch.file) at e))

  pub write-Arrives :
      (sh : Shared W) (hs : List ℕ) (ch : Chunk) (rest : ℕ)
      → IsLoaded c sh.memory ch
      → (sh.entries ch.file).prepared ≡ true
      → IsSourced content c sh
      → Arrives content c f k (chunk_at f k ch + rest) sh
      → Arrives content c f k (carried f k (write sys sh hs ch).1 + rest) (write sys sh hs ch).0
  write-Arrives sh hs ch rest load ready s a = elim (write_pc sys sh hs ch) [
    | inl e ↦ rw e (elim (dec_lt 0 (length (write sys sh hs ch).0.errors)) [
      | yes failed ↦ inl failed
      | no clean ↦ elim (dec_lt 0 (chunk_at f k ch)) [
        | yes on ↦
            let (own, put) = write-put sh hs ch load s on (omega arith) in
            inr (
              inr (
                (write-Effect sys sh hs ch).prepared f
                    (subst (λ g. (sh.entries g).prepared ≡ true) own ready),
                put,
              ))
        | no off ↦
            call-Arrives sh _ (chunk_at f k ch + rest) (0 + rest) (write-Keeps sys sh hs ch)
              (write-Effect sys sh hs ch) (omega arith)
              (λ clean' st. write-same sh hs ch load s (omega arith) clean') a
      ]
    ])
    | inr e ↦ inl (write_early sys sh hs ch ch.buf e)
  ]

  pub finalize-Arrives :
      (sh : Shared W) (g rest : ℕ)
      → g < c.count
      → IsSourced content c sh
      → Arrives content c f k (0 + rest) sh
      → Arrives content c f k (0 + rest) (finalize sys sh g)
  finalize-Arrives sh g rest there s a =
      call-Arrives sh _ (0 + rest) (0 + rest) (finalize-Keeps sys sh g) (finalize-Effect sys sh g)
        (omega arith) same a
    where
      same :
          length (finalize sys sh g).errors ≡ 0
          → (sh.entries f).prepared ≡ true
          → (content (finalize sys sh g).os (c.task f).dst).byte k
            ≡ (content sh.os (c.task f).dst).byte k
      same clean st = elim (eq-cases g f) [
        | inl own ↦
            let b =
              finalize-bytes sys content laws sh f k (rw own at clean) (rw (s.tasks f) inside) in
            rw own (rw (s.tasks f) at b)
        | inr other ↦
            ap (λ (d : Content). d.byte k)
              (finalize-other sys content laws sh g (c.task f).dst
                (rw (s.tasks g) (ok.distinct f g known there (λ e. other (sym e)))))
      ]
