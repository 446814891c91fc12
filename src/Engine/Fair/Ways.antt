-- ===== src/Engine/Fair/Ways.antt =====
-- The three ways of a worker: to a chunk, to a buffer, and to the end.
use b2c_fast_copy.Base.{
  ℕ, ◌≤◌, ◌<◌, ◌≡◌, ◌⊎◌, inl, inr, arith, length, le-total, total-pos, total-le-length, false,
}
use b2c_fast_copy.Win.Defs.{Os}
use b2c_fast_copy.Engine.Defs.{Pc, acquiring, exited}
use b2c_fast_copy.Engine.Worker.{Pipeline, dispatch}
use b2c_fast_copy.Engine.Worker.Conserve.{holds, buf_weight}
use b2c_fast_copy.Engine.Sound.{held_by}
use b2c_fast_copy.Engine.Sound.Progress.{one, countdown-total}
use b2c_fast_copy.Engine.Fair.{weight, left, queued}
use b2c_fast_copy.Engine.Fair.Paths.{
  to_chunk, to_buffer, to_exit, claims, returns, exits, toward_chunk, toward_buffer, toward_exit,
}
use b2c_fast_copy.Engine.Fair.Turns.{returns_at, IsSteady, turn-moves}
use b2c_fast_copy.Engine.Fair.Eager.{AnyEager, AnyEager-turn, present-exits}
use b2c_fast_copy.Engine.Fair.Nearer.{IsApproach}

pub to_chunk_bound : (pc : Pc) → to_chunk pc ≤ 8
to_chunk_bound (acquiring false) = omega arith
to_chunk_bound pc = ground arith

pub to_buffer_bound : (pc : Pc) → to_buffer pc ≤ 8
to_buffer_bound pc = ground arith

pub to_exit_bound : (pc : Pc) → to_exit pc ≤ 5
to_exit_bound pc = ground arith

-- At the end of its way a worker has work in hand, or a buffer for it.
pub at_chunk : (pc : Pc) → to_chunk pc ≤ 0 → exits pc ≡ 0 → 0 < weight pc
at_chunk pc h g = ground (arith, h, g)

pub at_buffer : (pc : Pc) → to_buffer pc ≤ 0 → exits pc ≡ 0 → (0 < weight pc) ⊎ (claims pc ≡ 1)
at_buffer pc h g = ground (arith, h, g)

pub at_exit : (pc : Pc) → to_exit pc ≤ 0 → weight pc ≡ 0 → pc ≡ exited
at_exit pc h g = ground (arith, h, g)

holds-cases : (pc : Pc) → 0 < holds one pc → (0 < weight pc) ⊎ (claims pc ≡ 1) ⊎ (returns pc ≡ 1)
holds-cases pc h = ground (arith, h)

module _ {W : Type 0} where
  abbrev pub ChunkWaits : Pipeline W → Type 0
  ChunkWaits p = (0 < queued p.shared) × (0 < p.shared.remaining)

  abbrev pub JobWaits : Pipeline W → Type 0
  JobWaits p = (queued p.shared ≡ 0) × (0 < left p.shared) × (0 < p.shared.remaining)

  abbrev pub NothingWaits : Pipeline W → Type 0
  NothingWaits p = (queued p.shared ≡ 0) × (left p.shared ≡ 0) × (p.shared.remaining ≡ 0)

  abbrev pub Never : Pipeline W → Type 0
  Never p = ◌≡◌ {A = ℕ} 1 0

module _ {W : Type 0} (sys : Os W) (capacity i : ℕ) where
  pub chunk-IsApproach : IsApproach sys capacity i to_chunk ChunkWaits (AnyEager sys capacity)
  chunk-IsApproach = record {
    calm = λ p q calm (some_chunk, remains).
        (omega (arith, calm.queued, some_chunk), omega (arith, calm.remaining, remains));
    nearer = λ p n target v some_turn s at (some_chunk, remains) quiet calm. inl (
        omega (
          arith,
          toward_chunk sys target i v.pc v p.shared some_chunk remains
              (present-exits sys capacity p n i v s at remains) quiet,
        ));
    keep = λ p n t some_turn s any. AnyEager-turn sys capacity p n t some_turn s any;
  }

  -- If no buffer is free and no chunk waits, somebody has a buffer to read into.
  all_taken :
      (p : Pipeline W) (n : ℕ)
      → 0 < capacity
      → IsSteady capacity n p
      → queued p.shared ≡ 0
      → 0 < left p.shared
      → length p.shared.rings.free ≡ 0
      → AnyEager sys capacity p
  all_taken p n some_buffer s none_queued some_job none_free =
      let (j, u, at, has) = total-pos (held_by one) p.workers (
        omega (
          arith,
          some_buffer,
          s.sound.buffers one,
          countdown-total capacity,
          none_queued,
          none_free,
          total-le-length one p.shared.rings.free (λ b. omega arith),
          total-le-length (buf_weight one) p.shared.rings.filled (λ c. omega arith),
        )) in
      record {
        place = j;
        worker = u;
        there = at;
        eager = elim (holds-cases u.pc has) [
          | inl heavy ↦ inl heavy
          | inr (inl claim) ↦ inr (claim, some_job)
          | inr (inr return) ↦
              absurd
                (omega (arith, return, le-total returns_at p.workers j u at, s.unread some_job))
        ];
      }

  pub job-IsApproach :
      0 < capacity → IsApproach sys capacity i to_buffer JobWaits (AnyEager sys capacity)
  job-IsApproach some_buffer = record {
    calm = λ p q calm (none_queued, some_job, remains). (
      omega (arith, calm.queued, none_queued),
      omega (arith, calm.left, some_job),
      omega (arith, calm.remaining, remains),
    );
    nearer = λ p n target v some_turn s at (none_queued, some_job, remains) quiet calm.
        elim (toward_buffer sys target i v.pc v p.shared none_queued some_job remains s.running
          (present-exits sys capacity p n i v s at remains) quiet) [
            | inl shorter ↦ inl (omega (arith, shorter))
            | inr (inl claim) ↦ inr (record {
              place = i;
              worker = (dispatch sys target i v.pc v p.shared).1;
              there = turn-moves sys capacity p target i v at;
              eager = inr (claim, omega (arith, calm.left, some_job));
            })
            | inr (inr none_free) ↦
                elim (AnyEager-turn sys capacity p n (target, i) some_turn s
                  (all_taken p n some_buffer s none_queued some_job none_free)) [
                    | inl less ↦ absurd (omega (arith, less, calm.effort))
                    | inr any ↦ inr any
                  ]
          ];
    keep = λ p n t some_turn s any. AnyEager-turn sys capacity p n t some_turn s any;
  }

  pub exit-IsApproach : IsApproach sys capacity i to_exit NothingWaits Never
  exit-IsApproach = record {
    calm = λ p q calm (none_queued, none_left, ended). (
      omega (arith, calm.queued, none_queued),
      omega (arith, calm.left, none_left),
      omega (arith, calm.remaining, ended),
    );
    nearer = λ p n target v some_turn s at (none_queued, none_left, ended) quiet calm.
        inl (toward_exit sys target i v.pc v p.shared none_queued none_left ended quiet.light);
    keep = λ p n t some_turn s never. absurd (omega (arith, never));
  }
