-- ===== src/Engine/Worker.antt =====
-- `worker` of crates/b2c-engine/src/engine.rs: the steps of one worker, and of all of them in any order.
pub mod Frame
pub mod Conserve
use b2c_fast_copy.Base.{
  ℕ, Bool, false, none, some, List, [], ◌∷◌, get_elem?, set, ltb, ◌==◌, if◌then◌else◌,
}
use b2c_fast_copy.Win.Defs.{Os}
use b2c_fast_copy.Scheduler.{Role, role_of}
use b2c_fast_copy.Rings
use b2c_fast_copy.Rings.{Chunk, Rings}
use b2c_fast_copy.Engine.Defs.{
  Shared, Pc, looping, acquiring, claiming, returning, reading, pushing, popping, preparing,
  writing, releasing, settling, counting, finalizing, exited, Worker,
}
use b2c_fast_copy.Engine.Steps.{after_read, acquire, claim, pop, settle, count}
use b2c_fast_copy.Engine.Read.{read}
use b2c_fast_copy.Engine.Write.{prepare, write, finalize}

-- The shared data and the workers.
pub record Pipeline (W : Type 0) : Type 0 where
  pub shared : Shared W
  pub workers : List Worker

module _ {W : Type 0} (sys : Os W) where
  abbrev at : Worker → Shared W × Pc → Shared W × Worker
  at w (sh, pc) = (sh, record w { pc = pc })

  abbrev at_src : Worker → Shared W × Pc × List ℕ → Shared W × Worker
  at_src w (sh, pc, src) = (sh, record w { pc = pc; src = src })

  abbrev at_dst : Worker → Shared W × Pc × List ℕ → Shared W × Worker
  at_dst w (sh, pc, dst) = (sh, record w { pc = pc; dst = dst })

  -- The next step of worker `idx`, given the scheduler's target at this moment.
  unfoldable pub dispatch : (readers_target idx : ℕ) → Pc → Worker → Shared W → Shared W × Worker
  dispatch target idx looping w sh = at w (
    sh,
    if sh.remaining == 0
        then exited
        else elim (role_of target idx) [ Role.read ↦ acquiring false | Role.write ↦ popping false ],
  )
  dispatch target idx (acquiring last) w sh = at w (acquire sh last)
  dispatch target idx (claiming last buf) w sh = at w (claim sh last buf)
  dispatch target idx (returning last buf) w sh =
      at w (record sh { rings = Rings.release_free sh.rings buf }, after_read last)
  dispatch target idx (reading buf job) w sh = at_src w (read sys sh w.src buf job)
  dispatch target idx (pushing c) w sh =
      at w (record sh { rings = Rings.push_filled sh.rings c }, looping)
  dispatch target idx (popping last) w sh = at w (pop sh last)
  dispatch target idx (preparing c) w sh = at w (prepare sys sh c)
  dispatch target idx (writing c) w sh = at_dst w (write sys sh w.dst c)
  dispatch target idx (releasing buf after) w sh =
      at w (record sh { rings = Rings.release_free sh.rings buf }, settling after)
  dispatch target idx (settling after) w sh = at w (settle sh after)
  dispatch target idx (counting f) w sh = at w (count sh f)
  dispatch target idx (finalizing f) w sh = at w (finalize sys sh f, looping)
  dispatch target idx exited w sh = at w (sh, exited)

  unfoldable pub step : (readers_target idx : ℕ) → Worker → Shared W → Shared W × Worker
  unfolding dispatch
  step target idx w sh = dispatch target idx w.pc w sh

  -- One turn: worker `idx` makes its next step. An index that no worker has is passed over.
  unfoldable pub turn : Pipeline W → ℕ × ℕ → Pipeline W
  turn p (target, idx) = elim (get_elem? p.workers idx) [
    | none ↦ p
    | some w ↦
        let (sh, w') = step target idx w p.shared in
        record { shared = sh; workers = set p.workers idx w' }
  ]

  -- A schedule names, for each turn, the scheduler's target at that moment and the worker that moves.
  unfoldable pub run : Pipeline W → List (ℕ × ℕ) → Pipeline W
  run p [] = p
  run p (t ∷ ts) = run (turn p t) ts
