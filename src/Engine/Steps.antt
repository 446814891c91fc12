-- ===== src/Engine/Steps.antt =====
-- The steps of `try_read` and `try_write` of crates/b2c-engine/src/engine.rs that touch the rings and
-- the counters, one access of the shared data at a time.
use b2c_fast_copy.Base.{
  ℕ, ◌+◌, ◌-◌, ◌%◌, ◌^◌, Bool, true, none, some, get_elem?, ◌==◌, if◌then◌else◌,
}
use b2c_fast_copy.Win.Defs.{Error}
use b2c_fast_copy.Rings
use b2c_fast_copy.Rings.{Chunk, Rings}
use b2c_fast_copy.Stats.{count_up}
use b2c_fast_copy.Engine.Defs.{
  Entry, Message, Shared, After, early, counted, Pc, looping, acquiring, claiming, returning,
  reading, popping, preparing, counting, finalizing, update, fail,
}

-- `fetch_sub(1)` on a 64-bit atomic wraps.
abbrev pub decrement : ℕ → ℕ
decrement n = (n + 2 ^ 64 - 1) % 2 ^ 64

-- A try that did nothing: the other side follows, or the sleep before the next round.
abbrev pub after_read : Bool → Pc
after_read last = if last then looping else popping true

abbrev pub after_write : Bool → Pc
after_write last = if last then looping else acquiring true

module _ {W : Type 0} where
  abbrev pub set_entry : Shared W → ℕ → Entry → Shared W
  set_entry sh f e = record sh { entries = update sh.entries f e }

  -- `sh.fail(..)` with `entry.failed.store(true)`.
  unfoldable pub fail_entry : Shared W → ℕ → Message → Shared W
  unfolding fail
  fail_entry sh f msg = set_entry (fail sh msg) f (record (sh.entries f) { failed = true })

  abbrev pub source_message : Shared W → ℕ → Error → Message
  source_message sh f e = record { path = (sh.entries f).task.src; error = e }

  abbrev pub dest_message : Shared W → ℕ → Error → Message
  dest_message sh f e = record { path = (sh.entries f).task.dst; error = e }

  abbrev pub with_os : Shared W → W → Shared W
  with_os sh w = record sh { os = w }

  unfoldable pub acquire : Shared W → Bool → Shared W × Pc
  acquire sh last =
      let (rings, claimed) = Rings.acquire_free sh.rings in
      elim claimed [
        | none ↦ (
          record sh {
            rings = rings;
            stats = record sh.stats { read_stalls = count_up sh.stats.read_stalls 1 };
          },
          after_read last,
        )
        | some buf ↦ (record sh { rings = rings }, claiming last buf)
      ]

  -- The cursor moves on also where no job is left.
  unfoldable pub claim : Shared W → Bool → ℕ → Shared W × Pc
  claim sh last buf = (
    record sh { cursor = count_up sh.cursor 1 },
    elim (get_elem? sh.jobs sh.cursor) [ none ↦ returning last buf | some job ↦ reading buf job ],
  )

  unfoldable pub pop : Shared W → Bool → Shared W × Pc
  pop sh last =
      let (rings, taken) = Rings.pop_filled sh.rings in
      elim taken [
        | none ↦ (
          record sh {
            rings = rings;
            stats = record sh.stats { write_stalls = count_up sh.stats.write_stalls 1 };
          },
          after_write last,
        )
        | some chunk ↦ (record sh { rings = rings }, preparing chunk)
      ]

  unfoldable pub settle : Shared W → After → Shared W × Pc
  settle sh after = (
    record sh { remaining = decrement sh.remaining },
    elim after [ early ↦ looping | counted f ↦ counting f ],
  )

  unfoldable pub count : Shared W → ℕ → Shared W × Pc
  count sh f =
      let e = sh.entries f in
      (
        set_entry sh f (record e { done = count_up e.done 1 }),
        if count_up e.done 1 == e.chunks then finalizing f else looping,
      )
