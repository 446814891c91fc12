-- ===== src/Scheduler.antt =====
-- crates/b2c-engine/src/scheduler.rs: the split of the workers into readers and writers, and the
-- controller that moves it.
pub mod Floats
pub mod Average
pub mod Bounds
pub mod Hysteresis
pub mod Balance
use b2c_fast_copy.Base.{
  ℕ, zero, suc, ◌+◌, ◌-◌, ◌*◌, ◌/◌, ◌%◌, ◌^◌, Bool, true, false, not, ◌&&◌, List, [], ◌∷◌, min, max,
  ltb, leb, ◌==◌, if◌then◌else◌,
}
use b2c_fast_copy.Scheduler.Floats.{Float}
use b2c_fast_copy.Scheduler.Average
use b2c_fast_copy.Scheduler.Average.{Ewma}

pub data State : Type 0 where
  balanced fill drain cliff thrash : State

pub data Role : Type 0 where
  read write : Role

pub record Limits : Type 0 where
  pub workers : ℕ
  pub max_readers : ℕ
  pub max_writers : ℕ
  pub same_spindle : Bool

-- `state as u8`
unfoldable pub to_u8 : State → ℕ
to_u8 State.balanced = 0
to_u8 State.fill = 1
to_u8 State.drain = 2
to_u8 State.cliff = 3
to_u8 State.thrash = 4

unfoldable pub from_u8 : ℕ → State
from_u8 v =
    if v == 1
    then State.fill
    else if v == 2
    then State.drain
    else if v == 3
    then State.cliff
    else if v == 4
    then State.thrash
    else State.balanced

-- Derived equality of `State`: equal discriminants.
abbrev pub same_state : State → State → Bool
same_state a b = to_u8 a == to_u8 b

-- `usize::clamp`, which panics unless `lo ≤ hi`.
unfoldable pub clamp : (v lo hi : ℕ) → ℕ
clamp v lo hi = if ltb v lo then lo else if ltb hi v then hi else v

-- The fields of `Scheduler` that the controller writes.
pub record Scheduler : Type 0 where
  pub readers_target : ℕ
  pub state : ℕ
  pub limits : Limits

unfoldable pub new : Limits → Scheduler
unfolding clamp to_u8
new limits = record {
  readers_target = clamp (limits.workers / 2) 1 (max (limits.workers - 1) 1);
  state = to_u8 State.balanced;
  limits = limits;
}

-- The choice of `role` by the target.
abbrev pub role_of : (readers_target worker : ℕ) → Role
role_of readers_target worker = if ltb worker readers_target then Role.read else Role.write

unfoldable pub role : Scheduler → ℕ → Role
role s worker = role_of s.readers_target worker

unfoldable pub reader_bounds : Limits → ℕ × ℕ
reader_bounds l =
    if l.same_spindle
    then (0, l.workers)
    else (let lo = max (l.workers - l.max_writers) 1 in
        (lo, max (min l.max_readers (l.workers - 1)) lo))

-- What one turn of the loop reads: the counters, the rings, and the seconds since the last turn.
pub record Sample (F : Type 0) : Type 0 where
  pub bytes_read : ℕ
  pub bytes_written : ℕ
  pub capacity : ℕ
  pub free : ℕ
  pub filled : ℕ
  pub elapsed : F

-- The local variables of `run`.
pub record Locals (F : Type 0) : Type 0 where
  pub last_read : ℕ
  pub last_written : ℕ
  pub read_short : Ewma F
  pub read_long : Ewma F
  pub write_short : Ewma F
  pub write_long : Ewma F
  pub candidate : State
  pub candidate_count : ℕ

-- A burst in one direction while the other side has buffers, on a spindle that both sides share.
unfoldable pub burst : (low_free low_filled : Bool) → (workers readers : ℕ) → ℕ
burst low_free low_filled workers readers =
    if low_free then 0 else if low_filled then workers else readers

-- One step towards the split that the queue depths of the devices ask for.
unfoldable pub settle : Limits → ℕ → ℕ
settle l readers =
    let base = l.workers * l.max_readers / max (l.max_readers + l.max_writers) 1 in
    if ltb readers base then readers + 1 else if ltb base readers then readers - 1 else readers

-- The target that a committed state asks for, before the bounds.
unfoldable pub steer : State → (low_free low_filled : Bool) → Limits → ℕ → ℕ
unfolding burst settle
steer State.thrash low_free low_filled l readers = burst low_free low_filled l.workers readers
steer State.fill low_free low_filled l readers = readers + 1
steer State.cliff low_free low_filled l readers = readers + 1
steer State.drain low_free low_filled l readers = readers - 1
steer State.balanced low_free low_filled l readers = settle l readers

unfoldable pub bounded : Limits → ℕ → ℕ
unfolding clamp reader_bounds
bounded l target = let (lo, hi) = reader_bounds l in clamp target lo hi

module _ {F : Type 0} (fl : Float F) where
  abbrev pub locals : Locals F
  locals = record {
    last_read = 0;
    last_written = 0;
    read_short = Average.new fl (fl.of_nat 2);
    read_long = Average.new fl (fl.of_nat 30);
    write_short = Average.new fl (fl.of_nat 2);
    write_long = Average.new fl (fl.of_nat 30);
    candidate = State.balanced;
    candidate_count = 0;
  }

  -- The four averages after a sample.
  unfoldable pub average : Locals F → Sample F → Locals F
  average v x =
      let dt = fl.max x.elapsed (fl.decimal 1 6) in
      let read_rate = fl.div (fl.of_nat (x.bytes_read - v.last_read)) dt in
      let write_rate = fl.div (fl.of_nat (x.bytes_written - v.last_written)) dt in
      record v {
        last_read = x.bytes_read;
        last_written = x.bytes_written;
        read_short = Average.update fl v.read_short read_rate dt;
        read_long = Average.update fl v.read_long read_rate dt;
        write_short = Average.update fl v.write_short write_rate dt;
        write_long = Average.update fl v.write_long write_rate dt;
      }

  -- Deep enough, fast enough for the test to mean something, and well below the long-run rate.
  unfoldable pub at_cliff : Limits → (writers : ℕ) → Locals F → Bool
  at_cliff l writers v =
      leb l.max_writers writers
      && (fl.less (fl.mul (fl.mul (fl.of_nat 8) (fl.of_nat 1024)) (fl.of_nat 1024))
            (Average.get v.write_long)
          && fl.less (Average.get v.write_short)
              (fl.mul (fl.decimal 70 2) (Average.get v.write_long)))

  -- What a sample indicates, given the averages that include it.
  unfoldable pub classify : Scheduler → Locals F → Sample F → State
  classify s v x =
      let readers = s.readers_target in
      let writers = s.limits.workers - readers in
      if s.limits.same_spindle
      then State.thrash
      else if at_cliff s.limits writers v
      then State.cliff
      else if ltb x.free (max readers 1)
      then State.drain
      else if ltb x.filled (max writers 1)
      then State.fill
      else State.balanced

  -- The candidate and how often it was indicated in a row; the counter has 32 bits.
  unfoldable pub nominate : Locals F → State → Locals F
  unfolding to_u8
  nominate v next =
      if same_state next v.candidate
      then record v { candidate_count = (v.candidate_count + 1) % 2 ^ 32 }
      else record v { candidate = next; candidate_count = 1 }

  -- The stored state, once the candidate was indicated twice in a row.
  unfoldable pub commit : ℕ → Locals F → ℕ
  unfolding to_u8
  commit state v = if leb 2 v.candidate_count then to_u8 v.candidate else state

  -- One turn of the loop of `run`.
  unfoldable pub tick : Scheduler × Locals F → Sample F → Scheduler × Locals F
  tick (s, v) x =
      let v' = average v x in
      let v'' = nominate v' (classify s v' x) in
      let state = commit s.state v'' in
      let cap = fl.of_nat (max x.capacity 1) in
      let low_free = fl.less (fl.div (fl.of_nat x.free) cap) (fl.decimal 12 2) in
      let low_filled = fl.less (fl.div (fl.of_nat x.filled) cap) (fl.decimal 12 2) in
      let target = steer (from_u8 state) low_free low_filled s.limits s.readers_target in
      (record s { state = state; readers_target = bounded s.limits target }, v'')

  -- The turns until the loop is stopped.
  unfoldable pub run : Scheduler × Locals F → List (Sample F) → Scheduler × Locals F
  run c [] = c
  run c (x ∷ xs) = run (tick c x) xs
