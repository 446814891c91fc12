-- ===== src/Engine/Content/Run.antt =====
-- A schedule of any kind keeps the copy under way.
use b2c_fast_copy.Base.{
  two-le-total, ℕ, suc, ◌+◌, ◌-◌, ◌≤◌, ◌<◌, ◌≡◌, ◌≢◌, ◌⊎◌, inl, inr, refl, sym, subst, ◌∙◌, some,
  List, [], ◌∷◌, arith, Option-cases, eq-cases, length, get_elem?, set, get_elem?-set,
  get_elem?-set_other, total, total-set, le-total,
}
use b2c_fast_copy.Win.Defs.{FilePath, Os}
use b2c_fast_copy.Win.FileSystem.{Content, IsFileSystem}
use b2c_fast_copy.Engine.Defs.{
  Pc, looping, acquiring, claiming, returning, reading, pushing, popping, preparing, writing,
  releasing, settling, counting, finalizing, exited, Worker,
}
use b2c_fast_copy.Engine.Worker.{Pipeline, step, turn, run}
use b2c_fast_copy.Engine.Worker.Conserve.{holds, buf_weight}
use b2c_fast_copy.Engine.Sound.{IsSound, held_by, turn-IsSound}
use b2c_fast_copy.Engine.Sound.Exclusive.{is_buf, buffer_of, holds-buffer_of, countdown-count}
use b2c_fast_copy.Engine.Content.Defs.{Copy, IsCopyable, IsCopying, carried_by, Arrives}
use b2c_fast_copy.Engine.Content.Turn.{IsAlone, dispatch-IsSourced}
use b2c_fast_copy.Engine.Content.Turn.Carrying.{dispatch-IsCarrying}
use b2c_fast_copy.Engine.Content.Turn.Arrival.{dispatch-Arrives}
use b2c_fast_copy.Engine.Content.Others.{dispatch-memory, dispatch-prepared, IsCarrying-keep}

module _ {W : Type 0} (sys : Os W) (capacity : ℕ) (turns : ℕ) (p : Pipeline W)
    (sound : IsSound capacity turns p) where
  -- A buffer that a worker holds is not in the filled ring.
  unringed :
      (i b : ℕ) (w : Worker)
      → get_elem? p.workers i ≡ some w
      → buffer_of w.pc ≡ some b
      → total (buf_weight (is_buf b)) p.shared.rings.filled ≡ 0
  unringed i b w e h = ground (
    arith,
    sound.buffers (is_buf b),
    countdown-count b capacity,
    le-total (held_by (is_buf b)) p.workers i w e,
    holds-buffer_of w.pc b h,
  )

  -- Two workers have different buffers.
  unshared :
      (i j b : ℕ) (v w : Worker)
      → i ≢ j
      → get_elem? p.workers i ≡ some v
      → get_elem? p.workers j ≡ some w
      → buffer_of w.pc ≡ some b
      → buffer_of v.pc ≢ some b
  unshared i j b v w ne ev ew hw hv = elim (ordered i j ne) [
    | inl lt ↦
        ground (
          arith,
          bound,
          two-le-total (held_by (is_buf b)) p.workers i j v w lt ev ew,
          hold_v,
          hold_w,
        )
    | inr lt ↦
        ground (
          arith,
          bound,
          two-le-total (held_by (is_buf b)) p.workers j i w v lt ew ev,
          hold_v,
          hold_w,
        )
  ]
    where
      ordered : (a d : ℕ) → a ≢ d → (a < d) ⊎ (d < a)
      ordered a d h = ground arith

      bound : total (held_by (is_buf b)) p.workers ≤ 1
      bound = ground (arith, sound.buffers (is_buf b), countdown-count b capacity)

      hold_v : holds (is_buf b) v.pc ≡ 1
      hold_v = holds-buffer_of v.pc b hv

      hold_w : holds (is_buf b) w.pc ≡ 1
      hold_w = holds-buffer_of w.pc b hw

  alone :
      (i : ℕ) (w : Worker) (pc : Pc)
      → w.pc ≡ pc
      → get_elem? p.workers i ≡ some w
      → IsAlone p.shared pc
  alone i w (reading buf job) is e = unringed i buf w e (rw is refl)
  alone i w looping is e = tt
  alone i w (acquiring last) is e = tt
  alone i w (claiming last buf) is e = tt
  alone i w (returning last buf) is e = tt
  alone i w (pushing ch) is e = tt
  alone i w (popping last) is e = tt
  alone i w (preparing ch) is e = tt
  alone i w (writing ch) is e = tt
  alone i w (releasing buf after) is e = tt
  alone i w (settling after) is e = tt
  alone i w (counting f) is e = tt
  alone i w (finalizing f) is e = tt
  alone i w exited is e = tt

module _ {W : Type 0} (sys : Os W) (content : W → FilePath → Content)
    (laws : IsFileSystem sys content) (c : Copy) (ok : IsCopyable c) (capacity : ℕ) where
  step-IsCopying :
      (p : Pipeline W) (n target idx : ℕ) (w : Worker)
      → get_elem? p.workers idx ≡ some w
      → IsSound capacity (suc n) p
      → IsCopying content c p
      → let (sh, w') = step sys target idx w p.shared in
        IsCopying content c (record { shared = sh; workers = set p.workers idx w' })
  unfolding step
  step-IsCopying p n target idx w e sound h = record {
    sourced =
        dispatch-IsSourced sys content laws c ok target idx w.pc w p.shared
          (alone sys capacity (suc n) p sound idx w w.pc refl e) (h.workers idx w e) h.sourced;
    workers = λ i v ev. elim (eq-cases idx i) [
      | inl own ↦
          let is : v ≡ (step sys target idx w p.shared).1 =
            get_elem?-set p.workers idx _ v (rw (← own) at ev) in
          rw is (
            dispatch-IsCarrying sys content laws c ok target idx w.pc w p.shared (h.workers idx w e)
              h.sourced)
      | inr other ↦
          let was : get_elem? p.workers i ≡ some v =
            sym (get_elem?-set_other p.workers idx i _ other) ∙ ev in
          IsCarrying-keep c p.shared (step sys target idx w p.shared).0 v.pc
            (λ b hb.
              dispatch-memory sys target idx w.pc w p.shared b
                (unshared sys capacity (suc n) p sound idx i b w v other e was hb))
            (dispatch-prepared sys target idx w.pc w p.shared) (h.workers i v was)
    ];
    arrives = λ f k known inside.
        let others : ℕ = total (carried_by f k) p.workers - carried_by f k w in
        let le : carried_by f k w ≤ total (carried_by f k) p.workers =
          le-total (carried_by f k) p.workers idx w e in
        let before : total (carried_by f k) p.workers ≡ carried_by f k w + others = omega arith in
        let after : total (carried_by f k) (set p.workers idx (step sys target idx w p.shared).1)
            ≡ carried_by f k (step sys target idx w p.shared).1 + others =
          omega (
            arith,
            total-set (carried_by f k) p.workers idx w (step sys target idx w p.shared).1 e,
          ) in
        subst (λ n. Arrives content c f k n (step sys target idx w p.shared).0) (sym after)
          (dispatch-Arrives sys content laws c ok f k known inside target idx w.pc w p.shared others
            (omega (arith, sound.unwrapped)) (h.workers idx w e) h.sourced
            (subst (λ n. Arrives content c f k n p.shared) before (h.arrives f k known inside)));
  }

  pub turn-IsCopying :
      (p : Pipeline W) (n : ℕ) (t : ℕ × ℕ)
      → IsSound capacity (suc n) p
      → IsCopying content c p
      → IsCopying content c (turn sys p t)
  unfolding turn
  turn-IsCopying p n (target, idx) sound h = elim (Option-cases (get_elem? p.workers idx)) [
    | inl e ↦ rw (e, turn) h
    | inr (w, e) ↦ rw (e, turn) (step-IsCopying p n target idx w e sound h)
  ]

  pub run-IsCopying :
      (p : Pipeline W) (ts : List (ℕ × ℕ))
      → IsSound capacity (length ts) p
      → IsCopying content c p
      → IsCopying content c (run sys p ts)
  unfolding run
  run-IsCopying p [] sound h = h
  run-IsCopying p (t ∷ ts) sound h =
      run-IsCopying (turn sys p t) ts (turn-IsSound sys capacity p (length ts) t sound)
        (turn-IsCopying p (length ts) t sound h)
