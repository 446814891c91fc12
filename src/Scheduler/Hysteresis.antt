-- ===== src/Scheduler/Hysteresis.antt =====
-- How fast the controller may move.
use b2c_fast_copy.Base.{
  ◌+◌, ◌%◌, ◌^◌, ◌≡◌, ◌≢◌, ◌⊎◌, inl, inr, refl, sym, ap, ◌∙◌, leb, Bool-cases, ==_iff,
}
use b2c_fast_copy.Scheduler.{
  State, Scheduler, to_u8, from_u8, same_state, Locals, Sample, average, classify, nominate, commit,
  tick,
}
use b2c_fast_copy.Scheduler.Floats.{Float}
use b2c_fast_copy.Scheduler.Bounds.{from_u8-to_u8}

module _ {F : Type 0} (fl : Float F) where
  -- What a turn indicates.
  abbrev pub indicated : Scheduler × Locals F → Sample F → State
  indicated (s, v) x = classify fl s (average fl v x) x

  to_u8_injective : (a b : State) → to_u8 a ≡ to_u8 b → a ≡ b
  to_u8_injective a b e = sym (from_u8-to_u8 a) ∙ ap from_u8 e ∙ from_u8-to_u8 b

  -- A turn remembers what it indicated.
  tick-candidate :
      (c : Scheduler × Locals F) (x : Sample F) → (tick fl c x).1.candidate ≡ indicated c x
  unfolding tick nominate
  tick-candidate (s, v) x =
      elim (Bool-cases (same_state (indicated (s, v) x) (average fl v x).candidate)) [
        | inl e ↦ rw e (sym (to_u8_injective _ _ ((==_iff _ _).0 e)))
        | inr e ↦ rw e refl
      ]

  -- A turn keeps the stored state, or stores what it indicates if that was the candidate before.
  tick-state :
      (c : Scheduler × Locals F) (x : Sample F)
      → ((tick fl c x).0.state ≡ c.0.state)
        ⊎ (((tick fl c x).0.state ≡ to_u8 (indicated c x)) × (indicated c x ≡ c.1.candidate))
  unfolding tick nominate commit average
  tick-state (s, v) x = elim (Bool-cases (same_state (indicated (s, v) x) v.candidate)) [
    | inl e ↦
        let same : to_u8 (indicated (s, v) x) ≡ to_u8 v.candidate = (==_iff _ _).0 e in
        elim (Bool-cases (leb 2 ((v.candidate_count + 1) % 2 ^ 32))) [
          | inl twice ↦
              inr (rw (e, twice) (sym same), to_u8_injective (indicated (s, v) x) v.candidate same)
          | inr once ↦ inl (rw (e, once) refl)
        ]
    | inr e ↦ inl (rw e refl)
  ]

  -- One sample cannot flip the pipeline: if the stored state changes in a turn, the turn before indicated
  -- the state that is stored now.
  pub tick-hysteresis :
      (c : Scheduler × Locals F) (x y : Sample F)
      → let c' = tick fl c x in
        (tick fl c' y).0.state ≢ c'.0.state
        → ((tick fl c' y).0.state ≡ to_u8 (indicated c' y)) × (indicated c' y ≡ indicated c x)
  tick-hysteresis c x y changed = elim (tick-state (tick fl c x) y) [
    | inl same ↦ absurd (changed same)
    | inr (is, before) ↦ (is, before ∙ tick-candidate c x)
  ]
