-- ===== src/Engine/Closing/Run.antt =====
-- A schedule of any kind keeps the files in balance.
use b2c_fast_copy.Base.{
  ℕ, suc, ◌+◌, ◌-◌, ◌^◌, ◌<◌, ◌≡◌, inl, inr, refl, sym, ◌∙◌, true, some, List, [], ◌∷◌, length,
  arith, eq-cases, Option-cases, get_elem?, set, get_elem?-set, get_elem?-set_other, total,
  total-set, le-total,
}
use b2c_fast_copy.Win.Defs.{FilePath, Os}
use b2c_fast_copy.Win.FileSystem.{Content, IsFileSystem}
use b2c_fast_copy.Engine.Defs.{
  Shared, Pc, early, counted, looping, acquiring, claiming, returning, reading, pushing, popping,
  preparing, writing, releasing, settling, counting, finalizing, exited, Worker,
}
use b2c_fast_copy.Engine.Steps.{claim, settle, count}
use b2c_fast_copy.Engine.Worker.{Pipeline, dispatch, step, turn, run}
use b2c_fast_copy.Engine.Worker.Frame.{acquire_cases, pop_cases}
use b2c_fast_copy.Engine.Sound.{IsSound, turn-IsSound}
use b2c_fast_copy.Engine.Content.Defs.{Copy, IsCopyable, IsCopying}
use b2c_fast_copy.Engine.Content.Effect.{read-Effect, prepare-Effect, write-Effect, finalize-Effect}
use b2c_fast_copy.Engine.Content.Others.{dispatch-prepared}
use b2c_fast_copy.Engine.Content.Run.{turn-IsCopying}
use b2c_fast_copy.Engine.Closing.{due_by, closing_by, IsPosted}
use b2c_fast_copy.Engine.Closing.Step.{ClosesFile, dispatch-IsPosted}
use b2c_fast_copy.Engine.Closing.Turn.{dispatch-Closes}

module _ {W : Type 0} (sys : Os W) where
  -- The number of a file's chunks is fixed, and a file that is prepared has its master handle.
  dispatch-entry :
      (target idx : ℕ) (pc : Pc) (w : Worker) (sh : Shared W) (g : ℕ)
      → (((dispatch sys target idx pc w sh).0.entries g).chunks ≡ (sh.entries g).chunks)
        × (((sh.entries g).prepared ≡ true → (sh.entries g).master ≡ true)
            → ((dispatch sys target idx pc w sh).0.entries g).prepared ≡ true
            → ((dispatch sys target idx pc w sh).0.entries g).master ≡ true)
  unfolding dispatch claim settle count
  dispatch-entry target idx (acquiring last) w sh g = elim (acquire_cases sh last) [
    | inl e ↦ rw e (refl, λ h e'. h e')
    | inr (buf, tail, free, e) ↦ rw e (refl, λ h e'. h e')
  ]
  dispatch-entry target idx (popping last) w sh g = elim (pop_cases sh last) [
    | inl (empty, e) ↦ rw e (refl, λ h e'. h e')
    | inr (ch, tail, filled, e) ↦ rw e (refl, λ h e'. h e')
  ]
  dispatch-entry target idx (reading buf job) w sh g =
      let effect = read-Effect sys sh w.src buf job in (effect.chunks g, effect.mastered g)
  dispatch-entry target idx (preparing ch) w sh g =
      let effect = prepare-Effect sys sh ch in (effect.chunks g, effect.mastered g)
  dispatch-entry target idx (writing ch) w sh g =
      let effect = write-Effect sys sh w.dst ch in (effect.chunks g, effect.mastered g)
  dispatch-entry target idx (finalizing f) w sh g =
      let effect = finalize-Effect sys sh f in (effect.chunks g, effect.mastered g)
  dispatch-entry target idx (counting f) w sh g = (ground arith, λ h e. ground (arith, h, e))
  dispatch-entry target idx looping w sh g = (refl, λ h e. h e)
  dispatch-entry target idx (claiming last buf) w sh g = (refl, λ h e. h e)
  dispatch-entry target idx (returning last buf) w sh g = (refl, λ h e. h e)
  dispatch-entry target idx (pushing ch) w sh g = (refl, λ h e. h e)
  dispatch-entry target idx (releasing buf after) w sh g = (refl, λ h e. h e)
  dispatch-entry target idx (settling after) w sh g = (refl, λ h e. h e)
  dispatch-entry target idx exited w sh g = (refl, λ h e. h e)

IsPosted-keep :
    {W : Type 0} (s t : Shared W) (pc : Pc)
    → ((g : ℕ) → (s.entries g).prepared ≡ true → (t.entries g).prepared ≡ true)
    → IsPosted s pc
    → IsPosted t pc
IsPosted-keep s t (releasing buf (counted g)) mono h = mono g h
IsPosted-keep s t (settling (counted g)) mono h = mono g h
IsPosted-keep s t (counting g) mono h = mono g h
IsPosted-keep s t (finalizing g) mono h = mono g h
IsPosted-keep s t (releasing buf early) mono h = tt
IsPosted-keep s t (settling early) mono h = tt
IsPosted-keep s t looping mono h = tt
IsPosted-keep s t (acquiring last) mono h = tt
IsPosted-keep s t (claiming last buf) mono h = tt
IsPosted-keep s t (returning last buf) mono h = tt
IsPosted-keep s t (reading buf job) mono h = tt
IsPosted-keep s t (pushing ch) mono h = tt
IsPosted-keep s t (popping last) mono h = tt
IsPosted-keep s t (preparing ch) mono h = tt
IsPosted-keep s t (writing ch) mono h = tt
IsPosted-keep s t exited mono h = tt

-- Splitting a weight of the workers at one of them.
pub total-split :
    {A : Type 0} (u : A → ℕ) (xs : List A) (i : ℕ) (x v : A)
    → get_elem? xs i ≡ some x
    → (rest : ℕ) × (total u xs ≡ u x + rest) × (total u (set xs i v) ≡ u v + rest)
total-split u xs i x v e = (
  total u xs - u x,
  omega (arith, le-total u xs i x e),
  omega (arith, le-total u xs i x e, total-set u xs i x v e),
)

-- What the entries and the workers say of the files that are not closed off.
pub record IsClosing {W : Type 0} (content : W → FilePath → Content) (c : Copy) (p : Pipeline W)
    : Type 0 where
  pub posted : (i : ℕ) (w : Worker) → get_elem? p.workers i ≡ some w → IsPosted p.shared w.pc
  pub mastered : (g : ℕ) → (p.shared.entries g).prepared ≡ true → (p.shared.entries g).master ≡ true
  pub countable : (f : ℕ) → f < c.count → (p.shared.entries f).chunks < 2 ^ 64
  pub closes :
      (f : ℕ)
      → f < c.count
      → ClosesFile content c f
          (total (due_by f) p.workers)
          (total (closing_by f) p.workers)
          p.shared

module _ {W : Type 0} (sys : Os W) (content : W → FilePath → Content)
    (laws : IsFileSystem sys content) (c : Copy) (ok : IsCopyable c) (capacity : ℕ) where
  step-IsClosing :
      (p : Pipeline W) (n target idx : ℕ) (w : Worker)
      → get_elem? p.workers idx ≡ some w
      → IsSound capacity (suc n) p
      → IsCopying content c p
      → IsClosing content c p
      → let (sh, w') = step sys target idx w p.shared in
        IsClosing content c (record { shared = sh; workers = set p.workers idx w' })
  unfolding step
  step-IsClosing p n target idx w e sound copying h = record {
    posted = λ i v ev. elim (eq-cases idx i) [
      | inl own ↦
          let is : v ≡ (step sys target idx w p.shared).1 =
            get_elem?-set p.workers idx _ v (rw (← own) at ev) in
          rw is (
            dispatch-IsPosted sys c target idx w.pc w p.shared (copying.workers idx w e)
              (h.posted idx w e))
      | inr other ↦
          let was : get_elem? p.workers i ≡ some v =
            sym (get_elem?-set_other p.workers idx i _ other) ∙ ev in
          IsPosted-keep p.shared (step sys target idx w p.shared).0 v.pc
            (dispatch-prepared sys target idx w.pc w p.shared) (h.posted i v was)
    ];
    mastered = λ g. (dispatch-entry sys target idx w.pc w p.shared g).1 (h.mastered g);
    countable = λ f lt.
        omega (arith, (dispatch-entry sys target idx w.pc w p.shared f).0, h.countable f lt);
    closes = λ f lt.
        let w' : Worker = (step sys target idx w p.shared).1 in
        let (rest, due_0, due_1) = total-split (due_by f) p.workers idx w w' e in
        let (others, end_0, end_1) = total-split (closing_by f) p.workers idx w w' e in
        let before = h.closes f lt in
        rw (due_1, end_1)
          (dispatch-Closes sys content laws c ok f lt target idx w.pc w p.shared rest others
            (omega (arith, sound.unwrapped)) (h.countable f lt) h.mastered (copying.workers idx w e)
            (h.posted idx w e) copying.sourced (rw (due_0, end_0) at before));
  }

  pub turn-IsClosing :
      (p : Pipeline W) (n : ℕ) (t : ℕ × ℕ)
      → IsSound capacity (suc n) p
      → IsCopying content c p
      → IsClosing content c p
      → IsClosing content c (turn sys p t)
  unfolding turn
  turn-IsClosing p n (target, idx) sound copying h = elim (Option-cases (get_elem? p.workers idx)) [
    | inl e ↦ rw (e, turn) h
    | inr (w, e) ↦ rw (e, turn) (step-IsClosing p n target idx w e sound copying h)
  ]

  pub run-IsClosing :
      (p : Pipeline W) (ts : List (ℕ × ℕ))
      → IsSound capacity (length ts) p
      → IsCopying content c p
      → IsClosing content c p
      → IsClosing content c (run sys p ts)
  unfolding run
  run-IsClosing p [] sound copying h = h
  run-IsClosing p (t ∷ ts) sound copying h =
      run-IsClosing (turn sys p t) ts (turn-IsSound sys capacity p (length ts) t sound)
        (turn-IsCopying sys content laws c ok capacity p (length ts) t sound copying)
        (turn-IsClosing p (length ts) t sound copying h)
