-- ===== src/Engine/Verify/Counts.antt =====
-- What a verification counts.
use b2c_fast_copy.Base.{
  ℕ, suc, ◌+◌, ◌<◌, ◌≡◌, refl, inl, inr, ap, some, List, [], ◌∷◌, ◌++◌, length, length-append,
  arith, get_elem?, total, le-total, min, All, list_eq_sound, list_eq, Bool-cases, none,
  total-append, total_cong, ◌∙◌, ◌-◌, Option, if◌then◌else◌,
}
use b2c_fast_copy.Win.Defs.{FilePath, Reply}
use b2c_fast_copy.Win.FileSystem.{Content}
use b2c_fast_copy.Win.Std.{Std}
use b2c_fast_copy.Scanner.{FileTask, Plan}
use b2c_fast_copy.Engine.Small.{Line}
use b2c_fast_copy.Engine.Claims.{Pool, IsLeft}
use b2c_fast_copy.Engine.Claims.Tally.{IsMeasured, run-tally, total-one}
use b2c_fast_copy.Engine.Verify.{
  Hasher, Verdict, Verified, hash_file, compare, check, judge, run_verify,
}
use b2c_fast_copy.Engine.Verify.Digest.{IsReadable, IsStreaming, digest, hash_file-digest}

-- 1 for a verdict that is listed.
abbrev fault : Verdict → ℕ
fault Verdict.equal = 0
fault Verdict.differing = 1
fault Verdict.unread = 1

-- What is to be listed for a file with this destination, given what `hash_file` says of its two sides:
-- nothing if both have a digest and these are equal.
abbrev pub lines : FilePath → (src dst : Option (Reply (List ℕ))) → List Line
lines path (some (Reply.done a)) (some (Reply.done b)) =
    if list_eq a b then [] else Line.mismatch path ∷ []
lines path (some (Reply.done a)) (some (Reply.failed code)) = Line.unreadable path ∷ []
lines path (some (Reply.done a)) none = Line.unreadable path ∷ []
lines path (some (Reply.failed code)) b = Line.unreadable path ∷ []
lines path none b = Line.unreadable path ∷ []

module _ {W H : Type 0} (fs : Std W) (hasher : Hasher H) (fuel : ℕ) (w : W) where
  abbrev verdict : FileTask → Verdict
  verdict t =
      compare fs hasher (hash_file fs hasher fuel w t.src) (hash_file fs hasher fuel w t.dst)

  -- Each file counts as verified or is listed, and those that are listed are those at fault.
  judged :
      (m : Verified → ℕ) (v : FileTask → Verdict → ℕ) (limit : ℕ)
      → ((t : FileTask) (r : Verdict) (s : Verified) → m (judge fs hasher t r s) ≡ m s + v t r)
      → IsMeasured
          (check fs hasher fuel w)
          (judge fs hasher)
          (λ (s : Verified). Unit {0})
          m
          (λ t. v t (verdict t))
          v
          limit
  unfolding check
  judged m v limit adds = record {
    on_work = λ t s h. (tt, refl, refl);
    on_report = λ t r s h few. (tt, adds t r s);
  }

  each_adds :
      (t : FileTask) (r : Verdict) (s : Verified)
      → (judge fs hasher t r s).ok + length (judge fs hasher t r s).bad ≡ s.ok + length s.bad + 1
  unfolding judge
  each_adds t Verdict.equal s = omega arith
  each_adds t Verdict.differing s = omega (arith, length-append s.bad (Line.mismatch t.dst ∷ []))
  each_adds t Verdict.unread s = omega (arith, length-append s.bad (Line.unreadable t.dst ∷ []))

  fault_adds :
      (t : FileTask) (r : Verdict) (s : Verified)
      → length (judge fs hasher t r s).bad ≡ length s.bad + fault r
  unfolding judge
  fault_adds t Verdict.equal s = omega arith
  fault_adds t Verdict.differing s = omega (arith, length-append s.bad (Line.mismatch t.dst ∷ []))
  fault_adds t Verdict.unread s = omega (arith, length-append s.bad (Line.unreadable t.dst ∷ []))

  -- 1 for a verdict that is not listed, and the weight of the line for one that is.
  abbrev credit : Verdict → ℕ
  credit r = 1 - fault r

  abbrev weight : (Line → ℕ) → FileTask → Verdict → ℕ
  weight f t Verdict.equal = 0
  weight f t Verdict.differing = f (Line.mismatch t.dst)
  weight f t Verdict.unread = f (Line.unreadable t.dst)

  credit_adds :
      (t : FileTask) (r : Verdict) (s : Verified) → (judge fs hasher t r s).ok ≡ s.ok + credit r
  unfolding judge
  credit_adds t Verdict.equal s = omega arith
  credit_adds t Verdict.differing s = omega arith
  credit_adds t Verdict.unread s = omega arith

  weight_adds :
      (f : Line → ℕ) (t : FileTask) (r : Verdict) (s : Verified)
      → total f (judge fs hasher t r s).bad ≡ total f s.bad + weight f t r
  unfolding judge
  weight_adds f t Verdict.equal s = omega arith
  weight_adds f t Verdict.differing s =
      omega (arith, total-append f s.bad (Line.mismatch t.dst ∷ []))
  weight_adds f t Verdict.unread s =
      omega (arith, total-append f s.bad (Line.unreadable t.dst ∷ []))

  -- What a verdict says is what is to be listed.
  compare-lines :
      (t : FileTask) (a b : Option (Reply (List ℕ)))
      → (credit (compare fs hasher a b) ≡ 1 - length (lines t.dst a b))
        × ((f : Line → ℕ) → weight f t (compare fs hasher a b) ≡ total f (lines t.dst a b))
  compare-lines t (some (Reply.done a)) (some (Reply.done b)) = elim (Bool-cases (list_eq a b)) [
    | inl same ↦ rw same (refl, λ f. refl)
    | inr other ↦ rw other (refl, λ f. omega arith)
  ]
  compare-lines t (some (Reply.done a)) (some (Reply.failed code)) = (refl, λ f. omega arith)
  compare-lines t (some (Reply.done a)) none = (refl, λ f. omega arith)
  compare-lines t (some (Reply.failed code)) b = (refl, λ f. omega arith)
  compare-lines t none b = (refl, λ f. omega arith)

  -- The lines for a file, by what `hash_file` says.
  abbrev pub due : FileTask → List Line
  due t = lines t.dst (hash_file fs hasher fuel w t.src) (hash_file fs hasher fuel w t.dst)

  verdict-due :
      (t : FileTask)
      → (credit (verdict t) ≡ 1 - length (due t))
        × ((f : Line → ℕ) → weight f t (verdict t) ≡ total f (due t))
  verdict-due t =
      compare-lines t (hash_file fs hasher fuel w t.src) (hash_file fs hasher fuel w t.dst)

  -- When all threads of a verification have left, whatever the schedule was, the files that count as
  -- verified are those with nothing `due`, and the list has the lines that are `due` for the files, no
  -- others, and each as often: so every weight of the lines adds up to the same. With those that are
  -- listed, they make up the files of the plan. This holds for at least one worker.
  pub run_verify-counts :
      (workers : ℕ) (plan : Plan) (schedule : List ℕ)
      → 0 < workers
      → let p = run_verify fs hasher fuel w workers plan schedule in
        All IsLeft p.threads
        → (p.shared.ok ≡ total (λ t. 1 - length (due t)) (plan.bulk ++ plan.small))
          × ((f : Line → ℕ)
              → total f p.shared.bad ≡ total (λ t. total f (due t)) (plan.bulk ++ plan.small))
          × (p.shared.ok + length p.shared.bad ≡ length (plan.bulk ++ plan.small))
  unfolding run_verify
  run_verify-counts workers plan schedule some_worker gone = (
    by_measure (λ s. s.ok) (λ t r. credit r) credit_adds refl
        ∙ total_cong _ _ (λ t. (verdict-due t).0) all,
    λ f.
        by_measure (λ s. total f s.bad) (weight f) (weight_adds f) refl
        ∙ total_cong _ _ (λ t. (verdict-due t).1 f) all,
    omega (arith, by_measure (λ s. s.ok + length s.bad) (λ t r. 1) each_adds refl, total-one all),
  )
    where
      all : List FileTask
      all = plan.bulk ++ plan.small

      by_measure :
          (m : Verified → ℕ) (v : FileTask → Verdict → ℕ)
          → ((t : FileTask) (r : Verdict) (s : Verified) → m (judge fs hasher t r s) ≡ m s + v t r)
          → m (record { ok = 0; bad = [] }) ≡ 0
          → m (run_verify fs hasher fuel w workers plan schedule).shared
            ≡ total (λ t. v t (verdict t)) all
      by_measure m v adds none_yet = omega (
        arith,
        none_yet,
        (run-tally all (check fs hasher fuel w) (judge fs hasher) (min workers 8)
            (record { ok = 0; bad = [] }) schedule (λ s. Unit) m (λ t. v t (verdict t)) v
            (suc (total (λ t. v t (verdict t)) all)) (judged m v _ adds) (omega arith) tt
            (omega (arith, none_yet)) gone).1,
      )

  -- When all threads of a verification have left and none of them has listed a file, whatever the
  -- schedule was, each file has been read on both sides, and its two sides have the same digest. This
  -- holds for at least one worker, fuel above the sizes of all files, reads that follow `IsReadable` and
  -- a hasher that follows `IsStreaming`.
  pub run_verify-agrees :
      (content : W → FilePath → Content) (workers : ℕ) (plan : Plan) (schedule : List ℕ)
      → IsReadable fs content
      → IsStreaming hasher
      → ((path : FilePath) → (content w path).size < fuel)
      → 0 < workers
      → let p = run_verify fs hasher fuel w workers plan schedule in
        All IsLeft p.threads
        → p.shared.bad ≡ []
        → (i : ℕ) (t : FileTask) → get_elem? (plan.bulk ++ plan.small) i ≡ some t
        → digest hasher (content w t.src) ≡ digest hasher (content w t.dst)
  unfolding run_verify
  run_verify-agrees content workers plan schedule reads streams enough some_worker gone clean i t
        at =
      same t (
        omega (
          arith,
          le-total (λ u. fault (verdict u)) all i t at,
          faults.1,
          ap (length {A = Line}) clean,
        ))
    where
      all : List FileTask
      all = plan.bulk ++ plan.small

      p : Pool FileTask Verdict Verified
      p = run_verify fs hasher fuel w workers plan schedule

      faults : Unit {0} × (length p.shared.bad ≡ 0 + total (λ u. fault (verdict u)) all)
      faults =
          run-tally all (check fs hasher fuel w) (judge fs hasher) (min workers 8)
            (record { ok = 0; bad = [] }) schedule (λ s. Unit) (λ s. length s.bad)
            (λ u. fault (verdict u)) (λ t r. fault r) (suc (total (λ u. fault (verdict u)) all))
            (judged (λ s. length s.bad) (λ t r. fault r) _ fault_adds) (omega arith) tt
            (omega arith) gone

      by_test :
          (a b : List ℕ)
          → fault (compare fs hasher (some (Reply.done a)) (some (Reply.done b))) ≡ 0
          → a ≡ b
      by_test a b h = list_eq_sound a b (ground arith)

      same :
          (t : FileTask)
          → fault (verdict t) ≡ 0
          → digest hasher (content w t.src) ≡ digest hasher (content w t.dst)
      same t h =
          elim (hash_file-digest fs hasher content reads streams w t.src fuel (enough t.src)) [
            | inl (code, _, e) ↦ absurd (omega (arith, (rw e at h)))
            | inr (_, a) ↦
                elim (hash_file-digest fs hasher content reads streams w t.dst fuel
                  (enough t.dst)) [
                    | inl (code, _, e) ↦ absurd (omega (arith, (rw (a, e) at h)))
                    | inr (_, b) ↦ by_test _ _ (rw (a, b) at h)
                  ]
          ]
