-- ===== src/ThreadPool/Steps/Draining.antt =====
-- After the destructor has stopped the pool, its workers come to an end, and do all tasks first.
use mathlib.Core.List.{Perm}
use ironhide.Base.{
  ℕ, zero, suc, ◌+◌, ◌*◌, ◌≤◌, ◌<◌, ◌≡◌, ◌⊎◌, refl, ap, ◌∙◌, subst, true, List-cases, ℕ-cases, inl,
  inr, [], ◌∷◌, arith, length, length-append, if◌then◌else◌,
}
use ironhide.ThreadPool.{ThreadPool, notify_one, locked_block, end_task, notify_all}
use ironhide.ThreadPool.Steps.{
  WorkerStep, locks, ends, wakes, notifies, notifies_all, works, Reach, next, Run, done, more,
}
use ironhide.ThreadPool.Steps.Valid.{IsValid}
use ironhide.ThreadPool.Steps.Invariant.{Reach-IsValid, finished-perm-submitted}

module _ {ℓ} {Task : Type ℓ} where
  -- A bound on the steps that are left.
  abbrev pub steps_left : ThreadPool Task → ℕ
  steps_left p =
      p.waking
      + 2 * p.waiting
      + 2 * length p.running
      + 2 * length p.tasks
      + p.notices
      + (if p.closing then 1 else 0)

  -- A step that brings the end nearer, and submits nothing.
  record IsProgress (p q : ThreadPool Task) : Type ℓ where
    less : steps_left q < steps_left p
    stopped : q.stop ≡ true
    same : q.submitted ≡ p.submitted

  locked_block-IsProgress :
      (k : ℕ) (p : ThreadPool Task)
      → p.stop ≡ true
      → p.waking ≡ suc k
      → IsProgress p (locked_block k p)
  unfolding locked_block
  locked_block-IsProgress k p s h = record {
    less = ground arith;
    stopped = ground arith;
    same = ground arith;
  }

  notify_one-IsProgress :
      (k : ℕ) (p : ThreadPool Task)
      → p.stop ≡ true
      → p.notices ≡ suc k
      → IsProgress p (notify_one (record p { notices = k }))
  unfolding notify_one
  notify_one-IsProgress k p s h = record {
    less = ground arith;
    stopped = ground arith;
    same = ground arith;
  }

  WorkerStep-IsProgress : {p q : ThreadPool Task} → p.stop ≡ true → WorkerStep p q → IsProgress p q
  unfolding end_task notify_all
  WorkerStep-IsProgress {p} s (locks k h) = locked_block-IsProgress k p s h
  WorkerStep-IsProgress {p} s (ends front task back h) = record {
    less =
        omega
          (arith, ap length h, length-append {ℓ} front (task ∷ back), length-append {ℓ} front back);
    stopped = s;
    same = refl;
  }
  WorkerStep-IsProgress {p} s (wakes k h) = record { less = omega arith; stopped = s; same = refl }
  WorkerStep-IsProgress {p} s (notifies k h) = notify_one-IsProgress k p s h
  WorkerStep-IsProgress {p} s (notifies_all h) = record {
    less = ground arith;
    stopped = s;
    same = refl;
  }

  -- However the workers of a stopped pool are scheduled, they make at most as many steps as
  -- `steps_left` counts: the workers that are about to take the lock, twice those that wait, twice
  -- the tasks that run or wait, the notices on their way, and the notice to all.
  pub Run-le-steps_left :
      {n : ℕ} {p q : ThreadPool Task} → p.stop ≡ true → Run n p q → n ≤ steps_left p
  Run-le-steps_left s done = omega arith
  Run-le-steps_left s (more w r) =
      let progress = WorkerStep-IsProgress s w in
      omega (arith, progress.less, Run-le-steps_left progress.stopped r)

  -- A stopped pool whose workers have not all returned has a step.
  enabled :
      (threads : ℕ) (p : ThreadPool Task)
      → IsValid threads p
      → p.stop ≡ true
      → (p.returned ≡ threads) ⊎ ((q : ThreadPool Task) × WorkerStep p q)
  enabled threads p v s = elim (List-cases p.running) [
    | inr (t, ts, e) ↦ inr (end_task [] t ts p, ends [] t ts e)
    | inl idle ↦ elim (ℕ-cases p.waking) [
      | inr (k, e) ↦ inr (locked_block k p, locks k e)
      | inl none_awake ↦ elim (ℕ-cases p.waiting) [
        | inr (k, e) ↦ inr (notify_all p, notifies_all (v.warned s (omega arith)))
        | inl none_waits ↦ inl (omega (arith, v.workers, ap length idle))
      ]
    ]
  ]

  -- The pool at the end of a run from `p`.
  abbrev Drained : ℕ → ThreadPool Task → Type ℓ
  Drained threads p =
      (n : ℕ) × (q : ThreadPool Task) × Run n p q
      × Reach threads q
      × (q.returned ≡ threads)
      × (q.submitted ≡ p.submitted)

  drain_within :
      (threads bound : ℕ) (p : ThreadPool Task)
      → Reach threads p
      → p.stop ≡ true
      → steps_left p ≤ bound
      → Drained threads p
  drain_within threads zero p r s h = elim (enabled threads p (Reach-IsValid threads r) s) [
    | inl all_back ↦ (0, p, done, r, all_back, refl)
    | inr (q, w) ↦ absurd (omega (arith, (WorkerStep-IsProgress s w).less))
  ]
  drain_within threads (suc bound) p r s h = elim (enabled threads p (Reach-IsValid threads r) s) [
    | inl all_back ↦ (0, p, done, r, all_back, refl)
    | inr (q, w) ↦
        let progress = WorkerStep-IsProgress s w in
        let (n, last, run, reached, all_back, kept) =
          drain_within threads bound q (next r (works q w)) progress.stopped
            (omega (arith, progress.less)) in
        (suc n, last, more w run, reached, all_back, kept ∙ progress.same)
  ]

  -- From every state of a pool with at least one worker at which it is stopped, its workers can
  -- run, in at most `steps_left` steps, until they have all returned and exactly the tasks that had
  -- been submitted are finished, each as often.
  pub drains :
      (threads : ℕ) (p : ThreadPool Task)
      → 0 < threads
      → Reach threads p
      → p.stop ≡ true
      → (n : ℕ) × (q : ThreadPool Task) × Run n p q
        × (q.returned ≡ threads)
        × (n ≤ steps_left p)
        × Perm q.finished p.submitted
  drains threads p some_worker r s =
      let (n, q, run, reached, all_back, kept) =
        drain_within threads (steps_left p) p r s (omega arith) in
      (
        n,
        q,
        run,
        all_back,
        Run-le-steps_left s run,
        subst (Perm q.finished) kept
            (finished-perm-submitted threads some_worker reached all_back).1,
      )
