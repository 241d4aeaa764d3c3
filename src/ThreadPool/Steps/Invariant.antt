-- ===== src/ThreadPool/Steps/Invariant.antt =====
-- The steps of src/server/utils/threadpool.h and the invariant of the pool.
use mathlib.Core.List.{Perm}
use mathlib.Core.List.Perm
use ironhide.Base.{ℕ, ◌<◌, ◌≡◌, ap, ◌∙◌, true, length-zero, [], ◌++◌, arith, append-nil}
use ironhide.ThreadPool.{ThreadPool, notify_all}
use ironhide.ThreadPool.Steps.{
  WorkerStep, locks, ends, wakes, notifies, notifies_all, Step, enqueues, shuts, works, Reach,
  starts, next,
}
use ironhide.ThreadPool.Steps.Valid.{
  IsValid, new_pool-IsValid, enqueue-IsValid, shut_down-IsValid, locked_block-IsValid,
  end_task-IsValid, notify_one-IsValid,
}

module _ {ℓ} {Task : Type ℓ} (threads : ℕ) where
  WorkerStep-IsValid :
      {p q : ThreadPool Task} → WorkerStep p q → IsValid threads p → IsValid threads q
  unfolding notify_all
  WorkerStep-IsValid {p} (locks k h) v = locked_block-IsValid threads k p h v
  WorkerStep-IsValid {p} (ends front task back h) v = end_task-IsValid threads front task back p h v
  WorkerStep-IsValid {p} (notifies k h) v = notify_one-IsValid threads k p h v
  WorkerStep-IsValid {p} (wakes k h) v = record {
    in_order = v.in_order;
    kept = v.kept;
    workers = omega (arith, v.workers);
    woken = λ w. omega (arith, v.woken (omega arith));
    warned = λ stopped w. v.warned stopped (omega arith);
    left = v.left;
  }
  WorkerStep-IsValid {p} (notifies_all h) v = record {
    in_order = v.in_order;
    kept = v.kept;
    workers = omega (arith, v.workers);
    woken = λ w. absurd (omega arith);
    warned = λ stopped w. absurd (omega arith);
    left = v.left;
  }

  Step-IsValid : {p q : ThreadPool Task} → Step p q → IsValid threads p → IsValid threads q
  Step-IsValid {p} (enqueues task q h) v = enqueue-IsValid threads task p q h v
  Step-IsValid {p} (shuts h) v = shut_down-IsValid threads p v
  Step-IsValid (works q w) v = WorkerStep-IsValid w v

  -- Whatever the threads do, a pool keeps to its invariant: tasks begin in the order of their
  -- submission, each once; those begun and not running are finished; no wake-up is lost; and no
  -- worker returns while a task waits.
  pub Reach-IsValid : {p : ThreadPool Task} → Reach threads p → IsValid threads p
  Reach-IsValid starts = new_pool-IsValid threads
  Reach-IsValid (next r s) = Step-IsValid s (Reach-IsValid r)

  -- When every worker of a pool has returned, the pool is stopped, and the tasks that are finished
  -- are those that were submitted, each as often. The pool has at least one worker.
  pub finished-perm-submitted :
      {p : ThreadPool Task}
      → 0 < threads
      → Reach threads p
      → p.returned ≡ threads
      → (p.stop ≡ true) × Perm p.finished p.submitted
  finished-perm-submitted {p} some_worker r all_back =
      let v = Reach-IsValid r in
      let (stopped, empty) = v.left (omega arith) in
      let idle : p.running ≡ [] = length-zero p.running (omega (arith, v.workers)) in
      let begun : p.submitted ≡ p.started =
        v.in_order ∙ ap (λ l. p.started ++ l) empty ∙ append-nil p.started in
      let kept = rw (idle, append-nil) at v.kept in (stopped, rw begun (Perm.symm kept))
