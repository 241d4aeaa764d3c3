-- ===== src/ThreadPool/Steps.antt =====
-- The steps of a pool: those of the threads that submit, of its workers, and of its destructor.
pub mod Valid
pub mod Invariant
pub mod Draining
use ironhide.Base.{ℕ, zero, suc, ◌+◌, ◌≡◌, true, false, List, [], ◌∷◌, ◌++◌}
use ironhide.Base.Result.{ok}
use ironhide.ThreadPool.{
  ThreadPool, new_pool, enqueue, notify_one, locked_block, end_task, shut_down, notify_all,
}

-- A worker, once made, takes the lock, ends its task, or wakes for no reason; a notice is delivered.
pub data WorkerStep {ℓ} {Task : Type ℓ} (p : ThreadPool Task) : ThreadPool Task → Type ℓ where
  locks : (k : ℕ) → p.waking ≡ suc k → WorkerStep p (locked_block k p)
  ends :
      (front : List Task) (task : Task) (back : List Task)
      → p.running ≡ front ++ task ∷ back
      → WorkerStep p (end_task front task back p)
  wakes :
      (k : ℕ) → p.waiting ≡ suc k → WorkerStep p (record p { waiting = k; waking = p.waking + 1 })
  notifies : (k : ℕ) → p.notices ≡ suc k → WorkerStep p (notify_one (record p { notices = k }))
  notifies_all : p.closing ≡ true → WorkerStep p (notify_all p)

-- A step of any thread.
pub data Step {ℓ} {Task : Type ℓ} (p : ThreadPool Task) : ThreadPool Task → Type ℓ where
  enqueues : (task : Task) (q : ThreadPool Task) → enqueue task p ≡ ok q → Step p q
  shuts : p.stop ≡ false → Step p (shut_down p)
  works : (q : ThreadPool Task) → WorkerStep p q → Step p q

-- What a pool of `threads` workers can become.
pub data Reach {ℓ} {Task : Type ℓ} (threads : ℕ) : ThreadPool Task → Type ℓ where
  starts : Reach threads (new_pool threads)
  next : {p q : ThreadPool Task} → Reach threads p → Step p q → Reach threads q

-- `n` steps of the workers.
pub data Run {ℓ} {Task : Type ℓ} : ℕ → ThreadPool Task → ThreadPool Task → Type ℓ where
  done : {p : ThreadPool Task} → Run zero p p
  more : {n : ℕ} {p q r : ThreadPool Task} → WorkerStep p q → Run n q r → Run (suc n) p r
