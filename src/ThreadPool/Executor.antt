-- ===== src/ThreadPool/Executor.antt =====
-- src/server/utils/asynctaskexecutor.cpp: one pool for the whole program.
use ironhide.Base.{ℕ, ◌++◌, List, [], ◌∷◌, ◌≡◌, ◌∙◌, refl, sym, false, append-nil, append_assoc}
use ironhide.Base.Result.{Result, ok, bind}
use ironhide.ThreadPool.{ThreadPool, new_pool, submit, enqueue}

-- class AsyncTaskExecutor
pub record AsyncTaskExecutor (Task : Type 0) : Type 0 where
  pub thread_pool : ThreadPool Task

module _ {Task : Type 0} where
  -- AsyncTaskExecutor(), with what hardware_concurrency gives
  unfoldable pub new_executor : ℕ → AsyncTaskExecutor Task
  unfolding new_pool
  new_executor hardware_concurrency = record { thread_pool = new_pool hardware_concurrency }

  -- submit_task, whose future is dropped
  unfoldable pub submit_task : Task → AsyncTaskExecutor Task → Result (AsyncTaskExecutor Task)
  unfolding enqueue
  submit_task task e =
      bind (enqueue task e.thread_pool) (λ pool. ok (record e { thread_pool = pool }))

  -- Several tasks, one after another.
  abbrev submit_all : List Task → AsyncTaskExecutor Task → Result (AsyncTaskExecutor Task)
  submit_all [] e = ok e
  submit_all (task ∷ tasks) e = bind (submit_task task e) (submit_all tasks)

  enqueue-open :
      (task : Task) (p : ThreadPool Task) → p.stop ≡ false → enqueue task p ≡ ok (submit task p)
  unfolding enqueue
  enqueue-open task p is_open = rw is_open

  -- As nothing stops the one pool, every task is taken, and in order.
  submitted-submit_all :
      (tasks : List Task) (e : AsyncTaskExecutor Task)
      → e.thread_pool.stop ≡ false
      → (e' : AsyncTaskExecutor Task) × (submit_all tasks e ≡ ok e')
        × (e'.thread_pool.submitted ≡ e.thread_pool.submitted ++ tasks)
  unfolding submit_task submit
  submitted-submit_all [] e is_open = (e, refl, sym (append-nil e.thread_pool.submitted))
  submitted-submit_all (task ∷ tasks) e is_open =
      let next : AsyncTaskExecutor Task = record { thread_pool = submit task e.thread_pool } in
      let (e', runs, same) = submitted-submit_all tasks next is_open in
      (
        e',
        rw (enqueue-open task e.thread_pool is_open) runs,
        same ∙ append_assoc e.thread_pool.submitted (task ∷ []) tasks,
      )
