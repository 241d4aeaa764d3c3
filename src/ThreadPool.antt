-- ===== src/ThreadPool.antt =====
-- src/server/utils/threadpool.h: the pool, with what one thread does between two points at which
-- another may run as one step.
pub mod Executor
pub mod Steps
use ironhide.Base.{ℕ, zero, suc, ◌+◌, Bool, true, false, List, [], ◌∷◌, ◌++◌, if◌then◌else◌}
use ironhide.Base.Result.{Result, ok, err, runtime_error}

-- class ThreadPool. A worker is `waking`, about to take the lock and test the condition; `waiting`
-- on the condition; `running` a task; or it has `returned`. `notices` counts the calls of
-- notify_one that are still to come, and `closing` tells whether that of notify_all is. The last
-- three fields record the tasks submitted, begun, and finished, the latest of the last first.
pub record ThreadPool {ℓ} (Task : Type ℓ) : Type ℓ where
  pub tasks : List Task
  pub stop : Bool
  pub waking : ℕ
  pub waiting : ℕ
  pub running : List Task
  pub returned : ℕ
  pub notices : ℕ
  pub closing : Bool
  pub submitted : List Task
  pub started : List Task
  pub finished : List Task

module _ {ℓ} {Task : Type ℓ} where
  -- ThreadPool(threads)
  unfoldable pub new_pool : ℕ → ThreadPool Task
  new_pool threads = record {
    tasks = [];
    stop = false;
    waking = threads;
    waiting = 0;
    running = [];
    returned = 0;
    notices = 0;
    closing = false;
    submitted = [];
    started = [];
    finished = [];
  }

  -- enqueue, up to the release of the lock
  unfoldable pub submit : Task → ThreadPool Task → ThreadPool Task
  submit task p = record p {
    tasks = p.tasks ++ task ∷ [];
    notices = p.notices + 1;
    submitted = p.submitted ++ task ∷ [];
  }

  unfoldable pub enqueue : Task → ThreadPool Task → Result (ThreadPool Task)
  unfolding submit
  enqueue task p = if p.stop then err runtime_error else ok (submit task p)

  -- notify_one: one of the waiting workers wakes, if there is one.
  unfoldable pub notify_one : ThreadPool Task → ThreadPool Task
  notify_one p = elim p.waiting [
    | zero ↦ p
    | suc waiting ↦ record p { waiting = waiting; waking = p.waking + 1 }
  ]

  -- The block of a worker under the lock: it waits while the pool is open and idle, returns when the
  -- pool is stopped and empty, and else takes the first task.
  unfoldable pub locked_block : ℕ → ThreadPool Task → ThreadPool Task
  locked_block waking p = elim p.tasks [
    | [] ↦
        if p.stop
        then record p { waking = waking; returned = p.returned + 1 }
        else record p { waking = waking; waiting = p.waiting + 1 }
    | task ∷ tasks ↦ record p {
      waking = waking;
      tasks = tasks;
      running = task ∷ p.running;
      started = p.started ++ task ∷ [];
    }
  ]

  -- The end of a task, which stands between other running ones.
  unfoldable pub end_task : List Task → Task → List Task → ThreadPool Task → ThreadPool Task
  end_task front task back p = record p {
    running = front ++ back;
    finished = task ∷ p.finished;
    waking = p.waking + 1;
  }

  -- The destructor, up to the release of the lock.
  unfoldable pub shut_down : ThreadPool Task → ThreadPool Task
  shut_down p = record p { stop = true; closing = true }

  -- notify_all of the destructor
  unfoldable pub notify_all : ThreadPool Task → ThreadPool Task
  notify_all p = record p { closing = false; waking = p.waking + p.waiting; waiting = 0 }
