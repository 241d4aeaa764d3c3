-- ===== src/Tests/Pools.antt =====
-- A pool of one thread that is given one task and then destroyed.
use mathlib.Core.List.{Perm}
use ironhide.Base.{ℕ, ◌≡◌, ◌≤◌, refl, arith, true, []}
use ironhide.ThreadPool.{ThreadPool, new_pool, submit, enqueue, shut_down, locked_block, end_task}
use ironhide.ThreadPool.Steps.{
  locks, ends, enqueues, shuts, works, Reach, starts, next, Run, done, more,
}
use ironhide.ThreadPool.Steps.Valid.{IsValid}
use ironhide.ThreadPool.Steps.Invariant.{Reach-IsValid, finished-perm-submitted}
use ironhide.ThreadPool.Steps.Draining.{steps_left, Run-le-steps_left, drains}

abbrev stopped : ThreadPool ℕ
stopped = shut_down (submit 7 (new_pool 1))

abbrev taken : ThreadPool ℕ
taken = locked_block 0 stopped

abbrev idle : ThreadPool ℕ
idle = end_task [] 7 [] taken

abbrev over : ThreadPool ℕ
over = locked_block 0 idle

abbrev stopped-reached : Reach 1 stopped
unfolding enqueue new_pool submit shut_down
stopped-reached = next (next starts (enqueues 7 (submit 7 (new_pool 1)) refl)) (shuts refl)

abbrev over-run : Run 3 stopped over
unfolding new_pool submit shut_down locked_block end_task
over-run = more (locks 0 refl) (more (ends [] 7 [] refl) (more (locks 0 refl) done))

abbrev over-reached : Reach 1 over
unfolding new_pool submit shut_down locked_block end_task
over-reached =
    next (next (next stopped-reached (works taken (locks 0 refl))) (works idle (ends [] 7 [] refl)))
      (works over (locks 0 refl))

over_returned : over.returned ≡ 1
unfolding new_pool submit shut_down locked_block end_task
over_returned = refl

stopped_stop : stopped.stop ≡ true
unfolding shut_down
stopped_stop = refl

Reach-IsValid_example : IsValid 1 over
Reach-IsValid_example = Reach-IsValid 1 over-reached

finished-perm-submitted_example : (over.stop ≡ true) × Perm over.finished over.submitted
finished-perm-submitted_example = finished-perm-submitted 1 (omega arith) over-reached over_returned

Run-le-steps_left_example : 3 ≤ steps_left stopped
Run-le-steps_left_example = Run-le-steps_left stopped_stop over-run

drains_example :
    (n : ℕ) × (q : ThreadPool ℕ) × Run n stopped q
    × (q.returned ≡ 1)
    × (n ≤ steps_left stopped)
    × Perm q.finished stopped.submitted
drains_example = drains 1 stopped (omega arith) stopped-reached stopped_stop
