-- ===== src/ThreadPool/Steps/Valid.antt =====
-- The invariant of src/server/utils/threadpool.h: what each operation of the pool keeps.
use mathlib.Core.List.{Perm, perm_middle, perm_append_singleton}
use mathlib.Core.List.Perm
use ironhide.Base.{
  ℕ, suc, ◌+◌, ◌≤◌, ◌<◌, ◌≡◌, refl, ap, ◌∙◌, subst, true, false, Bool-cases, List-cases, ℕ-cases,
  sym, inl, inr, List, [], ◌∷◌, ◌++◌, arith, length, length-append, append_assoc,
}
use ironhide.Base.Result.{ok}
use ironhide.ThreadPool.{
  ThreadPool, new_pool, submit, enqueue, notify_one, locked_block, end_task, shut_down,
}

-- The tasks begin in the order in which they were submitted, and those begun are finished or
-- running; every worker is in one state; where workers wait, each task that waits has a worker or a
-- notice on its way, and an end of the pool its notice to all; and where workers have
-- returned, the pool is stopped and empty.
pub record IsValid {ℓ} {Task : Type ℓ} (threads : ℕ) (p : ThreadPool Task) : Type ℓ where
  pub in_order : p.submitted ≡ p.started ++ p.tasks
  pub kept : Perm p.started (p.finished ++ p.running)
  pub workers : p.waking + p.waiting + length p.running + p.returned ≡ threads
  pub woken : 0 < p.waiting → length p.tasks ≤ p.notices + p.waking
  pub warned : p.stop ≡ true → 0 < p.waiting → p.closing ≡ true
  pub left : 0 < p.returned → (p.stop ≡ true) × (p.tasks ≡ [])

module _ {ℓ} {Task : Type ℓ} (threads : ℕ) where
  pub new_pool-IsValid : IsValid threads (new_pool {Task = Task} threads)
  unfolding new_pool
  new_pool-IsValid = record {
    in_order = refl;
    kept = Perm.nil;
    workers = omega arith;
    woken = λ h. omega arith;
    warned = λ h. cc;
    left = λ h. absurd (omega arith);
  }

  submit-IsValid :
      (task : Task) (p : ThreadPool Task)
      → p.stop ≡ false
      → IsValid threads p
      → IsValid threads (submit task p)
  unfolding submit
  submit-IsValid task p h v = record {
    in_order = rw v.in_order (append_assoc p.started p.tasks (task ∷ []));
    kept = v.kept;
    workers = v.workers;
    woken = λ w. omega (arith, v.woken w, length-append {ℓ} p.tasks (task ∷ []));
    warned = v.warned;
    left = λ w. let stopped = (v.left w).0 in cc;
  }

  pub enqueue-IsValid :
      (task : Task) (p q : ThreadPool Task)
      → enqueue task p ≡ ok q
      → IsValid threads p
      → IsValid threads q
  unfolding enqueue
  enqueue-IsValid task p q h v = elim (Bool-cases p.stop) [
    | inl e ↦ let refused = rw e at h in cc
    | inr e ↦
        let made = rw e at h in
        let same : submit task p ≡ q = cc in
        subst (IsValid threads) same (submit-IsValid task p e v)
  ]

  pub shut_down-IsValid : (p : ThreadPool Task) → IsValid threads p → IsValid threads (shut_down p)
  unfolding shut_down
  shut_down-IsValid p v = record {
    in_order = v.in_order;
    kept = v.kept;
    workers = v.workers;
    woken = v.woken;
    warned = λ _ _. refl;
    left = λ h. (refl, (v.left h).1);
  }

  module _ (k : ℕ) (p : ThreadPool Task) (h : p.waking ≡ suc k) where
    returned-IsValid :
        p.tasks ≡ []
        → p.stop ≡ true
        → IsValid threads p
        → IsValid threads (record p { waking = k; returned = p.returned + 1 })
    returned-IsValid e stopped v = record {
      in_order = v.in_order;
      kept = v.kept;
      workers = omega (arith, v.workers);
      woken = λ w. omega (arith, ap length e);
      warned = v.warned;
      left = λ _. (stopped, e);
    }

    waits-IsValid :
        p.tasks ≡ []
        → p.stop ≡ false
        → IsValid threads p
        → IsValid threads (record p { waking = k; waiting = p.waiting + 1 })
    waits-IsValid e going v = record {
      in_order = v.in_order;
      kept = v.kept;
      workers = omega (arith, v.workers);
      woken = λ w. omega (arith, ap length e);
      warned = λ stopped _. cc;
      left = v.left;
    }

    takes-IsValid :
        (t : Task) (ts : List Task)
        → p.tasks ≡ t ∷ ts
        → IsValid threads p
        → IsValid threads (record p {
          waking = k;
          tasks = ts;
          running = t ∷ p.running;
          started = p.started ++ t ∷ [];
        })
    takes-IsValid t ts e v = record {
      in_order = v.in_order ∙ ap (λ l. p.started ++ l) e ∙ sym (append_assoc p.started (t ∷ []) ts);
      kept =
          Perm.trans (perm_append_singleton t p.started)
            (Perm.trans (Perm.cons t v.kept) (Perm.symm (perm_middle p.finished p.running)));
      workers = omega (arith, v.workers);
      woken = λ w. omega (arith, v.woken w, ap length e);
      warned = v.warned;
      left = λ w. let empty = (v.left w).1 in cc;
    }

  pub locked_block-IsValid :
      (k : ℕ) (p : ThreadPool Task)
      → p.waking ≡ suc k
      → IsValid threads p
      → IsValid threads (locked_block k p)
  unfolding locked_block
  locked_block-IsValid k p h v = elim (List-cases p.tasks) [
    | inl e ↦ elim (Bool-cases p.stop) [
      | inl stopped ↦
          let same : locked_block k p ≡ record p { waking = k; returned = p.returned + 1 } =
            ground arith in
          rw same (returned-IsValid k p h e stopped v)
      | inr going ↦
          let same : locked_block k p ≡ record p { waking = k; waiting = p.waiting + 1 } =
            ground arith in
          rw same (waits-IsValid k p h e going v)
    ]
    | inr (t, ts, e) ↦
        let same : locked_block k p ≡ record p {
          waking = k;
          tasks = ts;
          running = t ∷ p.running;
          started = p.started ++ t ∷ [];
        } =
          ground arith in
        rw same (takes-IsValid k p h t ts e v)
  ]

  pub end_task-IsValid :
      (front : List Task) (task : Task) (back : List Task) (p : ThreadPool Task)
      → p.running ≡ front ++ task ∷ back
      → IsValid threads p
      → IsValid threads (end_task front task back p)
  unfolding end_task
  end_task-IsValid front task back p h v = record {
    in_order = v.in_order;
    kept = Perm.trans (rw h at v.kept) (
        rw (← append_assoc p.finished front (task ∷ back), ← append_assoc p.finished front back)
          (perm_middle (p.finished ++ front) back));
    workers = omega (
      arith,
      v.workers,
      ap length h,
      length-append {ℓ} front (task ∷ back),
      length-append {ℓ} front back,
    );
    woken = λ h. omega (arith, v.woken h);
    warned = v.warned;
    left = v.left;
  }

  pub notify_one-IsValid :
      (k : ℕ) (p : ThreadPool Task)
      → p.notices ≡ suc k
      → IsValid threads p
      → IsValid threads (notify_one (record p { notices = k }))
  unfolding notify_one
  notify_one-IsValid k p h v = elim (ℕ-cases p.waiting) [
    | inl nobody ↦
        let same : notify_one (record p { notices = k }) ≡ record p { notices = k } =
          ground arith in
        rw same (record {
          in_order = v.in_order;
          kept = v.kept;
          workers = v.workers;
          woken = λ w. omega arith;
          warned = v.warned;
          left = v.left;
        })
    | inr (w, e) ↦
        let same : notify_one (record p { notices = k })
            ≡ record p { notices = k; waiting = w; waking = p.waking + 1 } =
          ground arith in
        rw same (record {
          in_order = v.in_order;
          kept = v.kept;
          workers = omega (arith, v.workers);
          woken = λ _. omega (arith, v.woken (omega arith));
          warned = λ stopped _. v.warned stopped (omega arith);
          left = v.left;
        })
  ]
