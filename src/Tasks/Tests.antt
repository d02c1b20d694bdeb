-- ===== src/Tasks/Tests.antt =====
-- A worker that waits, is notified of a task and takes it, and the theorems at these states
-- (src/Nuke/thread_pool.h).
use ctx_db.Prelude.{ℕ, ◌≤◌, ◌≡◌, refl, false, [], ◌∷◌, ◌++◌, some, arith, get_elem?, count}
use ctx_db.Tasks.{
  at_lock, locked, waiting, woken, holding, running, notified, ThreadExecutor, is_locked, is_busy,
  move_to, push, Work, enter, lock, sleep, relock, take, begin, work, add_notify, add_unheard,
  new_executor, Reach, start, after, Works,
}
use ctx_db.Tasks.Order.{tasks_in_order}
use ctx_db.Tasks.Progress.{no_task_forgotten}
use ctx_db.Tasks.Shutdown.{lost_wakeup}

abbrev at_mutex : ThreadExecutor ℕ
at_mutex = move_to 0 at_lock (new_executor 1)

abbrev with_mutex : ThreadExecutor ℕ
with_mutex = move_to 0 locked at_mutex

abbrev asleep : ThreadExecutor ℕ
asleep = move_to 0 waiting with_mutex

abbrev told : ThreadExecutor ℕ
told = push 7 (move_to 0 woken asleep)

abbrev told_twice : ThreadExecutor ℕ
told_twice = push 8 told

abbrev back : ThreadExecutor ℕ
back = move_to 0 locked told_twice

abbrev took : ThreadExecutor ℕ
took = record (move_to 0 (holding 7) back) { tasks = 8 ∷ []; taken = 7 ∷ [] }

abbrev runs : ThreadExecutor ℕ
runs = record (move_to 0 (running 7) took) { in_use = 1 }

Reach-told_twice : Reach 1 told_twice
Reach-told_twice =
    after told told_twice
      (after asleep told
        (after with_mutex asleep
          (after at_mutex with_mutex
            (after (new_executor 1) at_mutex start (work at_mutex (enter 0 refl refl)))
            (work with_mutex (lock 0 refl refl)))
          (work asleep (sleep 0 refl refl)))
        (add_notify 7 0 refl refl))
      (add_unheard 8 refl refl)

Reach-runs : Reach 1 runs
Reach-runs =
    after took runs
      (after back took
        (after told_twice back Reach-told_twice (work back (relock 0 refl refl refl)))
        (work took (take 0 7 (8 ∷ []) refl refl)))
      (work runs (begin 0 7 refl))

tasks_in_order_example :
    (runs.added ≡ runs.taken ++ runs.tasks)
    × (runs.in_use ≡ count is_busy runs.workers)
    × (runs.in_use ≤ 1)
    × (count is_locked runs.workers ≤ 1)
tasks_in_order_example = tasks_in_order 1 runs (omega arith) Reach-runs

no_task_forgotten_example : (f : ThreadExecutor ℕ) × Work told_twice f
no_task_forgotten_example =
    no_task_forgotten 1 told_twice (omega arith) Reach-told_twice refl (λ e. cc)

lost_wakeup_example :
    (e : ThreadExecutor ℕ) × Reach 1 e
    × (e.close_flag ≡ false)
    × (e.stopping ≡ notified)
    × ((f : ThreadExecutor ℕ) → Works e f → get_elem? f.workers 0 ≡ some waiting)
lost_wakeup_example = lost_wakeup 1 (omega arith)
