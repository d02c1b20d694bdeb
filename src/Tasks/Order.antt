-- ===== src/Tasks/Order.antt =====
-- What holds of a `ThreadExecutor` at every moment (src/Nuke/thread_pool.h): the order of its tasks, its
-- counter, its mutex, and that no task is left in the queue while every worker waits.
use ctx_db.Prelude.{
  ℕ, ◌+◌, ◌≤◌, ◌<◌, ◌≡◌, refl, sym, ◌∙◌, ◌⊎◌, inl, inr, true, List, [], ◌∷◌, ◌++◌, map, some, arith,
  get_elem?, set, count, length, length-set, length-replicate,
}
use mathlib.Core.List.{append_assoc}
use ctx_db.Tasks.{
  Pc, at_loop, at_lock, locked, waiting, woken, holding, running, ended, ThreadExecutor, is_locked,
  is_waiting, is_busy, is_ended, wake, Work, enter, leave, lock, sleep, relock, quit, take, begin,
  finish, Step, work, add_notify, add_unheard, store_stop, notify_stop, spurious, new_executor,
  Reach, start, after,
}
use ctx_db.Tasks.Count.{one_if, count-set, count-le-length, count-replicate, count-map, length-map}

pub record IsOrdered {T : Type 0} (capacity : ℕ) (e : ThreadExecutor T) : Type 0 where
  pub order : e.added ≡ e.taken ++ e.tasks
  pub size : length e.workers ≡ capacity
  pub counter : e.in_use ≡ count is_busy e.workers
  pub one_lock : count is_locked e.workers ≤ 1
  pub awake : (e.tasks ≡ []) ⊎ (count is_waiting e.workers < capacity)
  pub alive : e.close_flag ≡ true → count is_ended e.workers ≡ 0

module _ {T : Type 0} where
  count-wake : (ws : List (Pc T)) → count is_waiting (map wake ws) ≡ 0
  count-wake [] = refl
  count-wake (pc ∷ ws) = ground (arith, count-wake ws)

  -- What a move of worker i from a to b does to the counts.
  abbrev Moved : List (Pc T) → ℕ → Pc T → Pc T → Type 0
  Moved ws i a b =
      (length (set ws i b) ≡ length ws)
      × (count is_busy (set ws i b) + one_if (is_busy a) ≡ count is_busy ws + one_if (is_busy b))
      × (count is_locked (set ws i b) + one_if (is_locked a)
          ≡ count is_locked ws + one_if (is_locked b))
      × (count is_waiting (set ws i b) + one_if (is_waiting a)
          ≡ count is_waiting ws + one_if (is_waiting b))
      × (count is_ended (set ws i b) + one_if (is_ended a)
          ≡ count is_ended ws + one_if (is_ended b))

  moved : (ws : List (Pc T)) (i : ℕ) (a b : Pc T) → get_elem? ws i ≡ some a → Moved ws i a b
  moved ws i a b at = (
    length-set ws i b,
    count-set is_busy ws i a b at,
    count-set is_locked ws i a b at,
    count-set is_waiting ws i a b at,
    count-set is_ended ws i a b at,
  )

  Work-IsOrdered :
      {capacity : ℕ} (e f : ThreadExecutor T)
      → IsOrdered capacity e
      → Work e f
      → IsOrdered capacity f
  Work-IsOrdered e f v (enter i at open_flag) = ground (arith, moved e.workers i at_loop at_lock at)
  Work-IsOrdered e f v (leave i at closed) = ground (arith, moved e.workers i at_loop ended at)
  Work-IsOrdered e f v (lock i at free) = ground (arith, moved e.workers i at_lock locked at)
  Work-IsOrdered e f v (sleep i at empty) = ground (arith, moved e.workers i locked waiting at)
  Work-IsOrdered e f v (relock i at free open_flag) =
      ground (arith, moved e.workers i woken locked at)
  Work-IsOrdered e f v (quit i at free closed) = ground (arith, moved e.workers i woken ended at)
  Work-IsOrdered e f v (take i t ts at front) =
      ground (arith, moved e.workers i locked (holding t) at, append_assoc e.taken (t ∷ []) ts)
  Work-IsOrdered e f v (begin i t at) = ground (arith, moved e.workers i (holding t) (running t) at)
  Work-IsOrdered e f v (finish i t at) = ground (arith, moved e.workers i (running t) at_loop at)

  Step-IsOrdered :
      {capacity : ℕ} (e f : ThreadExecutor T)
      → 0 < capacity
      → IsOrdered capacity e
      → Step e f
      → IsOrdered capacity f
  Step-IsOrdered e f some_worker v (work g w) = Work-IsOrdered e g v w
  Step-IsOrdered e f some_worker v (add_notify t i free at) = ground (
    arith,
    moved e.workers i waiting woken at,
    append_assoc e.taken e.tasks (t ∷ []),
    count-le-length is_waiting e.workers,
  )
  Step-IsOrdered e f some_worker v (add_unheard t free none_waits) =
      ground (arith, append_assoc e.taken e.tasks (t ∷ []))
  Step-IsOrdered e f some_worker v store_stop = ground arith
  Step-IsOrdered e f some_worker v (notify_stop is_stored) = record {
    order = v.order;
    size = length-map wake e.workers ∙ v.size;
    counter = v.counter ∙ sym (count-map is_busy wake e.workers (λ a. ground arith));
    one_lock = rw (count-map is_locked wake e.workers (λ a. ground arith)) v.one_lock;
    awake = inr (rw (count-wake e.workers) some_worker);
    alive = λ h. count-map is_ended wake e.workers (λ a. ground arith) ∙ v.alive h;
  }
  Step-IsOrdered e f some_worker v (spurious i at) =
      ground (arith, moved e.workers i waiting woken at)

  new_executor-IsOrdered :
      (capacity : ℕ) → 0 < capacity → IsOrdered capacity (new_executor {T = T} capacity)
  new_executor-IsOrdered capacity some_worker = record {
    order = refl;
    size = length-replicate capacity at_loop;
    counter = sym (count-replicate is_busy capacity at_loop refl);
    one_lock = rw (count-replicate (is_locked {T = T}) capacity at_loop refl) (omega arith);
    awake = inl refl;
    alive = λ _. count-replicate is_ended capacity at_loop refl;
  }

  pub Reach-IsOrdered :
      {capacity : ℕ} (e : ThreadExecutor T) → 0 < capacity → Reach capacity e → IsOrdered capacity e
  Reach-IsOrdered {capacity} e some_worker start = new_executor-IsOrdered capacity some_worker
  Reach-IsOrdered e some_worker (after d f r s) =
      Step-IsOrdered d f some_worker (Reach-IsOrdered d some_worker r) s

  -- At every moment of an executor with at least one worker, however its threads interleave: the
  -- tasks that were added are those that were taken and then those in the queue, in the order in
  -- which they were added, so that each is taken once; `in_use` is the number of the tasks that run,
  -- and at most the capacity; and at most one worker has the mutex.
  pub tasks_in_order :
      (capacity : ℕ) (e : ThreadExecutor T)
      → 0 < capacity
      → Reach capacity e
      → (e.added ≡ e.taken ++ e.tasks)
        × (e.in_use ≡ count is_busy e.workers)
        × (e.in_use ≤ capacity)
        × (count is_locked e.workers ≤ 1)
  tasks_in_order capacity e some_worker r =
      let v = Reach-IsOrdered e some_worker r in
      (
        v.order,
        v.counter,
        omega (arith, v.counter, v.size, count-le-length is_busy e.workers),
        v.one_lock,
      )
