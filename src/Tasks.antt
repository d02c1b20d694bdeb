-- ===== src/Tasks.antt =====
-- `Nuke::ThreadExecutor` (src/Nuke/thread_pool.h), the queue of tasks behind the synchronous clients:
-- its worker threads and the thread that adds tasks and stops it, interleaved step by step. A step is
-- what one thread does between two accesses to the mutex, the flag or the counter.
pub mod Count
pub mod Order
pub mod Progress
pub mod Shutdown
pub mod Tests
use ctx_db.Prelude.{
  ℕ, ◌+◌, ◌-◌, ◌≡◌, Bool, true, false, List, [], ◌∷◌, ◌++◌, map, some, get_elem?, set, replicate,
  count,
}

-- Where a worker stands: at the test of the outer loop, in front of the mutex, behind it at the test
-- for an empty queue, in `cv_empty.wait`, notified there but without the mutex, with a task that it
-- took, running it, or at its end.
pub data Pc (T : Type 0) : Type 0 where
  at_loop at_lock locked waiting woken : Pc T
  holding : T → Pc T
  running : T → Pc T
  ended : Pc T

-- The thread that calls `stop`: the flag is not yet stored, it is, and all are notified.
pub data Stop : Type 0 where
  not_stopping stored notified : Stop

-- `added` and `taken` are the tasks that were ever pushed and popped, in order.
pub record ThreadExecutor (T : Type 0) : Type 0 where
  pub workers : List (Pc T)
  pub in_use : ℕ
  pub tasks : List T
  pub close_flag : Bool
  pub stopping : Stop
  pub added : List T
  pub taken : List T

module _ {T : Type 0} where
  abbrev pub is_locked : Pc T → Bool
  is_locked locked = true
  is_locked _ = false

  abbrev pub is_waiting : Pc T → Bool
  is_waiting waiting = true
  is_waiting _ = false

  abbrev pub is_busy : Pc T → Bool
  is_busy (running t) = true
  is_busy _ = false

  abbrev pub is_ended : Pc T → Bool
  is_ended ended = true
  is_ended _ = false

  abbrev pub wake : Pc T → Pc T
  wake waiting = woken
  wake pc = pc

  -- No worker has the mutex.
  abbrev pub IsFree : ThreadExecutor T → Type 0
  IsFree e = count is_locked e.workers ≡ 0

  abbrev pub move_to : ℕ → Pc T → ThreadExecutor T → ThreadExecutor T
  move_to i pc e = record e { workers = set e.workers i pc }

  -- A step of worker i, in the order of `inner_loop`.
  pub data Work (e : ThreadExecutor T) : ThreadExecutor T → Type 0 where
    enter :
        (i : ℕ)
        → get_elem? e.workers i ≡ some at_loop
        → e.close_flag ≡ true
        → Work e (move_to i at_lock e)
    leave :
        (i : ℕ)
        → get_elem? e.workers i ≡ some at_loop
        → e.close_flag ≡ false
        → Work e (move_to i ended e)
    lock : (i : ℕ) → get_elem? e.workers i ≡ some at_lock → IsFree e → Work e (move_to i locked e)
    sleep :
        (i : ℕ) → get_elem? e.workers i ≡ some locked → e.tasks ≡ [] → Work e (move_to i waiting e)
    relock :
        (i : ℕ)
        → get_elem? e.workers i ≡ some woken
        → IsFree e
        → e.close_flag ≡ true
        → Work e (move_to i locked e)
    quit :
        (i : ℕ)
        → get_elem? e.workers i ≡ some woken
        → IsFree e
        → e.close_flag ≡ false
        → Work e (move_to i ended e)
    take :
        (i : ℕ) (t : T) (ts : List T)
        → get_elem? e.workers i ≡ some locked
        → e.tasks ≡ t ∷ ts
        → Work e (record (move_to i (holding t) e) { tasks = ts; taken = e.taken ++ t ∷ [] })
    begin :
        (i : ℕ) (t : T)
        → get_elem? e.workers i ≡ some (holding t)
        → Work e (record (move_to i (running t) e) { in_use = e.in_use + 1 })
    finish :
        (i : ℕ) (t : T)
        → get_elem? e.workers i ≡ some (running t)
        → Work e (record (move_to i at_loop e) { in_use = e.in_use - 1 })

  abbrev pub push : T → ThreadExecutor T → ThreadExecutor T
  push t e = record e { tasks = e.tasks ++ t ∷ []; added = e.added ++ t ∷ [] }

  -- Also the steps of the other threads: `add_task`, which notifies one worker that waits, if there is
  -- one, the two halves of `stop`, and a wake-up that nobody asked for.
  pub data Step (e : ThreadExecutor T) : ThreadExecutor T → Type 0 where
    work : (f : ThreadExecutor T) → Work e f → Step e f
    add_notify :
        (t : T) (i : ℕ)
        → IsFree e
        → get_elem? e.workers i ≡ some waiting
        → Step e (push t (move_to i woken e))
    add_unheard : (t : T) → IsFree e → count is_waiting e.workers ≡ 0 → Step e (push t e)
    store_stop : Step e (record e { close_flag = false; stopping = stored })
    notify_stop :
        e.stopping ≡ stored
        → Step e (record e { workers = map wake e.workers; stopping = notified })
    spurious : (i : ℕ) → get_elem? e.workers i ≡ some waiting → Step e (move_to i woken e)

  -- The constructor, with its `capacity`.
  abbrev pub new_executor : ℕ → ThreadExecutor T
  new_executor capacity = record {
    workers = replicate capacity at_loop;
    in_use = 0;
    tasks = [];
    close_flag = true;
    stopping = not_stopping;
    added = [];
    taken = [];
  }

  pub data Reach (capacity : ℕ) : ThreadExecutor T → Type 0 where
    start : Reach capacity (new_executor capacity)
    after : (e f : ThreadExecutor T) → Reach capacity e → Step e f → Reach capacity f

  -- Any number of steps of the workers alone.
  pub data Works (e : ThreadExecutor T) : ThreadExecutor T → Type 0 where
    none_yet : Works e e
    more : (f g : ThreadExecutor T) → Works e f → Work f g → Works e g
