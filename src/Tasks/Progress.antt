-- ===== src/Tasks/Progress.antt =====
-- A `ThreadExecutor` that is not stopped goes on while there are tasks (src/Nuke/thread_pool.h).
use ctx_db.Prelude.{
  ℕ, ◌<◌, ◌≡◌, ◌≢◌, refl, ◌⊎◌, inl, inr, true, false, List, [], ◌∷◌, some, arith, get_elem?, count,
}
use ctx_db.Tasks.{
  Pc, at_loop, at_lock, locked, waiting, woken, holding, running, ended, ThreadExecutor, is_locked,
  is_waiting, is_ended, IsFree, Work, enter, lock, relock, take, begin, finish, Reach,
}
use ctx_db.Tasks.Count.{find_failing, find_passing, count-member}
use ctx_db.Tasks.Order.{Reach-IsOrdered}

module _ {T : Type 0} (e : ThreadExecutor T) where
  -- The worker with the mutex takes a task.
  locked-Work :
      (i : ℕ) (pc : Pc T)
      → get_elem? e.workers i ≡ some pc
      → is_locked pc ≡ true
      → e.tasks ≢ []
      → (f : ThreadExecutor T) × Work e f
  locked-Work i locked at h tasks = front e.tasks refl tasks
    where
      front : (ts : List T) → e.tasks ≡ ts → e.tasks ≢ [] → (f : ThreadExecutor T) × Work e f
      front [] empty tasks = absurd (tasks empty)
      front (t ∷ ts) one tasks = (_, take i t ts at one)
  locked-Work i at_loop at h tasks = cc
  locked-Work i at_lock at h tasks = cc
  locked-Work i waiting at h tasks = cc
  locked-Work i woken at h tasks = cc
  locked-Work i (holding t) at h tasks = cc
  locked-Work i (running t) at h tasks = cc
  locked-Work i ended at h tasks = cc

  -- With the mutex free, a worker that does not wait and has not ended moves.
  free-Work :
      (i : ℕ) (pc : Pc T)
      → get_elem? e.workers i ≡ some pc
      → is_waiting pc ≡ false
      → is_ended pc ≡ false
      → IsFree e
      → e.tasks ≢ []
      → e.close_flag ≡ true
      → (f : ThreadExecutor T) × Work e f
  free-Work i at_loop at w n free tasks open_flag = (_, enter i at open_flag)
  free-Work i at_lock at w n free tasks open_flag = (_, lock i at free)
  free-Work i locked at w n free tasks open_flag = locked-Work i locked at refl tasks
  free-Work i waiting at w n free tasks open_flag = cc
  free-Work i woken at w n free tasks open_flag = (_, relock i at free open_flag)
  free-Work i (holding t) at w n free tasks open_flag = (_, begin i t at)
  free-Work i (running t) at w n free tasks open_flag = (_, finish i t at)
  free-Work i ended at w n free tasks open_flag = cc

-- While an executor with at least one worker is not stopped and there is a task in its queue, some
-- worker can go on by itself, in every state that its threads can reach: neither the mutex nor a
-- notification that nobody heard ever holds all of them up.
pub no_task_forgotten :
    {T : Type 0} (capacity : ℕ) (e : ThreadExecutor T)
    → 0 < capacity
    → Reach capacity e
    → e.close_flag ≡ true
    → e.tasks ≢ []
    → (f : ThreadExecutor T) × Work e f
no_task_forgotten capacity e some_worker r open_flag tasks =
    let v = Reach-IsOrdered e some_worker r in
    elim v.awake [
      | inl empty ↦ absurd (tasks empty)
      | inr not_all ↦
          let (i, pc, at, awake) =
            find_failing is_waiting e.workers (omega (arith, not_all, v.size)) in
          elim (free_or_held (count is_locked e.workers)) [
            | inl free ↦
                free-Work e i pc at awake
                  (count-member is_ended e.workers i pc at (v.alive open_flag)) free tasks open_flag
            | inr held ↦
                let (j, lock_pc, there, has_lock) = find_passing is_locked e.workers held in
                locked-Work e j lock_pc there has_lock tasks
          ]
    ]
  where
    free_or_held : (n : ℕ) → (n ≡ 0) ⊎ (0 < n)
    free_or_held n = ground arith
