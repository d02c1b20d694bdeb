-- ===== src/Tasks/Shutdown.antt =====
-- `stop` stores the flag and notifies without the mutex (src/Nuke/thread_pool.h), so that a worker
-- between its test of the flag and its wait misses both.
use ctx_db.Prelude.{
  ℕ, zero, suc, false, ◌<◌, ◌≡◌, ◌≢◌, refl, ◌∙◌, List, some, arith, get_elem?, set,
  get_elem?-set_ne, map,
}
use ctx_db.Tasks.{
  Pc, at_loop, at_lock, locked, waiting, woken, holding, running, ended, stored, notified,
  ThreadExecutor, is_locked, wake, IsFree, move_to, Work, enter, leave, lock, sleep, relock, quit,
  take, begin, finish, work, store_stop, notify_stop, new_executor, Reach, start, after, Works,
  none_yet, more,
}
use ctx_db.Tasks.Count.{count-replicate}

module _ {T : Type 0} where
  -- A worker that waits is not the one that moves.
  other_waits :
      (ws : List (Pc T)) (i j : ℕ) (a b : Pc T)
      → get_elem? ws j ≡ some waiting
      → get_elem? ws i ≡ some a
      → a ≢ waiting
      → get_elem? (set ws i b) j ≡ some waiting
  other_waits ws i j a b waits at other =
      get_elem?-set_ne ws i j b (λ same_index. other (cc)) ∙ waits

  -- The workers themselves never wake one that waits.
  Work-waiting :
      (e f : ThreadExecutor T) (j : ℕ)
      → get_elem? e.workers j ≡ some waiting
      → Work e f
      → get_elem? f.workers j ≡ some waiting
  Work-waiting e f j w (enter i at h) = other_waits e.workers i j at_loop at_lock w at (λ x. cc)
  Work-waiting e f j w (leave i at h) = other_waits e.workers i j at_loop ended w at (λ x. cc)
  Work-waiting e f j w (lock i at h) = other_waits e.workers i j at_lock locked w at (λ x. cc)
  Work-waiting e f j w (sleep i at h) = other_waits e.workers i j locked waiting w at (λ x. cc)
  Work-waiting e f j w (relock i at h k) = other_waits e.workers i j woken locked w at (λ x. cc)
  Work-waiting e f j w (quit i at h k) = other_waits e.workers i j woken ended w at (λ x. cc)
  Work-waiting e f j w (take i t ts at h) =
      other_waits e.workers i j locked (holding t) w at (λ x. cc)
  Work-waiting e f j w (begin i t at) =
      other_waits e.workers i j (holding t) (running t) w at (λ x. cc)
  Work-waiting e f j w (finish i t at) =
      other_waits e.workers i j (running t) at_loop w at (λ x. cc)

  Works-waiting :
      (e f : ThreadExecutor T) (j : ℕ)
      → get_elem? e.workers j ≡ some waiting
      → Works e f
      → get_elem? f.workers j ≡ some waiting
  Works-waiting e f j w none_yet = w
  Works-waiting e f j w (more d g ws step) = Work-waiting d g j (Works-waiting e d j w ws) step

  -- An executor with at least one worker can come to a state in which `stop` is done and its first
  -- worker waits, and goes on waiting however far the workers go on by themselves, with no further
  -- notification and no wake-up that nobody asked for.
  pub lost_wakeup :
      (capacity : ℕ)
      → 0 < capacity
      → (e : ThreadExecutor T) × Reach capacity e
        × (e.close_flag ≡ false)
        × (e.stopping ≡ notified)
        × ((f : ThreadExecutor T) → Works e f → get_elem? f.workers 0 ≡ some waiting)
  lost_wakeup zero some_worker = absurd (omega arith)
  lost_wakeup (suc others) some_worker =
      let free : IsFree (move_to 0 at_lock (new_executor {T = T} (suc others))) =
        count-replicate (is_locked {T = T}) others at_loop refl in
      let e0 : ThreadExecutor T = new_executor (suc others) in
      let e1 = move_to 0 at_lock e0 in
      let e2 = move_to 0 locked e1 in
      let e3 : ThreadExecutor T = record e2 { close_flag = false; stopping = stored } in
      let e4 : ThreadExecutor T = record e3 {
        workers = map wake e3.workers;
        stopping = notified;
      } in
      let e5 = move_to 0 waiting e4 in
      let r1 = after e0 e1 start (work e1 (enter 0 refl refl)) in
      let r2 = after e1 e2 r1 (work e2 (lock 0 refl free)) in
      let r3 = after e2 e3 r2 store_stop in
      let r4 = after e3 e4 r3 (notify_stop refl) in
      let r5 = after e4 e5 r4 (work e5 (sleep 0 refl refl)) in
      (e5, r5, refl, refl, λ f ws. Works-waiting e5 f 0 refl ws)
