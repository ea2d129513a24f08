-- ===== src/Wait.antt =====
-- kernel/wait.c: queues of blocked tasks, linked through the `wait_next` fields of the tasks of
-- the scheduler. Each function is one critical section of the queue's lock; interrupt flags are
-- left out. Null queue pointers are left out: every caller passes the address of a variable.
mod Tests
pub mod Chain
pub mod Queue
pub mod WakeAll
use my_os.Prelude.{ℕ, zero, suc, ◌+◌, Bool, true, false, Option, none, some, add32}
use my_os.Task.{Scheduler, task_wait_next, task_wait_set_next, task_set_waiting, task_set_ready}

-- `wait_queue_t`.
pub record WaitQueue : Type 0 where
  pub head : Option ℕ
  pub tail : Option ℕ

abbrev pub wait_queue_init : WaitQueue
wait_queue_init = record { head = none; tail = none }

-- The `if` on `queue->head`: the queue with the task behind its tail. A tail that is null while
-- the head is not is passed to `task_wait_set_next`, which ignores it.
pub link_behind : WaitQueue → Scheduler → ℕ → WaitQueue × Scheduler
link_behind q s current = elim q.head [
  | none ↦ (record { head = some current; tail = some current }, s)
  | some h ↦ (
    record { head = some h; tail = some current },
    elim q.tail [ none ↦ s | some t ↦ task_wait_set_next s t (some current) ],
  )
]

-- The critical section of `wait_queue_block_irqrestore`.
pub enqueue : WaitQueue → Scheduler → ℕ → WaitQueue × Scheduler
unfolding link_behind
enqueue q s current =
    let (q', s') = link_behind q (task_wait_set_next s current none) current in
    (q', task_set_waiting s' current)

-- `wait_queue_block_irqrestore` up to the switch to the scheduler.
pub wait_queue_block : WaitQueue → Scheduler → WaitQueue × Scheduler
unfolding enqueue
wait_queue_block q s = elim s.current [ none ↦ (q, s) | some c ↦ enqueue q s c ]

unfoldable pub wait_queue_wake_one : WaitQueue → Scheduler → Bool × WaitQueue × Scheduler
wait_queue_wake_one q s = elim q.head [
  | none ↦ (false, q, s)
  | some i ↦
      let next = task_wait_next s i in
      let tail : Option ℕ = elim next [ none ↦ none | some _ ↦ q.tail ] in
      (true, record { head = next; tail = tail }, task_set_ready (task_wait_set_next s i none) i)
]

-- The loop of `wait_queue_wake_all` from `task` on; `none` means that the fuel ran out.
pub wake_loop : ℕ → Scheduler → Option ℕ → ℕ → Option (ℕ × Scheduler)
wake_loop zero s task woke = none
wake_loop (suc fuel) s none woke = some (woke, s)
wake_loop (suc fuel) s (some i) woke =
    wake_loop fuel (task_set_ready (task_wait_set_next s i none) i) (task_wait_next s i)
      (add32 woke 1)

pub wait_queue_wake_all : ℕ → WaitQueue → Scheduler → Option (ℕ × WaitQueue × Scheduler)
unfolding wake_loop
wait_queue_wake_all fuel q s = elim (wake_loop fuel s q.head 0) [
  | none ↦ none
  | some (woke, s') ↦ some (woke, wait_queue_init, s')
]
