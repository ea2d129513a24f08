-- ===== src/Wait/Tests.antt =====
-- Examples on two tasks: the second is running, and the first waits in the queue.
use my_os.Prelude.{ℕ, ◌≡◌, ◌++◌, refl, [], ◌∷◌, some, none, arith}
use my_os.Task.{Task, Scheduler, task_at, task_wait_next, running, waiting}
use my_os.Wait.{WaitQueue, wait_queue_init, wait_queue_block, wait_queue_wake_all}
use my_os.Wait.Chain.{NotIn}
use my_os.Wait.Queue.{Holds, wait_queue_block-Holds}
use my_os.Wait.WakeAll.{AllRoused, wait_queue_wake_all-AllRoused}

abbrev first_task : Task
first_task = record {
  id = 1;
  state = waiting;
  wake_tick = 0;
  entry = 4096;
  arg = 0;
  wait_next = none;
}

abbrev second_task : Task
second_task = record {
  id = 2;
  state = running;
  wake_tick = 0;
  entry = 8192;
  arg = 0;
  wait_next = none;
}

abbrev two_tasks : Scheduler
two_tasks = record {
  tasks = first_task ∷ second_task ∷ [];
  current = some 1;
  cursor = some 1;
  next_task_id = 3;
  total_task_count = 2;
}

abbrev one_waiting : WaitQueue
one_waiting = record { head = some 0; tail = some 0 }

one_waiting-Holds : Holds one_waiting two_tasks (0 ∷ [])
unfolding task_wait_next
one_waiting-Holds = record {
  chain = (refl, refl);
  at_tail = refl;
  known = (omega arith, tt);
  distinct = (tt, tt);
}

wait_queue_block-Holds_example :
    Holds
      (wait_queue_block one_waiting two_tasks).0
      (wait_queue_block one_waiting two_tasks).1
      ((0 ∷ []) ++ (1 ∷ []))
    × ((task_at (wait_queue_block one_waiting two_tasks).1 1).state ≡ waiting)
wait_queue_block-Holds_example =
    wait_queue_block-Holds one_waiting two_tasks 1 (0 ∷ []) refl (omega arith) (omega arith, tt)
      one_waiting-Holds

wait_queue_wake_all-AllRoused_example :
    (s' : Scheduler) × (wait_queue_wake_all 2 one_waiting two_tasks ≡ some (1, wait_queue_init, s'))
    × AllRoused two_tasks s' (0 ∷ [])
    × ((j : ℕ) → NotIn j (0 ∷ []) → (task_at s' j).state ≡ (task_at two_tasks j).state)
wait_queue_wake_all-AllRoused_example =
    wait_queue_wake_all-AllRoused one_waiting two_tasks (0 ∷ []) 2 (omega arith) (omega arith)
      one_waiting-Holds
