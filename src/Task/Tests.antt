-- ===== src/Task/Tests.antt =====
-- Examples on a scheduler with two tasks.
use my_os.Prelude.{true}
use my_os.Task.{Scheduler, task_init, task_create}
use my_os.Task.States.{Reach, Step, RunningIsCurrent, Reach-RunningIsCurrent}

abbrev two_tasks : Scheduler
two_tasks = (task_create (task_create task_init 4096 1 true true true).1 8192 2 true true true).1

two_tasks-Reach : Reach two_tasks
two_tasks-Reach =
    Reach.next (Reach.next Reach.start (Step.creates 4096 1 true true true))
      (Step.creates 8192 2 true true true)

Reach-RunningIsCurrent_example : RunningIsCurrent two_tasks
Reach-RunningIsCurrent_example = Reach-RunningIsCurrent two_tasks two_tasks-Reach
