-- ===== src/Process/Tests.antt =====
-- kernel/process.c: test data and sample runs.
use my_os.Prelude.{ℕ, ◌≡◌, refl, true, List, [], ◌∷◌, some, none, arith}
use my_os.Task.{task_create, Scheduler, TaskState, task_init, task_current_id}
use my_os.Process.{
  process_find_by_task_locked, find_by_task, parse_digits, ProcessTable, running, process_init,
  process_create, process_exit, process_wait, wait_ok, parse_pid,
}
use my_os.Process.Create.{IsValid, Creates, process_create-Creates}
use my_os.Process.Exit.{collected, process_wait-process_exit}

-- The path "/a".
abbrev short_path : List ℕ
short_path = 47 ∷ 97 ∷ []

-- One process, whose task runs.
abbrev one_process : ProcessTable
one_process = record {
  processes =
      record {
        pid = 1;
        parent_pid = 0;
        name = short_path;
        state = running;
        exit_code = 0;
        load_status = 0;
        task_id = 1;
      }
      ∷ [];
  next_pid = 2;
  total_process_count = 1;
}

abbrev in_process : Scheduler
in_process = record {
  tasks =
      record {
        id = 1;
        state = TaskState.running;
        wake_tick = 0;
        entry = 4096;
        arg = 8192;
        wait_next = none;
      }
      ∷ [];
  current = some 0;
  cursor = some 0;
  next_task_id = 2;
  total_task_count = 1;
}

one_process-IsValid : IsValid one_process
one_process-IsValid = (omega arith, omega arith)

process_create-Creates_example :
    Creates short_path true
      (task_create task_init 4096 8192 true true true)
      process_init
      task_init
      (process_create 4096 8192 short_path true true true true (process_init, task_init))
process_create-Creates_example =
    process_create-Creates 4096 8192 short_path true true true true process_init task_init
      (omega arith)

own_process :
    process_find_by_task_locked (task_current_id in_process) one_process.processes ≡ some 0
unfolding task_current_id find_by_task
own_process = refl

process_wait-process_exit_example :
    (process_wait 1 (λ t. t) 1 (process_exit 7 one_process in_process)
      ≡ some (wait_ok 7, collected one_process 0 7))
    × (process_wait 1 (λ t. t) 1 (collected one_process 0 7)
        ≡ some (wait_ok 7, collected one_process 0 7))
process_wait-process_exit_example =
    process_wait-process_exit one_process in_process 7 0 one_process-IsValid own_process 0 (λ t. t)

-- The other tasks end the process in their first round.
abbrev ends_it : ProcessTable → ProcessTable
ends_it t = collected t 0 7

-- "  42 x" is read as 42.
parse_pid_run : parse_pid (32 ∷ 32 ∷ 52 ∷ 50 ∷ 32 ∷ 120 ∷ []) ≡ some 42
unfolding parse_pid parse_digits
parse_pid_run = refl
