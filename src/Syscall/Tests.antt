-- ===== src/Syscall/Tests.antt =====
-- kernel/syscall.c: sample runs without a process.
use my_os.Prelude.{◌≡◌, refl, false, [], none}
use my_os.Fd.{fd_init}
use my_os.Task.{Scheduler}
use my_os.Process.{process_init}
use my_os.Syscall.{
  Syscalls, syscall_init, syscall_dispatch, syscall_register, find_handler, run_handler, sys_write,
  syscall_err_fault,
}
use my_os.Syscall.Dispatch.{Serves, syscall_dispatch-Serves}

abbrev no_syscalls : Syscalls
no_syscalls = record { table = []; initialized = false; exit_requested = false; exit_code = 0 }

abbrev idle : Scheduler
idle = record { tasks = []; current = none; cursor = none; next_task_id = 1; total_task_count = 0 }

syscall_dispatch-Serves_example :
    Serves
      (λ n offset size. size)
      (λ n offset size. size)
      process_init
      idle
      1
      4096
      24
      1
      (syscall_init no_syscalls)
      (fd_init none)
      (syscall_dispatch
        (λ n offset size. size)
        (λ n offset size. size)
        process_init
        idle
        1
        4096
        24
        1
        (syscall_init no_syscalls, fd_init none))
syscall_dispatch-Serves_example =
    syscall_dispatch-Serves (λ n offset size. size) (λ n offset size. size) process_init idle 1 4096
      24 1 no_syscalls (fd_init none)

-- A write from a null buffer.
fault_run :
    (syscall_dispatch
      (λ n offset size. size)
      (λ n offset size. size)
      process_init
      idle
      1
      0
      24
      1
      (syscall_init no_syscalls, fd_init none)).0
    ≡ syscall_err_fault
unfolding syscall_dispatch syscall_init syscall_register find_handler run_handler sys_write
fault_run = refl
