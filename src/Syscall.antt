-- ===== src/Syscall.antt =====
-- kernel/syscall.c: the table of system calls and its dispatcher, over the descriptors of
-- kernel/fd.c and the processes of kernel/process.c. Arguments and results are u64; `handler` is the
-- function that the pointer of an entry points to. The first `syscall_count` entries of the table
-- are the list `table`.
pub mod Dispatch
mod Tests
use my_os.Prelude.{
  ℕ, zero, suc, ◌%◌, ◌-◌, ◌^◌, Bool, true, false, not, ◌||◌, List, [], ◌∷◌, ◌++◌, Option, none,
  some, ltb, leb, ◌==◌, if◌then◌else◌, length,
}
use my_os.Fd.{FdEntry, Node, fd_read, fd_write}
use my_os.Task.{Scheduler}
use my_os.Process.{ProcessTable, process_current_pid}

abbrev pub syscall_table_size : ℕ
syscall_table_size = 16

abbrev pub sys_read_number : ℕ
sys_read_number = 0

abbrev pub sys_write_number : ℕ
sys_write_number = 1

abbrev pub sys_getpid_number : ℕ
sys_getpid_number = 39

abbrev pub sys_exit_number : ℕ
sys_exit_number = 60

-- -1, -2 and -3 as u64.
abbrev pub syscall_err_inval : ℕ
syscall_err_inval = 18446744073709551615

abbrev pub syscall_err_badfd : ℕ
syscall_err_badfd = 18446744073709551614

abbrev pub syscall_err_fault : ℕ
syscall_err_fault = 18446744073709551613

-- `syscall_handler_t`.
pub data Handler : Type 0 where
  null_handler sys_read_handler sys_write_handler sys_getpid_handler sys_exit_handler : Handler

-- `syscall_entry_t` without the name, which is only printed.
pub record SyscallEntry : Type 0 where
  pub number : ℕ
  pub handler : Handler

-- The static variables.
pub record Syscalls : Type 0 where
  pub table : List SyscallEntry
  pub initialized : Bool
  pub exit_requested : Bool
  pub exit_code : ℕ

unfoldable pub syscall_register : ℕ → Handler → Syscalls → Syscalls
syscall_register number handler s =
    let entry : SyscallEntry = record { number = number; handler = handler } in
    if leb syscall_table_size (length s.table)
    then s
    else record s { table = s.table ++ (entry ∷ []) }

unfoldable pub syscall_init : Syscalls → Syscalls
syscall_init s =
    let cleared : Syscalls = record s { table = []; exit_requested = false; exit_code = 0 } in
    let filled = syscall_register sys_exit_number sys_exit_handler (
      syscall_register sys_getpid_number sys_getpid_handler (
        syscall_register sys_write_number sys_write_handler
          (syscall_register sys_read_number sys_read_handler cleared))) in
    record filled { initialized = true }

-- A result of `fd_read` or `fd_write`, an s64, of which `none` is -1.
abbrev pub fd_result : Option ℕ → ℕ
fd_result none = syscall_err_badfd
fd_result (some n) = if leb (2 ^ 63) n then syscall_err_badfd else n

-- The descriptor that an argument names, an s32; a negative one is `none`.
abbrev pub fd_argument : ℕ → Option ℕ
fd_argument arg = let low = arg % 4294967296 in if leb 2147483648 low then none else some low

-- `transfer` is what `vfs_read` or `vfs_write` returns.
unfoldable pub sys_read : (Node → ℕ → ℕ → ℕ) → ℕ → ℕ → ℕ → List FdEntry → ℕ × List FdEntry
sys_read transfer arg0 arg1 arg2 table =
    if (arg1 == 0) || (arg2 == 0) then (syscall_err_fault, table) else elim (fd_argument arg0) [
      | none ↦ (syscall_err_badfd, table)
      | some fd ↦
          let (result, table') = fd_read transfer fd (not (arg1 == 0)) arg2 table in
          (fd_result result, table')
    ]

unfoldable pub sys_write : (Node → ℕ → ℕ → ℕ) → ℕ → ℕ → ℕ → List FdEntry → ℕ × List FdEntry
sys_write transfer arg0 arg1 arg2 table =
    if (arg1 == 0) || (arg2 == 0) then (syscall_err_fault, table) else elim (fd_argument arg0) [
      | none ↦ (syscall_err_badfd, table)
      | some fd ↦
          let (result, table') = fd_write transfer fd (not (arg1 == 0)) arg2 table in
          (fd_result result, table')
    ]

unfoldable pub sys_getpid : ProcessTable → Scheduler → ℕ
sys_getpid t s = process_current_pid t s

unfoldable pub sys_exit : ℕ → Syscalls → ℕ × Syscalls
sys_exit arg0 s = (arg0, record s { exit_requested = true; exit_code = arg0 })

-- The loop of `syscall_dispatch`: the handler of the first entry with the number.
unfoldable pub find_handler : ℕ → List SyscallEntry → Handler
find_handler number [] = null_handler
find_handler number (entry ∷ rest) =
    let later = find_handler number rest in if entry.number == number then entry.handler else later

module _ (read_transfer write_transfer : Node → ℕ → ℕ → ℕ) (processes : ProcessTable)
    (scheduler : Scheduler) (arg0 arg1 arg2 : ℕ) where
  -- The call of a handler; no handler reads the last three arguments.
  unfoldable pub run_handler : Handler → Syscalls × List FdEntry → ℕ × Syscalls × List FdEntry
  run_handler null_handler (s, table) = (syscall_err_inval, s, table)
  run_handler sys_read_handler (s, table) =
      let (result, table') = sys_read read_transfer arg0 arg1 arg2 table in (result, s, table')
  run_handler sys_write_handler (s, table) =
      let (result, table') = sys_write write_transfer arg0 arg1 arg2 table in (result, s, table')
  run_handler sys_getpid_handler (s, table) = (sys_getpid processes scheduler, s, table)
  run_handler sys_exit_handler (s, table) =
      let (result, s') = sys_exit arg0 s in (result, s', table)

  unfoldable pub syscall_dispatch : ℕ → Syscalls × List FdEntry → ℕ × Syscalls × List FdEntry
  syscall_dispatch number (s, table) =
      if not s.initialized
      then (syscall_err_inval, s, table)
      else run_handler (find_handler number s.table) (s, table)
