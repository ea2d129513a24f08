-- ===== src/Process.antt =====
-- kernel/process.c: the process table over the scheduler of kernel/task.c. The `next` chain from
-- `process_head` is the list `processes`, and a `process_t*` is a position in it. A path is the list
-- of its characters in front of the NUL. `load_status` keeps the bits of the s32: 0, or -1 as
-- 2 ^ 32 - 1. Each critical section of `process_lock` is one step.
pub mod Create
pub mod Current
pub mod Exit
mod Tests
use my_os.Prelude.{
  ℕ, zero, suc, ◌+◌, ◌-◌, ◌*◌, ◌%◌, Bool, true, false, not, ◌&&◌, ◌||◌, List, [], ◌∷◌, ◌++◌, Option,
  none, some, add32, ltb, leb, ◌==◌, if◌then◌else◌, length, get_or, set, take,
}
use my_os.Task.{Scheduler, task_create, task_current_id}

abbrev pub process_name_max : ℕ
process_name_max = 128

-- `process_state_t`.
pub data ProcessState : Type 0 where
  unused running zombie reaped : ProcessState

abbrev pub is_running : ProcessState → Bool
is_running running = true
is_running _ = false

abbrev pub is_finished : ProcessState → Bool
is_finished zombie = true
is_finished reaped = true
is_finished _ = false

abbrev pub load_failed : ℕ
load_failed = 4294967295

-- `process_t`.
pub record Process : Type 0 where
  pub pid : ℕ
  pub parent_pid : ℕ
  pub name : List ℕ
  pub state : ProcessState
  pub exit_code : ℕ
  pub load_status : ℕ
  pub task_id : ℕ

abbrev pub no_process : Process
no_process = record {
  pid = 0;
  parent_pid = 0;
  name = [];
  state = unused;
  exit_code = 0;
  load_status = 0;
  task_id = 0;
}

-- The static variables.
pub record ProcessTable : Type 0 where
  pub processes : List Process
  pub next_pid : ℕ
  pub total_process_count : ℕ

abbrev pub process_init : ProcessTable
process_init = record { processes = []; next_pid = 1; total_process_count = 0 }

abbrev pub process_copy_name : List ℕ → List ℕ
process_copy_name path = take (process_name_max - 1) path

-- The walk of `process_find_by_pid_locked` from position `i` on.
unfoldable pub find_by_pid : ℕ → List Process → ℕ → Option ℕ
find_by_pid pid [] i = none
find_by_pid pid (p ∷ rest) i =
    let later = find_by_pid pid rest (i + 1) in if p.pid == pid then some i else later

unfoldable pub find_by_task : ℕ → List Process → ℕ → Option ℕ
find_by_task task_id [] i = none
find_by_task task_id (p ∷ rest) i =
    let later = find_by_task task_id rest (i + 1) in
    if (p.task_id == task_id) && is_running p.state then some i else later

abbrev pub process_find_by_task_locked : ℕ → List Process → Option ℕ
process_find_by_task_locked task_id processes =
    if task_id == 0 then none else find_by_task task_id processes 0

abbrev pub process_at : ProcessTable → ℕ → Process
process_at t i = get_or t.processes i no_process

abbrev pub update_process : ProcessTable → ℕ → Process → ProcessTable
update_process t i p = record t { processes = set t.processes i p }

-- `process_finish`; a null pointer is `none`.
unfoldable pub process_finish : Option ℕ → ℕ → ℕ → ProcessTable → ProcessTable
process_finish none load_status exit_code t = t
process_finish (some i) load_status exit_code t =
    let p = process_at t i in
    update_process t i
      (record p { load_status = load_status; exit_code = exit_code; state = zombie })

unfoldable pub process_current_pid : ProcessTable → Scheduler → ℕ
process_current_pid t s =
    let task_id = task_current_id s in
    if task_id == 0 then 0 else elim (process_find_by_task_locked task_id t.processes) [
      | none ↦ 0
      | some i ↦ (process_at t i).pid
    ]

-- What `process_create` enters into the table.
abbrev pub new_process : List ℕ → ProcessTable → Scheduler → Process
new_process path t s = record {
  pid = t.next_pid;
  parent_pid = process_current_pid t s;
  name = process_copy_name path;
  state = running;
  exit_code = 0;
  load_status = 0;
  task_id = 0;
}

abbrev pub enter_process : Process → ProcessTable → ProcessTable
enter_process p t = record {
  processes = t.processes ++ (p ∷ []);
  next_pid = add32 t.next_pid 1;
  total_process_count = add32 t.total_process_count 1;
}

-- `process_create`. The flags tell whether its own allocation and the three of `task_create`
-- succeed; `entry` is the address of `process_task_entry`, and `arg` that of the new process. A
-- null path is an empty one.
unfoldable pub process_create :
    ℕ
    → ℕ
    → List ℕ
    → Bool
    → Bool
    → Bool
    → Bool
    → ProcessTable × Scheduler
    → ℕ × ProcessTable × Scheduler
process_create entry arg path has_memory has_task has_name has_stack (t, s) =
    let proc = new_process path t s in
    let entered = enter_process proc t in
    let position = length t.processes in
    let (task_id, s') = task_create s entry arg has_task has_name has_stack in
    if length path == 0
    then (0, t, s)
    else if not has_memory
    then (0, t, s)
    else if task_id == 0
    then (0, process_finish (some position) load_failed 0 entered, s')
    else (proc.pid, update_process entered position (record proc { task_id = task_id }), s')

unfoldable pub process_exit : ℕ → ProcessTable → Scheduler → ProcessTable
process_exit exit_code t s =
    let task_id = task_current_id s in
    if task_id == 0
    then t
    else process_finish (process_find_by_task_locked task_id t.processes) 0 exit_code t

-- What one round of the loop of `process_wait` comes to.
pub data WaitResult : Type 0 where
  no_such_process wait_load_failed : WaitResult
  wait_ok : ℕ → WaitResult
  still_running : WaitResult

unfoldable pub wait_round : ℕ → ProcessTable → WaitResult × ProcessTable
wait_round pid t = elim (find_by_pid pid t.processes 0) [
  | none ↦ (no_such_process, t)
  | some i ↦
      let p = process_at t i in
      let t' = update_process t i (record p { state = reaped }) in
      if not (is_finished p.state)
      then (still_running, t)
      else if p.load_status == 0
      then (wait_ok p.exit_code, t')
      else (wait_load_failed, t')
]

-- `process_wait` over at most `fuel` rounds; `others` is what the other tasks do while the caller
-- yields. `none` means that the fuel ran out.
unfoldable pub process_wait :
    ℕ → (ProcessTable → ProcessTable) → ℕ → ProcessTable → Option (WaitResult × ProcessTable)
process_wait zero others pid t = none
process_wait (suc fuel) others pid t =
    let (result, t') = wait_round pid t in
    let again = process_wait fuel others pid (others t') in
    elim result [
      | still_running ↦ again
      | no_such_process ↦ some (no_such_process, t')
      | wait_load_failed ↦ some (wait_load_failed, t')
      | wait_ok code ↦ some (wait_ok code, t')
    ]

-- The digits of `parse_pid`, from a value on.
unfoldable pub parse_digits : ℕ → List ℕ → ℕ
parse_digits value [] = value
parse_digits value (c ∷ rest) =
    let more = parse_digits ((value * 10 + (c - 48)) % 4294967296) rest in
    if leb 48 c && leb c 57 then more else value

unfoldable pub parse_pid : List ℕ → Option ℕ
parse_pid [] = none
parse_pid (c ∷ rest) =
    let later = parse_pid rest in
    if (c == 32) || (c == 9)
    then later
    else if ltb c 48 || ltb 57 c
    then none
    else some (parse_digits 0 (c ∷ rest))
