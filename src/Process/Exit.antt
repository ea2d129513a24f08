-- ===== src/Process/Exit.antt =====
-- kernel/process.c: process_exit and process_wait.
use my_os.Prelude.{
  ℕ, zero, suc, ◌+◌, ◌-◌, ◌≤◌, ◌<◌, ◌≡◌, ◌≢◌, refl, ap, ◌∙◌, subst, inl, inr, true, ◌&&◌, List, [],
  ◌∷◌, some, arith, ◌==◌, Bool-cases, length, get_or, get_or-set_self, set-set, length-set,
}
use my_os.Task.{Scheduler, task_current_id}
use my_os.Process.{
  Process, ProcessTable, ProcessState, no_process, running, zombie, reaped, is_running, is_finished,
  find_by_pid, find_by_task, process_find_by_task_locked, process_at, update_process,
  process_finish, process_exit, wait_ok, still_running, wait_round, process_wait,
}
use my_os.Process.Create.{IsValid, Pids-set, find_by_pid-at}

-- The process of a running task.
find_by_task-some :
    (task_id : ℕ) (l : List Process) (i k : ℕ)
    → find_by_task task_id l i ≡ some k
    → (i ≤ k) × (k < i + length l) × ((get_or l (k - i) no_process).state ≡ running)
unfolding find_by_task
find_by_task-some task_id [] i k e = absurd (cc)
find_by_task-some task_id (p ∷ l) i k e =
    elim (Bool-cases ((p.task_id == task_id) && is_running p.state)) [
      | inl here ↦
          let same : i ≡ k = ground arith in
          let none_on : k - i ≡ 0 = omega arith in
          (omega arith, omega arith, rw none_on (is_running-state p.state (ground arith)))
      | inr other ↦
          let (low, high, is) = find_by_task-some task_id l (i + 1) k (rw other at e) in
          let on : k - i ≡ suc (k - (i + 1)) = omega arith in (omega arith, omega arith, rw on is)
    ]
  where
    is_running-state : (s : ProcessState) → is_running s ≡ true → s ≡ running
    is_running-state s h = ground arith

module _ (n pid : ℕ) (others : ProcessTable → ProcessTable) (t : ProcessTable) where
  wait_now :
      (wait_round pid t).0 ≢ still_running
      → process_wait (suc n) others pid t ≡ some (wait_round pid t)
  unfolding process_wait
  wait_now h = ground arith

module _ (t : ProcessTable) (v : IsValid t) (i : ℕ) (inside : i < length t.processes) where
  found : find_by_pid (process_at t i).pid t.processes 0 ≡ some i
  found = find_by_pid-at 1 t.next_pid t.processes 0 i v inside ∙ ap (λ n. some n) (omega arith)

  -- One round of waiting for a process that has finished.
  wait_found :
      is_finished (process_at t i).state ≡ true
      → (process_at t i).load_status ≡ 0
      → wait_round (process_at t i).pid t ≡ (
        wait_ok (process_at t i).exit_code,
        update_process t i (record (process_at t i) { state = reaped }),
      )
  unfolding wait_round
  wait_found f l = let at = found in ground arith

  wait_done :
      (fuel : ℕ) (others : ProcessTable → ProcessTable) (p : Process)
      → process_at t i ≡ p
      → is_finished p.state ≡ true
      → p.load_status ≡ 0
      → process_wait (suc fuel) others p.pid t
        ≡ some (wait_ok p.exit_code, update_process t i (record p { state = reaped }))
  wait_done fuel others p at =
      subst
        (λ (p : Process).
          is_finished p.state ≡ true
          → p.load_status ≡ 0
          → process_wait (suc fuel) others p.pid t
            ≡ some (wait_ok p.exit_code, update_process t i (record p { state = reaped })))
        at
        (λ f l.
          wait_now fuel (process_at t i).pid others t (λ e. absurd (let it = wait_found f l in cc))
          ∙ ap (λ x. some x) (wait_found f l))

  -- Finishing the process at a position of the table.
  finish_at :
      (code : ℕ)
      → process_at (process_finish (some i) 0 code t) i
        ≡ record (process_at t i) { load_status = 0; exit_code = code; state = zombie }
  unfolding process_finish
  finish_at code = get_or-set_self t.processes i _ no_process inside

  finish_inside : (code : ℕ) → i < length (process_finish (some i) 0 code t).processes
  unfolding process_finish
  finish_inside code =
      rw
        (length-set t.processes i
          (record (process_at t i) { load_status = 0; exit_code = code; state = zombie }))
        inside

  finish-IsValid : (code : ℕ) → IsValid (process_finish (some i) 0 code t)
  unfolding process_finish
  finish-IsValid code = Pids-set 1 t.next_pid t.processes i _ refl v

-- The table once a process has exited with `code` and has been waited for.
abbrev pub collected : ProcessTable → ℕ → ℕ → ProcessTable
collected t i code =
    update_process t i
      (record (process_at t i) { load_status = 0; exit_code = code; state = reaped })

module _ (t : ProcessTable) (s : Scheduler) (code i : ℕ) (v : IsValid t)
    (mine : process_find_by_task_locked (task_current_id s) t.processes ≡ some i) where
  inside : i < length t.processes
  inside =
      let (low, high, is) = find_by_task-some (task_current_id s) t.processes 0 i (ground arith) in
      omega arith

  exit_finishes : process_exit code t s ≡ process_finish (some i) 0 code t
  unfolding process_exit
  exit_finishes = ground arith

  collected-set :
      update_process
        (process_finish (some i) 0 code t)
        i
        (record (process_at t i) { load_status = 0; exit_code = code; state = reaped })
      ≡ collected t i code
  unfolding process_finish
  collected-set = ap (λ l. record t { processes = l }) (set-set t.processes i _ _)

  collected-IsValid : IsValid (collected t i code)
  collected-IsValid = Pids-set 1 t.next_pid t.processes i _ refl v

  first_wait :
      (fuel : ℕ) (others : ProcessTable → ProcessTable)
      → process_wait (suc fuel) others (process_at t i).pid (process_exit code t s)
        ≡ some (wait_ok code, collected t i code)
  first_wait = λ fuel others. rw (exit_finishes) (
      wait_done (process_finish (some i) 0 code t) (finish-IsValid t v i inside code) i
        (finish_inside t v i inside code) fuel others
        (record (process_at t i) { load_status = 0; exit_code = code; state = zombie })
        (finish_at t v i inside code) refl refl
      ∙ ap (λ x. some (wait_ok code, x)) collected-set)

  second_wait :
      (fuel : ℕ) (others : ProcessTable → ProcessTable)
      → process_wait (suc fuel) others (process_at t i).pid (collected t i code)
        ≡ some (wait_ok code, collected t i code)
  second_wait = λ fuel others.
      wait_done (collected t i code) collected-IsValid i
        (rw
          (length-set t.processes i
            (record (process_at t i) { load_status = 0; exit_code = code; state = reaped }))
          inside)
        fuel others (record (process_at t i) { load_status = 0; exit_code = code; state = reaped })
        (get_or-set_self t.processes i _ no_process inside) refl refl
      ∙ ap (λ (l : List Process). some (wait_ok code, record t { processes = l }))
          (set-set t.processes i _ _)

  -- When the running task belongs to a process, `process_exit` ends that process, and waiting for
  -- its number then returns the exit code in the first round, and again when it is repeated.
  pub process_wait-process_exit :
      (fuel : ℕ) (others : ProcessTable → ProcessTable)
      → (process_wait (suc fuel) others (process_at t i).pid (process_exit code t s)
          ≡ some (wait_ok code, collected t i code))
        × (process_wait (suc fuel) others (process_at t i).pid (collected t i code)
            ≡ some (wait_ok code, collected t i code))
  process_wait-process_exit fuel others = (first_wait fuel others, second_wait fuel others)

-- The table after some rounds of the other tasks.
abbrev pub rounds : (ProcessTable → ProcessTable) → ℕ → ProcessTable → ProcessTable
rounds others zero t = t
rounds others (suc n) t = rounds others n (others t)

-- No process of the table under this number is still to finish.
abbrev pub HasEnded : ℕ → ProcessTable → Type 0
HasEnded pid t =
    (i : ℕ) → find_by_pid pid t.processes 0 ≡ some i → is_finished (process_at t i).state ≡ true

abbrev pub Ends : ℕ → (ProcessTable → ProcessTable) → ℕ → ProcessTable → Type 0
Ends pid others n t =
    (k : ℕ) × (k ≤ n)
    × ((j : ℕ) → j < k → (wait_round pid (rounds others j t)).0 ≡ still_running)
    × ((wait_round pid (rounds others k t)).0 ≢ still_running)
    × (process_wait (suc n) others pid t ≡ some (wait_round pid (rounds others k t)))
