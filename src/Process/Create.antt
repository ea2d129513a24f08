-- ===== src/Process/Create.antt =====
-- kernel/process.c: process_create and the process numbers.
use my_os.Prelude.{
  ℕ, zero, suc, ◌+◌, ◌≤◌, ◌<◌, ◌≡◌, ◌≢◌, refl, sym, ap, ◌∙◌, subst, ◌⊎◌, inl, inr, Bool, true,
  false, List, [], ◌∷◌, ◌++◌, some, arith, add32, u32_mod, ◌==◌, ==→eq, Bool-cases, length, get_or,
  set, take,
}
use my_os.Task.{Scheduler, task_create}
use my_os.Process.Current.{IsCurrentPid, process_current_pid-IsCurrentPid}
use my_os.Process.{
  Process, ProcessTable, no_process, running, zombie, find_by_pid, update_process, process_finish,
  new_process, enter_process, process_create, load_failed,
}

-- The process numbers ascend from `low` on and stay below `next`.
abbrev pub Pids : ℕ → List Process → ℕ → Type 0
Pids low [] next = low ≤ next
Pids low (p ∷ rest) next = (low ≤ p.pid) × Pids (p.pid + 1) rest next

abbrev pub IsValid : ProcessTable → Type 0
IsValid t = Pids 1 t.processes t.next_pid

Pids-le : (low next : ℕ) (l : List Process) → Pids low l next → low ≤ next
Pids-le low next [] h = h
Pids-le low next (p ∷ l) h = let later = Pids-le (p.pid + 1) next l h.1 in omega (arith, h.0)

Pids-snoc :
    (low next : ℕ) (l : List Process) (p : Process)
    → Pids low l next
    → p.pid ≡ next
    → Pids low (l ++ (p ∷ [])) (next + 1)
Pids-snoc low next [] p h e = (omega arith, omega arith)
Pids-snoc low next (q ∷ l) p h e = (h.0, Pids-snoc (q.pid + 1) next l p h.1 e)

pub Pids-set :
    (low next : ℕ) (l : List Process) (i : ℕ) (p : Process)
    → p.pid ≡ (get_or l i no_process).pid
    → Pids low l next
    → Pids low (set l i p) next
Pids-set low next [] i p e h = h
Pids-set low next (q ∷ l) zero p e h =
    (omega (arith, h.0), subst (λ n. Pids (n + 1) l next) (sym e) h.1)
Pids-set low next (q ∷ l) (suc i) p e h = (h.0, Pids-set (q.pid + 1) next l i p e h.1)

-- A process is found under its number.
pub find_by_pid-at :
    (low next : ℕ) (l : List Process) (i j : ℕ)
    → Pids low l next
    → j < length l
    → find_by_pid (get_or l j no_process).pid l i ≡ some (i + j)
unfolding find_by_pid
find_by_pid-at low next [] i j h inside = absurd (omega arith)
find_by_pid-at low next (p ∷ l) i zero h inside = ground arith
find_by_pid-at low next (p ∷ l) i (suc j) h inside =
    let ahead = pid-ahead (p.pid + 1) next l j h.1 (omega arith) in
    let other : (p.pid == (get_or l j no_process).pid) ≡ false = ground arith in
    rw other (
      find_by_pid-at (p.pid + 1) next l (i + 1) j h.1 (omega arith)
      ∙ ap (λ n. some n) (omega arith))
  where
    pid-ahead :
        (low next : ℕ) (l : List Process) (j : ℕ)
        → Pids low l next
        → j < length l
        → low ≤ (get_or l j no_process).pid
    pid-ahead low next [] j h inside = absurd (omega arith)
    pid-ahead low next (p ∷ l) zero h inside = h.0
    pid-ahead low next (p ∷ l) (suc j) h inside =
        let later = pid-ahead (p.pid + 1) next l j h.1 (omega arith) in omega (arith, h.0)

get_or-snoc : (l : List Process) (p : Process) → get_or (l ++ (p ∷ [])) (length l) no_process ≡ p
get_or-snoc [] p = refl
get_or-snoc (q ∷ l) p = get_or-snoc l p

set-snoc : (l : List Process) (p q : Process) → set (l ++ (p ∷ [])) (length l) q ≡ l ++ (q ∷ [])
set-snoc [] p q = refl
set-snoc (r ∷ l) p q = ap (λ m. r ∷ m) (set-snoc l p q)

-- What creating a process does, where `memory` tells whether there is memory for it and `made` is
-- what making a task for it comes to. For an empty path or without memory: nothing. Otherwise it
-- enters a process behind all others, under the next number, with the current process as its
-- parent. With a task, it reports the number, and the process runs as that task; without one, it
-- reports 0, and the process is marked as failed.
abbrev pub Creates :
    List ℕ → Bool → ℕ × Scheduler → ProcessTable → Scheduler → ℕ × ProcessTable × Scheduler → Type 0
Creates path memory made t s (pid, t', s') =
    (((length path ≡ 0) ⊎ (memory ≡ false)) × (pid ≡ 0) × (t' ≡ t) × (s' ≡ s))
    ⊎ ((length path ≢ 0)
        × (memory ≡ true)
        × (s' ≡ made.1)
        × ((p : Process) × (t'.processes ≡ t.processes ++ (p ∷ []))
            × (t'.next_pid ≡ t.next_pid + 1)
            × (p.pid ≡ t.next_pid)
            × IsCurrentPid t s p.parent_pid
            × (p.name ≡ take 127 path)
            × (((made.0 ≢ 0)
                  × (pid ≡ t.next_pid)
                  × (p.state ≡ running)
                  × (p.task_id ≡ made.0)
                  × (p.task_id ≡ s.next_task_id))
                ⊎ ((made.0 ≡ 0) × (pid ≡ 0) × (p.state ≡ zombie) × (p.load_status ≡ 4294967295)))))

module _ (entry arg : ℕ) (path : List ℕ) (m a b c : Bool) (t : ProcessTable) (s : Scheduler)
    (room : t.next_pid + 1 < u32_mod) where
  abbrev made : ℕ × Scheduler
  made = task_create s entry arg a b c

  create_refused :
      (length path ≡ 0) ⊎ (m ≡ false) → process_create entry arg path m a b c (t, s) ≡ (0, t, s)
  unfolding process_create
  create_refused h = ground arith

  create_failed :
      length path ≢ 0
      → m ≡ true
      → made.0 ≡ 0
      → process_create entry arg path m a b c (t, s) ≡ (
        0,
        process_finish
            (some (length t.processes))
            load_failed
            0
            (enter_process (new_process path t s) t),
        made.1,
      )
  unfolding process_create
  create_failed n h z = ground arith

  create_runs :
      length path ≢ 0
      → m ≡ true
      → made.0 ≢ 0
      → process_create entry arg path m a b c (t, s) ≡ (
        (new_process path t s).pid,
        update_process
            (enter_process (new_process path t s) t)
            (length t.processes)
            (record (new_process path t s) { task_id = made.0 }),
        made.1,
      )
  unfolding process_create
  create_runs n h z = ground arith

  task_id_next : made.0 ≢ 0 → made.0 ≡ s.next_task_id
  unfolding task_create
  task_id_next h = ground arith

  -- While process numbers last, `process_create` changes nothing and returns 0 for an empty path or
  -- without memory. Otherwise it enters one process behind all others under the next number, with
  -- the current process as its parent; it returns that number, and the process runs as the next
  -- task, exactly when a task could be made for it, and otherwise it returns 0, with the process
  -- marked failed.
  pub process_create-Creates :
      Creates path m made t s (process_create entry arg path m a b c (t, s))
  unfolding process_finish
  process_create-Creates =
      let p = new_process path t s in
      let next : add32 t.next_pid 1 ≡ t.next_pid + 1 = omega arith in
      let parent = process_current_pid-IsCurrentPid t s in
      elim (Bool-cases m) [
        | inr e ↦ rw (create_refused (inr e)) (inl (inr e, refl, refl, refl))
        | inl e ↦ elim (Bool-cases (length path == 0)) [
          | inl empty ↦
              rw (create_refused (inl (==→eq (length path) 0 empty)))
                (inl (inl (==→eq (length path) 0 empty), refl, refl, refl))
          | inr some_path ↦ elim (Bool-cases (made.0 == 0)) [
            | inl none_made ↦ rw (create_failed (ground arith) e (==→eq made.0 0 none_made)) (
                inr (
                  ground arith,
                  e,
                  refl,
                  (
                    record p { state = zombie; load_status = load_failed },
                    set-snoc t.processes p _
                        ∙ ap
                            (λ (x : Process).
                              t.processes
                              ++ (record x {
                                load_status = load_failed;
                                exit_code = 0;
                                state = zombie;
                              }
                                  ∷ []))
                            (get_or-snoc t.processes p),
                    next,
                    refl,
                    parent,
                    refl,
                    inr (==→eq made.0 0 none_made, refl, refl, refl),
                  ),
                ))
            | inr some_made ↦ rw (create_runs (ground arith) e (ground arith)) (
                inr (
                  ground arith,
                  e,
                  refl,
                  (
                    record p { task_id = made.0 },
                    set-snoc t.processes p _,
                    next,
                    refl,
                    parent,
                    refl,
                    inl (ground arith, refl, refl, refl, task_id_next (ground arith)),
                  ),
                ))
          ]
        ]
      ]

Creates-IsValid :
    (path : List ℕ) (memory : Bool) (task : ℕ × Scheduler) (t : ProcessTable) (s : Scheduler)
    (r : ℕ × ProcessTable × Scheduler)
    → IsValid t
    → Creates path memory task t s r
    → IsValid r.1
Creates-IsValid path memory task t s (pid, t', s') v (inl (why, z, same, rest)) =
    subst (λ x. IsValid x) (sym same) v
Creates-IsValid path memory task t s (pid, t', s') v
      (inr (some_path, enough, after, (p, grown, next, number, parent, name, rest))) =
    subst (λ l. Pids 1 l t'.next_pid) (sym grown)
      (subst (λ n. Pids 1 (t.processes ++ (p ∷ [])) n) (sym next)
        (Pids-snoc 1 t.next_pid t.processes p v number))

-- `process_create` keeps the process numbers ascending, and so different from one another.
pub process_create-IsValid :
    (entry arg : ℕ) (path : List ℕ) (m a b c : Bool) (t : ProcessTable) (s : Scheduler)
    → t.next_pid + 1 < u32_mod
    → IsValid t
    → IsValid (process_create entry arg path m a b c (t, s)).1
process_create-IsValid entry arg path m a b c t s room v =
    Creates-IsValid path m (task_create s entry arg a b c) t s
      (process_create entry arg path m a b c (t, s)) v
      (process_create-Creates entry arg path m a b c t s room)
