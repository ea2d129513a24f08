-- ===== src/Syscall/Dispatch.antt =====
-- kernel/syscall.c: what the dispatcher does after syscall_init.
use my_os.Prelude.{
  ℕ, ◌%◌, ◌^◌, ◌≤◌, ◌<◌, leb, leb→le, ◌≡◌, ◌≢◌, refl, ◌⊎◌, inl, inr, true, false, ◌||◌, List,
  Option, none, some, arith, ◌==◌, ==→eq, if◌then◌else◌, Bool-cases,
}
use my_os.Fd.{FdEntry, Node, fd_read, fd_write}
use my_os.Task.{Scheduler}
use my_os.Process.{ProcessTable}
use my_os.Process.Current.{IsCurrentPid, process_current_pid-IsCurrentPid}
use my_os.Syscall.{
  Handler, null_handler, sys_read_handler, sys_write_handler, sys_getpid_handler, sys_exit_handler,
  Syscalls, syscall_register, syscall_init, fd_result, fd_argument, sys_read, sys_write, sys_getpid,
  sys_exit, find_handler, run_handler, syscall_dispatch,
}

-- The handler of a number.
abbrev handler_of : ℕ → Handler
handler_of number =
    if number == 0
    then sys_read_handler
    else if number == 1
    then sys_write_handler
    else if number == 39
    then sys_getpid_handler
    else if number == 60
    then sys_exit_handler
    else null_handler

==-sym : (m n : ℕ) → (m == n) ≡ (n == m)
==-sym m n = ground arith

find_handler-syscall_init :
    (number : ℕ) (s : Syscalls) → find_handler number (syscall_init s).table ≡ handler_of number
unfolding find_handler syscall_init syscall_register
find_handler-syscall_init number s =
    rw (==-sym number 0, ==-sym number 1, ==-sym number 39, ==-sym number 60) refl

-- What a call on a descriptor answers to its caller: the number of bytes, or the code of a bad
-- descriptor where it failed, with -1 or with another number that is negative as an s64.
abbrev pub Answers : Option ℕ → ℕ → Type 0
Answers outcome result =
    ((outcome ≡ none) × (result ≡ 18446744073709551614))
    ⊎ ((n : ℕ) × (outcome ≡ some n)
        × (((n < 9223372036854775808) × (result ≡ n))
            ⊎ ((9223372036854775808 ≤ n) × (result ≡ 18446744073709551614))))

-- A call that moves bytes: a null or empty buffer is a fault; a descriptor whose low 32 bits are
-- negative is a bad one; otherwise it is the call on the descriptor.
abbrev pub Moves :
    (ℕ → Option ℕ × List FdEntry) → ℕ → ℕ → ℕ → List FdEntry → ℕ × List FdEntry → Type 0
Moves on_fd arg0 arg1 arg2 table (result, table') =
    (((arg1 ≡ 0) ⊎ (arg2 ≡ 0)) × (result ≡ 18446744073709551613) × (table' ≡ table))
    ⊎ ((arg1 ≢ 0)
        × (arg2 ≢ 0)
        × (2147483648 ≤ arg0 % 4294967296)
        × (result ≡ 18446744073709551614)
        × (table' ≡ table))
    ⊎ ((arg1 ≢ 0)
        × (arg2 ≢ 0)
        × (arg0 % 4294967296 < 2147483648)
        × Answers (on_fd (arg0 % 4294967296)).0 result
        × (table' ≡ (on_fd (arg0 % 4294967296)).1))

fd_result-Answers : (outcome : Option ℕ) → Answers outcome (fd_result outcome)
fd_result-Answers none = inl (refl, refl)
fd_result-Answers (some n) = elim (Bool-cases (leb (2 ^ 63) n)) [
  | inl e ↦ inr (n, refl, inr (leb→le _ _ e, rw e refl))
  | inr e ↦ inr (n, refl, inl (ground arith, rw e refl))
]

fd_argument_cases :
    (arg : ℕ)
    → ((2147483648 ≤ arg % 4294967296) × (fd_argument arg ≡ none))
      ⊎ ((arg % 4294967296 < 2147483648) × (fd_argument arg ≡ some (arg % 4294967296)))
fd_argument_cases arg = elim (Bool-cases (leb 2147483648 (arg % 4294967296))) [
  | inl e ↦ inl (leb→le _ _ e, rw e refl)
  | inr e ↦ inr (ground arith, rw e refl)
]

module _ (transfer : Node → ℕ → ℕ → ℕ) (arg0 arg1 arg2 : ℕ) (table : List FdEntry) where
  sys_read-Moves :
      Moves
        (λ fd. fd_read transfer fd true arg2 table)
        arg0
        arg1
        arg2
        table
        (sys_read transfer arg0 arg1 arg2 table)
  unfolding sys_read
  sys_read-Moves = elim (Bool-cases ((arg1 == 0) || (arg2 == 0))) [
    | inl e ↦ rw e (inl (ground arith, refl, refl))
    | inr e ↦
        let full : (arg1 == 0) ≡ false = ground arith in
        elim (fd_argument_cases arg0) [
          | inl (n, f) ↦ rw (e, f) (inr (inl (ground arith, ground arith, n, refl, refl)))
          | inr (n, f) ↦
              rw (e, f, full) (inr (inr (ground arith, ground arith, n, fd_result-Answers _, refl)))
        ]
  ]

  sys_write-Moves :
      Moves
        (λ fd. fd_write transfer fd true arg2 table)
        arg0
        arg1
        arg2
        table
        (sys_write transfer arg0 arg1 arg2 table)
  unfolding sys_write
  sys_write-Moves = elim (Bool-cases ((arg1 == 0) || (arg2 == 0))) [
    | inl e ↦ rw e (inl (ground arith, refl, refl))
    | inr e ↦
        let full : (arg1 == 0) ≡ false = ground arith in
        elim (fd_argument_cases arg0) [
          | inl (n, f) ↦ rw (e, f) (inr (inl (ground arith, ground arith, n, refl, refl)))
          | inr (n, f) ↦
              rw (e, f, full) (inr (inr (ground arith, ground arith, n, fd_result-Answers _, refl)))
        ]
  ]

module _ (read_transfer write_transfer : Node → ℕ → ℕ → ℕ) (processes : ProcessTable)
    (scheduler : Scheduler) (arg0 arg1 arg2 number : ℕ) (s : Syscalls) (table : List FdEntry) where
  -- What a call does, by its number.
  abbrev pub Serves : ℕ × Syscalls × List FdEntry → Type 0
  Serves (result, s', table') =
      ((number ≡ 0)
        × (s' ≡ s)
        × Moves (λ fd. fd_read read_transfer fd true arg2 table) arg0 arg1 arg2 table
            (result, table'))
      ⊎ ((number ≡ 1)
          × (s' ≡ s)
          × Moves (λ fd. fd_write write_transfer fd true arg2 table) arg0 arg1 arg2 table
              (result, table'))
      ⊎ ((number ≡ 39) × IsCurrentPid processes scheduler result × (s' ≡ s) × (table' ≡ table))
      ⊎ ((number ≡ 60)
          × (result ≡ arg0)
          × (s' ≡ record s { exit_requested = true; exit_code = arg0 })
          × (table' ≡ table))
      ⊎ ((number ≢ 0)
          × (number ≢ 1)
          × (number ≢ 39)
          × (number ≢ 60)
          × (result ≡ 18446744073709551615)
          × (s' ≡ s)
          × (table' ≡ table))

  abbrev outcome : ℕ × Syscalls × List FdEntry
  outcome =
      run_handler read_transfer write_transfer processes scheduler arg0 arg1 arg2
        (handler_of number) (s, table)

  outcome-Serves : Serves outcome
  unfolding run_handler sys_getpid sys_exit
  outcome-Serves = elim (Bool-cases (number == 0)) [
    | inl e ↦ rw e (inl (==→eq number 0 e, refl, sys_read-Moves read_transfer arg0 arg1 arg2 table))
    | inr n0 ↦ elim (Bool-cases (number == 1)) [
      | inl e ↦
          rw (n0, e)
            (inr
              (inl (==→eq number 1 e, refl, sys_write-Moves write_transfer arg0 arg1 arg2 table)))
      | inr n1 ↦ elim (Bool-cases (number == 39)) [
        | inl e ↦
            rw (n0, n1, e)
              (inr (
                inr (
                  inl (
                    ==→eq number 39 e,
                    process_current_pid-IsCurrentPid processes scheduler,
                    refl,
                    refl,
                  ))))
        | inr n39 ↦ elim (Bool-cases (number == 60)) [
          | inl e ↦
              rw (n0, n1, n39, e) (inr (inr (inr (inl (==→eq number 60 e, refl, refl, refl)))))
          | inr n60 ↦
              rw (n0, n1, n39, n60)
                (inr (
                  inr (
                    inr (
                      inr (
                        ground arith,
                        ground arith,
                        ground arith,
                        ground arith,
                        refl,
                        refl,
                        refl,
                      )))))
        ]
      ]
    ]
  ]

syscall_init-initialized : (s : Syscalls) → (syscall_init s).initialized ≡ true
unfolding syscall_init
syscall_init-initialized s = refl

module _ (read_transfer write_transfer : Node → ℕ → ℕ → ℕ) (processes : ProcessTable)
    (scheduler : Scheduler) (arg0 arg1 arg2 number : ℕ) (start : Syscalls)
    (table : List FdEntry) where
  abbrev called : ℕ × Syscalls × List FdEntry
  called =
      syscall_dispatch read_transfer write_transfer processes scheduler arg0 arg1 arg2 number
        (syscall_init start, table)

  dispatch_outcome :
      called
      ≡ outcome read_transfer write_transfer processes scheduler arg0 arg1 arg2 number
          (syscall_init start)
          table
  unfolding syscall_dispatch
  dispatch_outcome =
      rw (syscall_init-initialized start, find_handler-syscall_init number start) refl

  -- After `syscall_init`, `syscall_dispatch` reads for 0, writes for 1, returns for 39 the number of
  -- the first running process of the current task or else 0, and for 60 records the exit code and
  -- returns it; every other number is invalid, -1, and changes nothing. A read or write with a null
  -- or empty buffer is a fault, -3, one on a negative descriptor is a bad descriptor, -2, and both
  -- change nothing; otherwise it is that of the descriptor, whose failure, or number of bytes that
  -- is negative as an s64, is answered by -2.
  pub syscall_dispatch-Serves :
      Serves read_transfer write_transfer processes scheduler arg0 arg1 arg2 number
        (syscall_init start)
        table
        called
  syscall_dispatch-Serves = rw dispatch_outcome (
      outcome-Serves read_transfer write_transfer processes scheduler arg0 arg1 arg2 number
        (syscall_init start) table)
