-- ===== src/Task/Pick.antt =====
-- kernel/task.c: task_pick_next_locked against the order of going round from behind the cursor.
use native.Mathlib.Nat.{mod-eq_of_lt, mod-eq-sub-mod, mod-lt, mod-add-mod}
use my_os.Prelude.{
  ℕ, zero, suc, ◌+◌, ◌-◌, ◌%◌, ◌≤◌, ◌<◌, ◌≡◌, refl, sym, ap, ◌⊎◌, Option-cases, ◌∙◌, inl, inr, Bool,
  true, false, List, Option, none, some, arith, ltb, ◌==◌, ==→eq, if◌then◌else◌, Bool-cases, length,
  get_or, subst, map, [], ◌∷◌, dec_lt,
}
use my_os.Prelude.Window.{index_ne}
use my_os.Task.{
  Task, Scheduler, is_ready, no_task, next_position, pick_loop, pick_start, task_pick_next,
  task_wakeup_sleeping, wake_sleeping,
}

abbrev pub ready_at : List Task → ℕ → Bool
ready_at tasks i = is_ready (get_or tasks i no_task).state

turn : (n i : ℕ) → i < n → (i + 1) % n ≡ (if ltb (i + 1) n then i + 1 else 0)
turn n i h = elim (dec_lt (i + 1) n) [
  | yes p ↦ ground (arith, mod-eq_of_lt p)
  | no p ↦
      let whole = mod-eq-sub-mod {n = i + 1} {m = n} (omega arith) in
      let rest = mod-eq_of_lt {n = i + 1 - n} {m = n} (omega arith) in ground arith
]

-- Going round: the position `k` steps on from `start`.
abbrev pub round : List Task → ℕ → ℕ → ℕ
round tasks start k = (start + k) % length tasks

next_round :
    (tasks : List Task) (start k : ℕ)
    → 0 < length tasks
    → next_position tasks (round tasks start k) ≡ round tasks start (k + 1)
next_round tasks start k some_task =
    let here = turn (length tasks) (round tasks start k) (mod-lt (start + k) some_task) in
    let move = mod-add-mod (start + k) (length tasks) 1 in
    sym here ∙ move ∙ ap (λ t. t % length tasks) (omega arith)

-- Once round: the first ready task behind `k` steps, or no task is ready.
abbrev pub IsPick : List Task → ℕ → Option ℕ → Type 0
IsPick tasks start none = (j : ℕ) → j < length tasks → ready_at tasks (round tasks start j) ≡ false
IsPick tasks start (some i) =
    (k : ℕ) × (k < length tasks)
    × (i ≡ round tasks start k)
    × (ready_at tasks i ≡ true)
    × ((j : ℕ) → j < k → ready_at tasks (round tasks start j) ≡ false)

module _ (tasks : List Task) (start : ℕ) (inside : start < length tasks) where
  extend :
      (k : ℕ)
      → ready_at tasks (round tasks start k) ≡ false
      → ((j : ℕ) → j < k → ready_at tasks (round tasks start j) ≡ false)
      → (j : ℕ) → j < suc k
      → ready_at tasks (round tasks start j) ≡ false
  extend k here before j h = elim (Bool-cases (j == k)) [
    | inl e ↦ ground arith
    | inr e ↦ before j (ground arith)
  ]

  round_again :
      (k : ℕ) → suc k ≤ length tasks → round tasks start (k + 1) ≡ start → suc k ≡ length tasks
  round_again k h e = elim (dec_lt (suc k) (length tasks)) [
    | yes p ↦
        let same : start + suc k ≡ start + (k + 1) = omega arith in
        absurd
          (index_ne (length tasks) no_task start k inside p (ap (λ t. t % length tasks) same ∙ e))
    | no p ↦ omega arith
  ]

  pick_loop-IsPick :
      (n k : ℕ)
      → n + k ≡ length tasks
      → ((j : ℕ) → j < k → ready_at tasks (round tasks start j) ≡ false)
      → IsPick tasks start (pick_loop n tasks start (round tasks start k))
  unfolding pick_loop
  pick_loop-IsPick zero k e before = λ j h. before j (omega arith)
  pick_loop-IsPick (suc n) k e before = elim (Bool-cases (ready_at tasks (round tasks start k))) [
    | inl here ↦ rw here (k, omega arith, refl, here, before)
    | inr not_here ↦
        let next = next_round tasks start k (omega arith) in
        elim (Bool-cases (next_position tasks (round tasks start k) == start)) [
          | inl back ↦
              let full = round_again k (omega arith) (sym next ∙ ==→eq _ _ back) in
              rw (not_here, back) (λ j h. extend k not_here before j (omega arith))
          | inr more ↦
              rw (not_here, more, next)
                (pick_loop-IsPick n (k + 1) (omega arith)
                  (λ j h. extend k not_here before j (omega arith)))
        ]
  ]

  start-round : round tasks start 0 ≡ start
  start-round = ap (λ t. t % length tasks) (omega arith) ∙ mod-eq_of_lt inside

  whole_round-IsPick : IsPick tasks start (pick_loop (length tasks) tasks start start)
  whole_round-IsPick =
      subst (λ c. IsPick tasks start (pick_loop (length tasks) tasks start c)) start-round
        (pick_loop-IsPick (length tasks) 0 (omega arith) (λ j h. absurd (omega arith)))

  -- Every position is met on the way round.
  position-round :
      (i : ℕ) → i < length tasks → (j : ℕ) × (j < length tasks) × (round tasks start j ≡ i)
  position-round i h = elim (dec_lt i start) [
    | yes p ↦
        let once =
          mod-eq-sub-mod {n = start + (i + length tasks - start)} {m = length tasks}
            (omega arith) in
        let rest =
          mod-eq_of_lt {n = start + (i + length tasks - start) - length tasks} {m = length tasks}
            (omega arith) in
        (i + length tasks - start, omega arith, omega arith)
    | no p ↦
        let small = mod-eq_of_lt {n = start + (i - start)} {m = length tasks} (omega arith) in
        (i - start, omega arith, omega arith)
  ]

length-map {ℓ κ} :
    {A : Type ℓ} {B : Type κ} (f : A → B) (xs : List A) → length (map f xs) ≡ length xs
length-map f [] = refl
length-map f (x ∷ xs) = ap suc (length-map f xs)

pick_start-lt : (s : Scheduler) → 0 < length s.tasks → pick_start s < length s.tasks
pick_start-lt s h = ground arith

-- The tasks after those whose time has come are woken.
abbrev pub woken : ℕ → Scheduler → List Task
woken now s = map (wake_sleeping now) s.tasks

-- The position behind the cursor, for `n` tasks: the next one, or the first behind the last one and
-- where there is no cursor yet.
abbrev pub IsBehind : Option ℕ → ℕ → ℕ → Type 0
IsBehind cursor n start =
    ((cursor ≡ none) × (start ≡ 0))
    ⊎ ((c : ℕ) × (cursor ≡ some c)
        × (((c + 1 < n) × (start ≡ c + 1)) ⊎ ((n ≤ c + 1) × (start ≡ 0))))

-- What picking the next task does: it wakes the sleepers whose time has come and picks the first
-- ready task on the way round from behind the cursor, on which it leaves the cursor; it picks
-- none only if no task is ready.
abbrev pub Picks : ℕ → Scheduler → Option ℕ × Scheduler → Type 0
Picks now s (none, s') =
    (s'.tasks ≡ woken now s) × ((i : ℕ) → i < length s.tasks → ready_at (woken now s) i ≡ false)
Picks now s (some i, s') =
    (s' ≡ record s { tasks = woken now s; cursor = some i })
    × (i < length s.tasks)
    × ((start : ℕ) × IsBehind s.cursor (length s.tasks) start × IsPick (woken now s) start (some i))

pick_start-IsBehind :
    (now : ℕ) (s : Scheduler)
    → IsBehind s.cursor (length s.tasks) (pick_start (task_wakeup_sleeping now s))
unfolding task_wakeup_sleeping
pick_start-IsBehind now s =
    let len = length-map (wake_sleeping now) s.tasks in
    elim (Option-cases s.cursor) [
      | inl e ↦ inl (e, rw e refl)
      | inr (c, e) ↦ inr (c, e, rw (e, len) (turned c (length s.tasks)))
    ]
  where
    turned :
        (c n : ℕ)
        → ((c + 1 < n) × ((if ltb (c + 1) n then c + 1 else 0) ≡ c + 1))
          ⊎ ((n ≤ c + 1) × ((if ltb (c + 1) n then c + 1 else 0) ≡ 0))
    turned c n = elim (dec_lt (c + 1) n) [
      | yes p ↦ inl (p, ground arith)
      | no p ↦ inr (omega arith, ground arith)
    ]

empty_woken : (now : ℕ) (l : List Task) → length l ≡ 0 → l ≡ map (wake_sleeping now) l
empty_woken now [] h = refl
empty_woken now (t ∷ l) h = absurd (omega arith)

tasks-woken : (now : ℕ) (s : Scheduler) → (task_wakeup_sleeping now s).tasks ≡ woken now s
unfolding task_wakeup_sleeping
tasks-woken now s = refl

-- The search of `task_pick_next_locked`.
abbrev pub picked : ℕ → Scheduler → Option ℕ
picked now s =
    let start = pick_start (task_wakeup_sleeping now s) in
    pick_loop (length s.tasks) (task_wakeup_sleeping now s).tasks start start

pick_next-empty : (now : ℕ) (s : Scheduler) → length s.tasks ≡ 0 → task_pick_next now s ≡ (none, s)
unfolding task_pick_next
pick_next-empty now s e = ground arith

pick_next-none :
    (now : ℕ) (s : Scheduler)
    → 0 < length s.tasks
    → picked now s ≡ none
    → task_pick_next now s ≡ (none, task_wakeup_sleeping now s)
unfolding task_pick_next
pick_next-none now s h e = ground arith

pick_next-some :
    (now : ℕ) (s : Scheduler) (i : ℕ)
    → 0 < length s.tasks
    → picked now s ≡ some i
    → task_pick_next now s
      ≡ (some i, let s' = task_wakeup_sleeping now s in record s' { cursor = some i })
unfolding task_pick_next
pick_next-some now s i h e = ground arith

module _ (now : ℕ) (s : Scheduler) where
  outcome :
      0 < length s.tasks
      → (o : Option ℕ) → picked now s ≡ o
      → IsPick (woken now s) (pick_start (task_wakeup_sleeping now s)) o
      → Picks now s (task_pick_next now s)
  unfolding task_wakeup_sleeping
  outcome h none e free =
      let len = length-map (wake_sleeping now) s.tasks in
      let inside = pick_start-lt (task_wakeup_sleeping now s) (omega arith) in
      rw (pick_next-none now s h e) (
        refl,
        λ i below.
            let (j, p, q) = position-round (woken now s) _ inside i (omega arith) in
            rw (← q) (free j p),
      )
  outcome h (some i) e (k, below, at, here, before) =
      let len = length-map (wake_sleeping now) s.tasks in
      rw (pick_next-some now s i h e)
        (refl, omega arith, (_, pick_start-IsBehind now s, (k, below, at, here, before)))

  picked-IsPick :
      0 < length s.tasks
      → IsPick (woken now s) (pick_start (task_wakeup_sleeping now s)) (picked now s)
  unfolding task_wakeup_sleeping
  picked-IsPick h =
      let len = length-map (wake_sleeping now) s.tasks in
      let start = pick_start (task_wakeup_sleeping now s) in
      let inside = pick_start-lt (task_wakeup_sleeping now s) (omega arith) in
      subst (λ n. IsPick (woken now s) start (pick_loop n (woken now s) start start)) len
        (whole_round-IsPick (woken now s) start (omega arith))

  pub task_pick_next-Picks : Picks now s (task_pick_next now s)
  task_pick_next-Picks = elim (dec_lt 0 (length s.tasks)) [
    | yes p ↦ outcome p (picked now s) refl (picked-IsPick p)
    | no p ↦
        rw (pick_next-empty now s (omega arith))
          (empty_woken now s.tasks (omega arith), λ i below. absurd (omega arith))
  ]
