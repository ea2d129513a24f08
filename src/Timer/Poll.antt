-- ===== src/Timer/Poll.antt =====
-- kernel/timer.c: timer_poll against the slots of the table and the items of the work queue.
use mathlib.Core.List.{append_assoc, append-nil}
use my_os.Prelude.{
  ℕ, zero, suc, ◌-◌, ◌≤◌, ◌<◌, ◌≡◌, refl, sym, ap, ◌∙◌, ◌≢◌, inl, inr, Bool, true, false, List, [],
  ◌∷◌, ◌++◌, map, arith, add64, if◌then◌else◌, Bool-cases, length, length-append, get_or, take, All,
}
use my_os.Workqueue.{Workqueue, WorkItem, workqueue_schedule}
use my_os.Workqueue.Queue.{
  IsValid, contents, Schedules, workqueue_schedule-Schedules, workqueue_schedule-IsValid,
}
use my_os.Timer.{
  Timer, TimerItem, DueWork, clear_item, is_due, collect_due, schedule_due, count_works, timer_poll,
}

abbrev pub call_of : WorkItem → ℕ × ℕ
call_of item = (item.func, item.arg)

-- The calls that wait in the work queue, and those of the items that are due.
abbrev pub queued_calls : Workqueue → List (ℕ × ℕ)
queued_calls q = map call_of (contents q)

abbrev pub due_calls : ℕ → List TimerItem → List (ℕ × ℕ)
due_calls now [] = []
due_calls now (item ∷ rest) =
    if is_due now item then (item.func, item.arg) ∷ due_calls now rest else due_calls now rest

abbrev work_calls : List DueWork → List (ℕ × ℕ)
work_calls [] = []
work_calls (work ∷ works) = (work.func, work.arg) ∷ work_calls works

-- No active item has a null function.
abbrev pub Callable : TimerItem → Type 0
Callable item = item.active ≡ true → item.func ≢ 0

collect-calls :
    (now : ℕ) (items : List TimerItem) → work_calls (collect_due now items).0 ≡ due_calls now items
unfolding collect_due
collect-calls now [] = refl
collect-calls now (item ∷ rest) = ground (arith, collect-calls now rest)

collect-Callable :
    (now : ℕ) (items : List TimerItem)
    → All Callable items
    → All (λ (work : DueWork). work.func ≢ 0) (collect_due now items).0
unfolding collect_due
collect-Callable now [] h = tt
collect-Callable now (item ∷ rest) h =
    let later = collect-Callable now rest h.1 in
    elim (Bool-cases (is_due now item)) [
      | inl due ↦ rw due (h.0 (ground arith), later)
      | inr early ↦ rw early later
    ]

pub collect-slot :
    (now : ℕ) (items : List TimerItem) (i : ℕ)
    → get_or (collect_due now items).1 i clear_item
      ≡ (let item = get_or items i clear_item in if is_due now item then clear_item else item)
unfolding collect_due
collect-slot now [] i = refl
collect-slot now (item ∷ rest) zero = ground arith
collect-slot now (item ∷ rest) (suc i) = ground (arith, collect-slot now rest i)

count-calls : (works : List DueWork) → count_works works ≡ length (work_calls works)
count-calls [] = refl
count-calls (work ∷ works) = ap suc (count-calls works)

take-more {ℓ} :
    {A : Type ℓ} (n : ℕ) (x : A) (xs : List A) → 0 < n → take n (x ∷ xs) ≡ x ∷ take (n - 1) xs
take-more zero x xs h = absurd (omega arith)
take-more (suc n) x xs h = let e : suc n - 1 ≡ n = omega arith in rw e refl

calls-++ : (xs ys : List WorkItem) → map call_of (xs ++ ys) ≡ map call_of xs ++ map call_of ys
calls-++ [] ys = refl
calls-++ (x ∷ xs) ys = ap (λ l. (x.func, x.arg) ∷ l) (calls-++ xs ys)

length-calls : (xs : List WorkItem) → length (map call_of xs) ≡ length xs
length-calls [] = refl
length-calls (x ∷ xs) = ap suc (length-calls xs)

-- One work of the second loop: it goes behind the others if there is room.
added :
    (q q' : Workqueue) (func arg : ℕ)
    → Schedules q func arg (true, q')
    → func ≢ 0
    → (queued_calls q' ≡ queued_calls q ++ ((func, arg) ∷ [])) × (length (queued_calls q) < 64)
added q q' func arg s n =
    let size = length-calls (contents q) in
    let item : WorkItem = record { func = func; arg = arg; seq = q.next_seq } in
    let grown : (contents q' ≡ contents q ++ (item ∷ [])) × (length (contents q) < 64) =
      ground arith in
    (ap (map call_of) grown.0 ∙ calls-++ (contents q) (item ∷ []), omega arith)

refused :
    (q q' : Workqueue) (func arg : ℕ)
    → Schedules q func arg (false, q')
    → func ≢ 0
    → (queued_calls q' ≡ queued_calls q) × (64 ≤ length (queued_calls q))
refused q q' func arg s n =
    let size = length-calls (contents q) in
    let same : (contents q' ≡ contents q) × (64 ≤ length (contents q)) = ground arith in
    (ap (map call_of) same.0, omega arith)

pub take-none {ℓ} : {A : Type ℓ} (n : ℕ) → take {A = A} n [] ≡ []
take-none zero = refl
take-none (suc n) = refl

abbrev Gives : Workqueue → List DueWork → Workqueue → Type 0
Gives q works q' =
    IsValid q'
    × (queued_calls q' ≡ queued_calls q ++ take (64 - length (queued_calls q)) (work_calls works))

schedule_due-Gives :
    (works : List DueWork) (a b : ℕ) (q : Workqueue)
    → IsValid q
    → All (λ (work : DueWork). work.func ≢ 0) works
    → Gives q works (schedule_due works a b q).2
unfolding schedule_due
schedule_due-Gives [] a b q v h = (
  v,
  sym (
      ap (λ l. queued_calls q ++ l) (take-none {A = ℕ × ℕ} (64 - length (queued_calls q)))
      ∙ append-nil (queued_calls q)),
)
schedule_due-Gives (work ∷ works) a b q v h =
    step (workqueue_schedule q work.func work.arg) (workqueue_schedule-IsValid v work.func work.arg)
      (workqueue_schedule-Schedules v work.func work.arg)
      (λ c d u. schedule_due-Gives works c d (workqueue_schedule q work.func work.arg).1 u h.1)
  where
    step :
        (r : Bool × Workqueue)
        → IsValid r.1
        → Schedules q work.func work.arg r
        → ((c d : ℕ) → IsValid r.1 → Gives r.1 works (schedule_due works c d r.1).2)
        → Gives q
            (work ∷ works)
            (elim r.0 as (λ _. ℕ × ℕ × Workqueue) [
              | true ↦ schedule_due works (add64 a 1) b r.1
              | false ↦ schedule_due works a (add64 b 1) r.1
            ]).2
    step (true, q') u s ih =
        let (grown, room) = added q q' work.func work.arg s h.0 in
        let size = length-append (queued_calls q) ((work.func, work.arg) ∷ []) in
        let left : 64 - length (queued_calls q ++ ((work.func, work.arg) ∷ []))
            ≡ 64 - length (queued_calls q) - 1 =
          omega arith in
        let (valid, rest) = ih (add64 a 1) b u in
        (
          valid,
          rest
              ∙ ap (λ l. l ++ take (64 - length l) (work_calls works)) grown
              ∙ append_assoc (queued_calls q) ((work.func, work.arg) ∷ []) (
                  take (64 - length (queued_calls q ++ ((work.func, work.arg) ∷ [])))
                    (work_calls works))
              ∙ ap (λ n. queued_calls q ++ ((work.func, work.arg) ∷ take n (work_calls works))) left
              ∙ ap (λ l. queued_calls q ++ l)
                  (sym (
                    take-more (64 - length (queued_calls q)) (work.func, work.arg)
                      (work_calls works) (omega arith))),
        )
    step (false, q') u s ih =
        let (same, full) = refused q q' work.func work.arg s h.0 in
        let none_left : 64 - length (queued_calls q) ≡ 0 = omega arith in
        let (valid, rest) = ih a (add64 b 1) u in
        (
          valid,
          rest
              ∙ ap (λ l. l ++ take (64 - length l) (work_calls works)) same
              ∙ ap (λ n. queued_calls q ++ take n (work_calls works)) none_left
              ∙ ap (λ n. queued_calls q ++ take n ((work.func, work.arg) ∷ work_calls works))
                  (sym none_left),
        )

pub polled_items :
    (now : ℕ) (t : Timer) (q : Workqueue)
    → (timer_poll now (t, q)).1.items ≡ (collect_due now t.items).1
unfolding timer_poll
polled_items now t q = ground arith

-- On a valid work queue, when no active item has a null function, `timer_poll` hands the calls
-- that are due to the work queue, each once and in the order of the slots, as far as its 64 places
-- last; it returns how many were due, clears the slots of these and no others, and keeps the work
-- queue valid.
pub timer_poll-due :
    (now : ℕ) (t : Timer) (q : Workqueue)
    → IsValid q
    → All Callable t.items
    → let (count, t', q') = timer_poll now (t, q) in
      (count ≡ length (due_calls now t.items))
      × IsValid q'
      × (queued_calls q'
          ≡ queued_calls q ++ take (64 - length (queued_calls q)) (due_calls now t.items))
      × ((i : ℕ)
          → get_or t'.items i clear_item ≡ (
              let item = get_or t.items i clear_item in
              if is_due now item then clear_item else item))
unfolding timer_poll
timer_poll-due now t q v h =
    let same = collect-calls now t.items in
    let (valid, queued) =
      schedule_due-Gives (collect_due now t.items).0 0 0 q v (collect-Callable now t.items h) in
    (
      count-calls (collect_due now t.items).0 ∙ ap length same,
      valid,
      queued ∙ ap (λ l. queued_calls q ++ take (64 - length (queued_calls q)) l) same,
      λ i. ap (λ l. get_or l i clear_item) (polled_items now t q) ∙ collect-slot now t.items i,
    )
