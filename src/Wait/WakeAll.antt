-- ===== src/Wait/WakeAll.antt =====
-- kernel/wait.c: wait_queue_wake_all against the list of the blocked tasks.
use my_os.Prelude.{
  ℕ, zero, suc, ◌+◌, ◌<◌, ◌≡◌, refl, sym, ap, ◌∙◌, ◌≢◌, List, [], ◌∷◌, Option, none, some, arith,
  length, All, get_or-set_ne, u32_mod, add32, inl, inr, Bool-cases,
}
use my_os.Task.{
  Task, Scheduler, no_task, task_at, is_waiting, task_wait_next, task_wait_set_next, task_set_ready,
  ready,
}
use my_os.Wait.{WaitQueue, wait_queue_init, wake_loop, wait_queue_wake_all}
use my_os.Wait.Chain.{Chain, NotIn, Distinct}
use my_os.Wait.Queue.{Holds, roused, wake_task, wake-Chain, wake-length, known-same, wake-state}

-- The tasks of a list woken one after another.
pub wake_each : Scheduler → List ℕ → Scheduler
wake_each s [] = s
wake_each s (i ∷ l) = wake_each (wake_task s i) l

wake_loop-wake_each :
    (l : List ℕ) (fuel : ℕ) (s : Scheduler) (h : Option ℕ) (woke : ℕ)
    → length l < fuel
    → woke + length l < u32_mod
    → Chain (task_wait_next s) h l
    → All (λ i. i < length s.tasks) l
    → Distinct l
    → wake_loop fuel s h woke ≡ some (woke + length l, wake_each s l)
unfolding wake_loop wake_each
wake_loop-wake_each l zero s h woke enough small ch known d = absurd (omega arith)
wake_loop-wake_each [] (suc fuel) s h woke enough small ch known d =
    rw (ch, wake_loop) (ap (λ n. some (n, s)) (omega arith))
wake_loop-wake_each (i ∷ l) (suc fuel) s h woke enough small ch known d =
    let rest =
      wake_loop-wake_each l fuel (wake_task s i) (task_wait_next s i) (add32 woke 1) (omega arith)
        (omega arith) (wake-Chain s i l known.0 (task_wait_next s i) d.0 ch.1)
        (known-same _ _ l (sym (wake-length s i l known.0)) known.1) d.1 in
    rw (ch.0, wake_loop) (rest ∙ ap (λ n. some (n, wake_each (wake_task s i) l)) (omega arith))

-- Waking one task leaves the state of every other.
wake-other :
    (s : Scheduler) (i j : ℕ) → i ≢ j → (task_at (wake_task s i) j).state ≡ (task_at s j).state
unfolding task_set_ready task_wait_set_next
wake-other s i j h =
    let linked = task_wait_set_next s i none in
    let t = task_at s i in
    let u = task_at linked i in
    let first = get_or-set_ne s.tasks i j (record t { wait_next = none }) no_task h in
    let second = get_or-set_ne linked.tasks i j (record u { state = ready }) no_task h in
    elim (Bool-cases (is_waiting u.state)) [
      | inl e ↦ rw e (ap (λ (x : Task). x.state) (second ∙ first))
      | inr e ↦ rw e (ap (λ (x : Task). x.state) first)
    ]

wake_each-other :
    (l : List ℕ) (s : Scheduler) (j : ℕ)
    → NotIn j l
    → (task_at (wake_each s l) j).state ≡ (task_at s j).state
unfolding wake_each
wake_each-other [] s j out = refl
wake_each-other (i ∷ l) s j out =
    wake_each-other l (wake_task s i) j out.1 ∙ wake-other s i j (λ e. out.0 (sym e))

-- Every task of the list is ready after it, if it was waiting before.
abbrev pub AllRoused : Scheduler → Scheduler → List ℕ → Type 0
AllRoused s s' l = All (λ j. (task_at s' j).state ≡ roused (task_at s j).state) l

through_wake :
    (s s' : Scheduler) (i : ℕ) (l : List ℕ)
    → NotIn i l
    → AllRoused (wake_task s i) s' l
    → AllRoused s s' l
through_wake s s' i [] out h = tt
through_wake s s' i (j ∷ l) out h =
    (h.0 ∙ ap roused (wake-other s i j out.0), through_wake s s' i l out.1 h.1)

wake_each-AllRoused :
    (l : List ℕ) (s : Scheduler)
    → All (λ i. i < length s.tasks) l
    → Distinct l
    → AllRoused s (wake_each s l) l
unfolding wake_each
wake_each-AllRoused [] s known d = tt
wake_each-AllRoused (i ∷ l) s known d =
    let known' = known-same _ _ l (sym (wake-length s i l known.0)) known.1 in
    (
      wake_each-other l (wake_task s i) i d.0 ∙ wake-state s i known.0,
      through_wake s (wake_each (wake_task s i) l) i l d.0
          (wake_each-AllRoused l (wake_task s i) known' d.1),
    )

-- With fuel for every task of the queue, which are fewer than 2 ^ 32, waking all ends: it empties
-- the queue and returns how many tasks it woke, each of which is ready if it was waiting, while
-- every other task keeps its state.
pub wait_queue_wake_all-AllRoused :
    (q : WaitQueue) (s : Scheduler) (l : List ℕ) (fuel : ℕ)
    → length l < fuel
    → length l < u32_mod
    → Holds q s l
    → (s' : Scheduler) × (wait_queue_wake_all fuel q s ≡ some (length l, wait_queue_init, s'))
      × AllRoused s s' l
      × ((j : ℕ) → NotIn j l → (task_at s' j).state ≡ (task_at s j).state)
unfolding wait_queue_wake_all
wait_queue_wake_all-AllRoused q s l fuel enough small h =
    let loop =
      wake_loop-wake_each l fuel s q.head 0 enough (omega arith) h.chain h.known h.distinct in
    (
      wake_each s l,
      rw (loop, wait_queue_wake_all)
          (ap (λ n. some (n, wait_queue_init, wake_each s l)) (omega arith)),
      wake_each-AllRoused l s h.known h.distinct,
      wake_each-other l s,
    )
