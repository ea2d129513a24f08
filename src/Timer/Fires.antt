-- ===== src/Timer/Fires.antt =====
-- kernel/timer.c: an item of the table over several polls.
use my_os.Prelude.{
  ℕ, zero, suc, ◌+◌, ◌-◌, ◌≤◌, ◌<◌, ◌≡◌, refl, sym, ap, ◌∙◌, inl, inr, true, List, [], ◌∷◌, ◌++◌,
  arith, if◌then◌else◌, Bool-cases, subst, length, get_or, take, All, Any,
}
use my_os.Workqueue.{Workqueue}
use my_os.Workqueue.Queue.{IsValid}
use my_os.Timer.{Timer, TimerItem, clear_item, is_due, collect_due, timer_poll}
use my_os.Timer.Poll.{
  Callable, queued_calls, due_calls, collect-slot, polled_items, timer_poll-due, take-none,
}

-- Polls at the given ticks, one after the other, each with the work queue as it is by then.
unfoldable pub poll_all : List (ℕ × Workqueue) → Timer → Timer
poll_all [] t = t
poll_all ((now, q) ∷ polls) t = poll_all polls (timer_poll now (t, q)).1

polled_slot :
    (now : ℕ) (t : Timer) (q : Workqueue) (i : ℕ)
    → now < (get_or t.items i clear_item).due_tick
    → get_or (timer_poll now (t, q)).1.items i clear_item ≡ get_or t.items i clear_item
polled_slot now t q i early =
    ap (λ l. get_or l i clear_item) (polled_items now t q)
    ∙ collect-slot now t.items i
    ∙ ground arith

poll_all-waits :
    (polls : List (ℕ × Workqueue)) (t : Timer) (i : ℕ)
    → All (λ (poll : ℕ × Workqueue). poll.0 < (get_or t.items i clear_item).due_tick) polls
    → get_or (poll_all polls t).items i clear_item ≡ get_or t.items i clear_item
unfolding poll_all
poll_all-waits [] t i h = refl
poll_all-waits ((now, q) ∷ polls) t i h =
    let same = polled_slot now t q i h.0 in
    poll_all-waits polls (timer_poll now (t, q)).1 i (
      subst (λ (item : TimerItem). All (λ (poll : ℕ × Workqueue). poll.0 < item.due_tick) polls)
        (sym same) h.1)
    ∙ same

collect_rest-Callable :
    (now : ℕ) (items : List TimerItem) → All Callable items → All Callable (collect_due now items).1
unfolding collect_due
collect_rest-Callable now [] h = tt
collect_rest-Callable now (item ∷ rest) h =
    let later = collect_rest-Callable now rest h.1 in
    elim (Bool-cases (is_due now item)) [
      | inl due ↦ rw due ((λ e. absurd (cc)), later)
      | inr early ↦ rw early (h.0, later)
    ]

poll_all-Callable :
    (polls : List (ℕ × Workqueue)) (t : Timer)
    → All Callable t.items
    → All Callable (poll_all polls t).items
unfolding poll_all
poll_all-Callable [] t h = h
poll_all-Callable ((now, q) ∷ polls) t h =
    poll_all-Callable polls (timer_poll now (t, q)).1
      (subst (All Callable) (sym (polled_items now t q)) (collect_rest-Callable now t.items h))

take-all {ℓ} : {A : Type ℓ} (n : ℕ) (xs : List A) → length xs ≤ n → take n xs ≡ xs
take-all n [] h = take-none n
take-all zero (x ∷ xs) h = absurd (omega arith)
take-all (suc n) (x ∷ xs) h = ap (λ l. x ∷ l) (take-all n xs (omega arith))

Any-++ {ℓ κ} : {A : Type ℓ} (P : A → Type κ) (xs ys : List A) → Any P ys → Any P (xs ++ ys)
Any-++ P [] ys h = h
Any-++ P (x ∷ xs) ys h = inr (Any-++ P xs ys h)

-- Where there is room for all that is due, what is due is queued.
queued-Any {κ} :
    (now : ℕ) (t : Timer) (q : Workqueue) (P : ℕ × ℕ → Type κ)
    → IsValid q
    → All Callable t.items
    → length (queued_calls q) + length (due_calls now t.items) ≤ 64
    → Any P (due_calls now t.items)
    → Any P (queued_calls (timer_poll now (t, q)).2)
queued-Any now t q P v h room there =
    let (count, valid, queued, slots) = timer_poll-due now t q v h in
    let all = take-all (64 - length (queued_calls q)) (due_calls now t.items) (omega arith) in
    subst (Any P) (sym (queued ∙ ap (λ l. queued_calls q ++ l) all))
      (Any-++ P (queued_calls q) (due_calls now t.items) there)

due-Any :
    (now : ℕ) (items : List TimerItem) (i : ℕ)
    → is_due now (get_or items i clear_item) ≡ true
    → Any
        (λ c. c ≡ ((get_or items i clear_item).func, (get_or items i clear_item).arg))
        (due_calls now items)
due-Any now [] i h = absurd (cc)
due-Any now (item ∷ rest) zero h = rw h (inl refl)
due-Any now (item ∷ rest) (suc i) h = elim (Bool-cases (is_due now item)) [
  | inl e ↦ rw e (inr (due-Any now rest i h))
  | inr e ↦ rw e (due-Any now rest i h)
]

-- When no active item has a null function, an active item is neither lost nor early: polls at ticks
-- in front of its due tick leave it in its slot, whatever the work queue is by then; and the first
-- poll at or after the due tick takes it out, and leaves its call in the work queue, if the work
-- queue is valid and has room for the calls that are due at this poll.
pub timer_item-fires :
    (polls : List (ℕ × Workqueue)) (now : ℕ) (t : Timer) (q : Workqueue) (i : ℕ)
    → let item = get_or t.items i clear_item in
      item.active ≡ true
      → All (λ (poll : ℕ × Workqueue). poll.0 < item.due_tick) polls
      → item.due_tick ≤ now
      → All Callable t.items
      → IsValid q
      → length (queued_calls q) + length (due_calls now (poll_all polls t).items) ≤ 64
      → let t' = poll_all polls t in
        (get_or t'.items i clear_item ≡ item)
        × Any (λ c. c ≡ (item.func, item.arg)) (queued_calls (timer_poll now (t', q)).2)
        × (get_or (timer_poll now (t', q)).1.items i clear_item ≡ clear_item)
timer_item-fires polls now t q i active early due callable valid room =
    let t' = poll_all polls t in
    let waits = poll_all-waits polls t i early in
    let ready : is_due now (get_or t'.items i clear_item) ≡ true =
      subst (λ (x : TimerItem). is_due now x ≡ true) (sym waits) (ground arith) in
    (
      waits,
      queued-Any now t' q _ valid (poll_all-Callable polls t callable) room (
          subst (λ (x : TimerItem). Any (λ c. c ≡ (x.func, x.arg)) (due_calls now t'.items)) waits
            (due-Any now t'.items i ready)),
      ap (λ l. get_or l i clear_item) (polled_items now t' q)
          ∙ collect-slot now t'.items i
          ∙ cleared now (get_or t'.items i clear_item) ready,
    )
  where
    cleared :
        (now : ℕ) (x : TimerItem)
        → is_due now x ≡ true
        → (if is_due now x then clear_item else x) ≡ clear_item
    cleared now x e = ground arith
