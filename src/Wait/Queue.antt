-- ===== src/Wait/Queue.antt =====
-- kernel/wait.c: blocking and waking one task against the list of the blocked tasks.
use my_os.Prelude.{
  ℕ, ◌<◌, ◌≡◌, refl, sym, subst, ap, ◌∙◌, ◌≢◌, Bool, true, false, List, [], ◌∷◌, ◌++◌, Option, none,
  some, arith, length, All, get_or-set_self,
}
use my_os.Task.{
  Task, Scheduler, TaskState, waiting, ready, no_task, task_at, task_wait_next, task_wait_set_next,
  task_set_waiting, task_set_ready,
}
use my_os.Wait.{WaitQueue, link_behind, enqueue, wait_queue_block, wait_queue_wake_one}
use my_os.Wait.Chain.{
  Chain, NotIn, Distinct, last, last-push, Chain-point, Chain-push, wait_next-set_next,
  wait_next-set_waiting, wait_next-set_ready, length-set_next, length-set_waiting, length-set_ready,
}

-- The queue holds the tasks at the positions `l`, the longest blocked first.
pub record Holds (q : WaitQueue) (s : Scheduler) (l : List ℕ) : Type 0 where
  pub chain : Chain (task_wait_next s) q.head l
  pub at_tail : q.tail ≡ last l
  pub known : All (λ i. i < length s.tasks) l
  pub distinct : Distinct l

NotIn-push : (i c : ℕ) (l : List ℕ) → i ≢ c → NotIn i l → NotIn i (l ++ (c ∷ []))
NotIn-push i c [] h out = (h, tt)
NotIn-push i c (j ∷ l) h out = (out.0, NotIn-push i c l h out.1)

Distinct-push : (c : ℕ) (l : List ℕ) → NotIn c l → Distinct l → Distinct (l ++ (c ∷ []))
Distinct-push c [] out d = (tt, tt)
Distinct-push c (i ∷ l) out d =
    (NotIn-push i c l (λ e. out.0 (sym e)) d.0, Distinct-push c l out.1 d.1)

known-push :
    (n m c : ℕ) (l : List ℕ) → n ≡ m → c < n → All (λ i. i < n) l → All (λ i. i < m) (l ++ (c ∷ []))
known-push n m c [] e h k = (omega arith, tt)
known-push n m c (i ∷ l) e h k = (omega arith, known-push n m c l e h k.1)

pub known-same : (n m : ℕ) (l : List ℕ) → n ≡ m → All (λ i. i < n) l → All (λ i. i < m) l
known-same n m [] e k = tt
known-same n m (i ∷ l) e k = (omega arith, known-same n m l e k.1)

link-empty :
    (q : WaitQueue) (s : Scheduler) (c : ℕ)
    → q.head ≡ none
    → link_behind q s c ≡ (record { head = some c; tail = some c }, s)
unfolding link_behind
link-empty q s c e = ground arith

link-behind :
    (q : WaitQueue) (s : Scheduler) (c h t : ℕ)
    → q.head ≡ some h
    → q.tail ≡ some t
    → link_behind q s c ≡ (record { head = some h; tail = some c }, task_wait_set_next s t (some c))
unfolding link_behind
link-behind q s c h t e f = ground arith

last-some : (i : ℕ) (l : List ℕ) → (t : ℕ) × (last (i ∷ l) ≡ some t)
last-some i [] = (i, refl)
last-some i (j ∷ l) = last-some j l

last-All {ℓ} : (P : ℕ → Type ℓ) (l : List ℕ) (t : ℕ) → last l ≡ some t → All P l → P t
last-All P [] t e h = absurd (none-ne e)
  where
    none-ne : Option.none ≡ some t → ⊥
    none-ne q = cc
last-All P (i ∷ []) t e h = let same : i ≡ t = ground arith in subst P same h.0
last-All P (i ∷ j ∷ l) t e h = last-All P (j ∷ l) t e h.1

module _ (q : WaitQueue) (s : Scheduler) (c : ℕ) (inside : c < length s.tasks) where
  -- The task with its link cleared.
  abbrev unlinked : Scheduler
  unlinked = task_wait_set_next s c none

  unlinked-Chain : (l : List ℕ) → NotIn c l → Holds q s l → Chain (task_wait_next unlinked) q.head l
  unlinked-Chain l out h =
      rw (wait_next-set_next s c inside none) (Chain-point _ c none q.head l out h.chain)

  unlinked-end : task_wait_next unlinked c ≡ none
  unlinked-end = rw (wait_next-set_next s c inside none) (ground arith)

  abbrev linked : WaitQueue × Scheduler
  linked = link_behind q unlinked c

  linked-Holds :
      (l : List ℕ)
      → NotIn c l
      → Holds q s l
      → Holds linked.0 linked.1 (l ++ (c ∷ [])) × (length linked.1.tasks ≡ length s.tasks)
  linked-Holds [] out h =
      let e = link-empty q unlinked c h.chain in
      let len = length-set_next s c none in
      rw e (
        record {
          chain = (refl, unlinked-end);
          at_tail = refl;
          known = (omega arith, tt);
          distinct = (tt, tt);
        },
        len,
      )
  linked-Holds (i ∷ l) out h =
      let (t, end) = last-some i l in
      let e = link-behind q unlinked c i t h.chain.0 (h.at_tail ∙ end) in
      let len = length-set_next s c none in
      let len' = length-set_next unlinked t (some c) in
      let known_end = last-All (λ j. j < length s.tasks) (i ∷ l) t end h.known in
      let known_end' : t < length unlinked.tasks = omega arith in
      let chain = unlinked-Chain (i ∷ l) out h in
      let push =
        Chain-push (task_wait_next unlinked) t i c l end h.distinct out unlinked-end
          (refl, chain.1) in
      rw e (
        record {
          chain =
              subst (λ f. Chain f (some i) (i ∷ l ++ (c ∷ [])))
                (sym (wait_next-set_next unlinked t known_end' (some c))) push;
          at_tail = sym (last-push (i ∷ l) c);
          known = known-push _ _ c (i ∷ l) (omega arith) inside h.known;
          distinct = Distinct-push c (i ∷ l) out h.distinct;
        },
        omega arith,
      )

  pub enqueue-Holds :
      (l : List ℕ)
      → NotIn c l
      → Holds q s l
      → Holds (enqueue q s c).0 (enqueue q s c).1 (l ++ (c ∷ []))
        × ((task_at (enqueue q s c).1 c).state ≡ waiting)
  unfolding enqueue
  enqueue-Holds l out h =
      let (held, len) = linked-Holds l out h in
      let here : c < length linked.1.tasks = omega arith in
      let len' = length-set_waiting linked.1 c in
      (
        record {
          chain =
              subst (λ f. Chain f linked.0.head (l ++ (c ∷ [])))
                (sym (wait_next-set_waiting linked.1 c here)) held.chain;
          at_tail = held.at_tail;
          known = known-same _ _ (l ++ (c ∷ [])) (sym len') held.known;
          distinct = held.distinct;
        },
        waiting_now linked.1 here,
      )
    where
      waiting_now :
          (t : Scheduler) → c < length t.tasks → (task_at (task_set_waiting t c) c).state ≡ waiting
      waiting_now t p =
          unfold task_set_waiting in
          (let u = task_at t c in
            ap (λ (x : Task). x.state)
              (get_or-set_self t.tasks c (record u { state = waiting }) no_task p))

-- Where the queue holds the tasks `l`, blocking the current task, if it is in the task list and not
-- in the queue yet, puts it behind all others and leaves
-- it waiting.
pub wait_queue_block-Holds :
    (q : WaitQueue) (s : Scheduler) (c : ℕ) (l : List ℕ)
    → s.current ≡ some c
    → c < length s.tasks
    → NotIn c l
    → Holds q s l
    → Holds (wait_queue_block q s).0 (wait_queue_block q s).1 (l ++ (c ∷ []))
      × ((task_at (wait_queue_block q s).1 c).state ≡ waiting)
wait_queue_block-Holds q s c l cur inside out h =
    rw (blocks cur) (enqueue-Holds q s c inside l out h)
  where
    blocks : s.current ≡ some c → wait_queue_block q s ≡ enqueue q s c
    blocks e = unfold wait_queue_block in ground arith

-- What waking does to the state of a task: a waiting one is ready.
abbrev pub roused : TaskState → TaskState
roused waiting = ready
roused st = st

-- One task woken: its link is cleared, and it is ready if it was waiting.
abbrev pub wake_task : Scheduler → ℕ → Scheduler
wake_task s i = task_set_ready (task_wait_set_next s i none) i

module _ (s : Scheduler) (i : ℕ) (l : List ℕ) (inside : i < length s.tasks) where
  pub wake-Chain :
      (h : Option ℕ)
      → NotIn i l
      → Chain (task_wait_next s) h l
      → Chain (task_wait_next (wake_task s i)) h l
  wake-Chain h out ch =
      let len = length-set_next s i none in
      subst (λ f. Chain f h l)
        (sym (
          wait_next-set_ready (task_wait_set_next s i none) i (omega arith)
          ∙ wait_next-set_next s i inside none))
        (Chain-point (task_wait_next s) i none h l out ch)

  pub wake-length : length (wake_task s i).tasks ≡ length s.tasks
  wake-length =
      omega (arith, length-set_next s i none, length-set_ready (task_wait_set_next s i none) i)

set_ready-state :
    (s : Scheduler) (i : ℕ)
    → i < length s.tasks
    → (task_at (task_set_ready s i) i).state ≡ roused (task_at s i).state
unfolding task_set_ready
set_ready-state s i inside =
    let t = task_at s i in
    ground (arith, get_or-set_self s.tasks i (record t { state = ready }) no_task inside)

set_next-state :
    (s : Scheduler) (i : ℕ) (n : Option ℕ)
    → i < length s.tasks
    → (task_at (task_wait_set_next s i n) i).state ≡ (task_at s i).state
unfolding task_wait_set_next
set_next-state s i n inside =
    let t = task_at s i in
    ap (λ (x : Task). x.state)
      (get_or-set_self s.tasks i (record t { wait_next = n }) no_task inside)

pub wake-state :
    (s : Scheduler) (i : ℕ)
    → i < length s.tasks
    → (task_at (wake_task s i) i).state ≡ roused (task_at s i).state
wake-state s i inside =
    let len = length-set_next s i none in
    set_ready-state (task_wait_set_next s i none) i (omega arith)
    ∙ ap roused (set_next-state s i none inside)

wake_one-none :
    (q : WaitQueue) (s : Scheduler) → q.head ≡ none → wait_queue_wake_one q s ≡ (false, q, s)
unfolding wait_queue_wake_one
wake_one-none q s e = ground arith

-- The tail after its head is taken.
abbrev rest_tail : WaitQueue → Option ℕ → Option ℕ
rest_tail q n = elim n [ none ↦ none | some _ ↦ q.tail ]

wake_one-some :
    (q : WaitQueue) (s : Scheduler) (i : ℕ)
    → q.head ≡ some i
    → wait_queue_wake_one q s ≡ (
      true,
      record { head = task_wait_next s i; tail = rest_tail q (task_wait_next s i) },
      wake_task s i,
    )
unfolding wait_queue_wake_one
wake_one-some q s i e = ground arith

-- Waking one task of a queue: the empty queue stays, with result 0; otherwise the task that was
-- blocked longest leaves the queue, is ready if it was waiting, and the result is 1.
abbrev pub WakesOne : WaitQueue → Scheduler → List ℕ → Bool × WaitQueue × Scheduler → Type 0
WakesOne q s [] (woke, q', s') = (woke ≡ false) × (q' ≡ q) × (s' ≡ s)
WakesOne q s (i ∷ l) (woke, q', s') =
    (woke ≡ true) × Holds q' s' l × ((task_at s' i).state ≡ roused (task_at s i).state)

-- Where the queue holds the tasks `l`, waking one does nothing if there is none, and otherwise
-- takes the task that blocked first out of the queue and makes it ready if it was waiting.
pub wait_queue_wake_one-WakesOne :
    (q : WaitQueue) (s : Scheduler) (l : List ℕ)
    → Holds q s l
    → WakesOne q s l (wait_queue_wake_one q s)
wait_queue_wake_one-WakesOne q s [] h = rw (wake_one-none q s h.chain) (refl, refl, refl)
wait_queue_wake_one-WakesOne q s (i ∷ l) h = rw (wake_one-some q s i h.chain.0) (
  refl,
  record {
    chain = wake-Chain s i l h.known.0 (task_wait_next s i) h.distinct.0 h.chain.1;
    at_tail = tail_after l h.chain.1 h.at_tail;
    known = known-same _ _ l (sym (wake-length s i l h.known.0)) h.known.1;
    distinct = h.distinct.1;
  },
  wake-state s i h.known.0,
)
  where
    tail_after :
        (l : List ℕ)
        → Chain (task_wait_next s) (task_wait_next s i) l
        → q.tail ≡ last (i ∷ l)
        → rest_tail q (task_wait_next s i) ≡ last l
    tail_after [] ch e = rw ch
    tail_after (j ∷ l) ch e = rw ch.0 e
