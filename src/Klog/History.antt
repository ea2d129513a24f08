-- ===== src/Klog/History.antt =====
-- kernel/klog.c: klog_dump against the history of klog_write_char.
use mathlib.Core.List.{append_assoc, append-nil}
use my_os.Prelude.{
  ℕ, zero, suc, ◌+◌, ◌-◌, ◌%◌, ◌≤◌, ◌<◌, ◌≡◌, refl, sym, ap, ◌∙◌, ◌⊎◌, inl, inr, true, List, [],
  ◌∷◌, ◌++◌, arith, ltb, Bool-cases, ltb→lt, ltb-false, length, set, length-set, length-append,
  drop, drop-append, drop-drop, length-drop,
}
use my_os.Prelude.Window.{window, length-window, window-push, window-rotate}
use my_os.Klog.{
  Klog, klog_buffer_size, klog_next_index, klog_init, klog_write_char, dump_loop, dump_start,
  klog_dump,
}

-- A ring that is not full starts at index 0.
pub record IsValid (k : Klog) : Type 0 where
  pub sized : length k.buffer ≡ klog_buffer_size
  pub head_in : k.head < klog_buffer_size
  pub count_in : k.count ≤ klog_buffer_size
  pub shape : (k.count ≡ klog_buffer_size) ⊎ (k.head ≡ k.count)
  pub ready : k.initialized ≡ true

-- The characters from the oldest to the newest.
pub contents : Klog → List ℕ
contents k = window klog_buffer_size 0 k.buffer (dump_start k) k.count

dump_loop-window :
    (buffer : List ℕ) (n index : ℕ)
    → index < klog_buffer_size
    → dump_loop buffer n index ≡ window klog_buffer_size 0 buffer index n
unfolding dump_loop
dump_loop-window buffer zero index h = refl
dump_loop-window buffer (suc n) index h =
    let next : klog_next_index index ≡ (index + 1) % klog_buffer_size = omega arith in
    rw (dump_loop-window buffer n (klog_next_index index) (omega arith), next)

-- A dump shows the contents.
pub klog_dump-contents : (k : Klog) → IsValid k → klog_dump k ≡ contents k
unfolding klog_dump contents
klog_dump-contents k v =
    rw v.ready (dump_loop-window k.buffer k.count (dump_start k) (ground arith))

length-contents : (k : Klog) → length (contents k) ≡ k.count
unfolding contents
length-contents k = length-window klog_buffer_size 0 k.buffer (dump_start k) k.count

klog_write_char-IsValid : (k : Klog) (c : ℕ) → IsValid k → IsValid (klog_write_char k c)
unfolding klog_write_char
klog_write_char-IsValid k c v = ground (arith, length-set k.buffer k.head c)

-- The end of a list that fits in the buffer.
pub last_of : List ℕ → List ℕ
last_of l = drop (length l - klog_buffer_size) l

module _ (k : Klog) (c : ℕ) (v : IsValid k) where
  -- The state after a write, while the count is `n`.
  abbrev written : ℕ → Klog
  written n = record k {
    buffer = set k.buffer k.head c;
    head = (k.head + 1) % klog_buffer_size;
    count = n;
  }

  write_room-written : k.count < klog_buffer_size → klog_write_char k c ≡ written (suc k.count)
  unfolding klog_write_char
  write_room-written room = ground (arith, v.ready)

  write_full-written : k.count ≡ klog_buffer_size → klog_write_char k c ≡ written k.count
  unfolding klog_write_char
  write_full-written full = ground (arith, v.ready)

  write_room : k.count < klog_buffer_size → contents (klog_write_char k c) ≡ contents k ++ (c ∷ [])
  unfolding contents
  write_room room =
      let push =
        window-push klog_buffer_size 0 k.buffer c 0 k.count k.head (omega arith) (omega arith) room
          (ground arith) in
      let after : dump_start (written (suc k.count)) ≡ 0 = ground arith in
      let before : dump_start k ≡ 0 = ground arith in
      ap contents (write_room-written room)
      ∙ ap (λ h. window klog_buffer_size 0 (set k.buffer k.head c) h (suc k.count)) after
      ∙ push
      ∙ ap (λ h. window klog_buffer_size 0 k.buffer h k.count ++ (c ∷ [])) (sym before)

  write_full :
      k.count ≡ klog_buffer_size → contents (klog_write_char k c) ≡ drop 1 (contents k) ++ (c ∷ [])
  unfolding contents
  write_full full =
      let rotate =
        window-rotate klog_buffer_size 0 k.buffer c k.head (k.count - 1) (omega arith) (omega arith)
          (omega arith) in
      let size : k.count ≡ suc (k.count - 1) = omega arith in
      let after : dump_start (written k.count) ≡ (k.head + 1) % klog_buffer_size = ground arith in
      let before : dump_start k ≡ k.head = ground arith in
      ap contents (write_full-written full)
      ∙ ap (λ h. window klog_buffer_size 0 (set k.buffer k.head c) h k.count) after
      ∙ ap (window klog_buffer_size 0 (set k.buffer k.head c) ((k.head + 1) % klog_buffer_size))
          size
      ∙ rotate
      ∙ ap (λ n. drop 1 (window klog_buffer_size 0 k.buffer k.head n) ++ (c ∷ [])) (sym size)
      ∙ ap (λ h. drop 1 (window klog_buffer_size 0 k.buffer h k.count) ++ (c ∷ [])) (sym before)

  -- A write adds the character and keeps the last 8192.
  write-contents :
      (history : List ℕ)
      → contents k ≡ last_of history
      → contents (klog_write_char k c) ≡ last_of (history ++ (c ∷ []))
  unfolding last_of
  write-contents history e =
      let size = length-contents k in
      let kept = length-drop (length history - klog_buffer_size) history in
      let len = ap length e in
      let longer = length-append history (c ∷ []) in
      elim (Bool-cases (ltb k.count klog_buffer_size)) [
        | inl room ↦
            let few : k.count < klog_buffer_size = ltb→lt _ _ room in
            write_room few
            ∙ ap (λ l. l ++ (c ∷ [])) e
            ∙ sym (drop-append over history (c ∷ []) (omega arith))
            ∙ ap (λ n. drop n (history ++ c ∷ [])) (omega arith)
        | inr full ↦
            let many : k.count ≡ klog_buffer_size = omega (arith, ltb-false _ _ full, v.count_in) in
            write_full many
            ∙ ap (λ l. drop 1 l ++ (c ∷ [])) e
            ∙ ap (λ l. l ++ (c ∷ [])) (drop-drop 1 over history)
            ∙ sym (drop-append (over + 1) history (c ∷ []) (omega arith))
            ∙ ap (λ n. drop n (history ++ c ∷ [])) (omega arith)
      ]
    where
      over : ℕ
      over = length history - klog_buffer_size

-- Writing a text, character by character.
unfoldable pub write_all : Klog → List ℕ → Klog
write_all k [] = k
write_all k (c ∷ cs) = write_all (klog_write_char k c) cs

pub write_all-contents :
    (cs : List ℕ) (k : Klog) (history : List ℕ)
    → IsValid k
    → contents k ≡ last_of history
    → IsValid (write_all k cs) × (contents (write_all k cs) ≡ last_of (history ++ cs))
unfolding write_all
write_all-contents [] k history v e = (v, rw append-nil e)
write_all-contents (c ∷ cs) k history v e =
    let (v', rest) =
      write_all-contents cs (klog_write_char k c) (history ++ c ∷ [])
        (klog_write_char-IsValid k c v) (write-contents k c v history e) in
    (v', rest ∙ ap last_of (append_assoc history (c ∷ []) cs))

pub cleared : (k : Klog) → length k.buffer ≡ klog_buffer_size → IsValid (klog_init k)
unfolding klog_init
cleared k h = ground arith

pub cleared_contents : (k : Klog) → contents (klog_init k) ≡ last_of []
unfolding klog_init contents last_of
cleared_contents k = refl

-- With a buffer of 8192 places, after the log is set up, a dump shows the last 8192 of all
-- characters written since, in order.
pub klog_dump-write_all :
    (k : Klog) (cs : List ℕ)
    → length k.buffer ≡ klog_buffer_size
    → klog_dump (write_all (klog_init k) cs) ≡ drop (length cs - klog_buffer_size) cs
unfolding last_of
klog_dump-write_all k cs h =
    let (v, e) = write_all-contents cs (klog_init k) [] (cleared k h) (cleared_contents k) in
    klog_dump-contents _ v ∙ e
