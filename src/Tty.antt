-- ===== src/Tty.antt =====
-- kernel/tty.c: the ring of 256 keys between the keyboard interrupt and the readers. It keeps one
-- slot empty, so that equal indices mean that it holds no key. Each operation runs with
-- interrupts off; waking a reader is left to Wait.
mod Tests
pub mod Queue
use my_os.Prelude.{
  ℕ, ◌+◌, ◌%◌, ◌^◌, Bool, true, false, List, Option, none, some, add32, ◌==◌, if◌then◌else◌, get_or,
  set,
}

abbrev pub tty_buffer_size : ℕ
tty_buffer_size = 256

-- The static variables.
pub record Tty : Type 0 where
  pub buffer : List ℕ
  pub head : ℕ
  pub tail : ℕ
  pub dropped : ℕ

abbrev pub next_index : ℕ → ℕ
next_index index = add32 index 1 % tty_buffer_size

pub tty_init : Tty → Tty
tty_init t = record t { head = 0; tail = 0; dropped = 0 }

-- The critical section of `tty_push_key`; its result decides whether a waiter is woken.
unfoldable pub push_key : Tty → ℕ → Bool × Tty
push_key t key =
    let next = next_index t.head in
    if next == t.tail
    then (false, record t { dropped = add32 t.dropped 1 })
    else (true, record t { buffer = set t.buffer t.head key; head = next })

-- `(tty_key_t)(u8)c`.
abbrev pub key_of_char : ℕ → ℕ
key_of_char c = c % 2 ^ 8

unfoldable pub push_char : Tty → ℕ → Bool × Tty
unfolding push_key
push_char t c = push_key t (key_of_char c)

-- `tty_read_key_irq_disabled`.
unfoldable pub read_key : Tty → Option ℕ × Tty
read_key t =
    if t.tail == t.head
    then (none, t)
    else (some (get_or t.buffer t.tail 0), record t { tail = next_index t.tail })
