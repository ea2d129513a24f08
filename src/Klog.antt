-- ===== src/Klog.antt =====
-- kernel/klog.c: the kernel log, a ring of 8192 characters that overwrites the oldest. Each
-- operation is one critical section of `klog_lock`; the shell commands are left out.
mod Tests
pub mod History
use my_os.Prelude.{
  ℕ, zero, suc, ◌+◌, ◌%◌, Bool, true, false, List, [], ◌∷◌, add32, ltb, ◌==◌, if◌then◌else◌, get_or,
  set,
}

abbrev pub klog_buffer_size : ℕ
klog_buffer_size = 8192

-- The static variables.
pub record Klog : Type 0 where
  pub buffer : List ℕ
  pub head : ℕ
  pub count : ℕ
  pub initialized : Bool

abbrev pub klog_next_index : ℕ → ℕ
klog_next_index index = add32 index 1 % klog_buffer_size

pub klog_init : Klog → Klog
klog_init k = record k { head = 0; count = 0; initialized = true }

unfoldable pub klog_write_char : Klog → ℕ → Klog
klog_write_char k c =
    if k.initialized
    then record k {
      buffer = set k.buffer k.head c;
      head = klog_next_index k.head;
      count = if ltb k.count klog_buffer_size then add32 k.count 1 else k.count;
    }
    else k

pub klog_clear : Klog → Klog
klog_clear k = record k { head = 0; count = 0 }

pub klog_size : Klog → ℕ
klog_size k = k.count

-- The loop of `klog_dump`, over `n` rounds: what goes to the console and to the serial line.
pub dump_loop : List ℕ → ℕ → ℕ → List ℕ
dump_loop buffer zero index = []
dump_loop buffer (suc n) index = get_or buffer index 0 ∷ dump_loop buffer n (klog_next_index index)

abbrev pub dump_start : Klog → ℕ
dump_start k = if k.count == klog_buffer_size then k.head else 0

unfoldable pub klog_dump : Klog → List ℕ
unfolding dump_loop
klog_dump k = if k.initialized then dump_loop k.buffer k.count (dump_start k) else []
