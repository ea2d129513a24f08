-- ===== src/Tty/Queue.antt =====
-- kernel/tty.c: the ring of keys against the list of the keys that it holds.
use my_os.Prelude.{
  ℕ, ◌+◌, ◌-◌, ◌%◌, ◌≤◌, ◌<◌, ◌≡◌, refl, Bool, true, false, List, [], ◌∷◌, ◌++◌, Option, none, some,
  arith, add32, leb, if◌then◌else◌, length, length-set,
}
use my_os.Prelude.Window.{window, length-window, window-pop, window-push}
use my_os.Tty.{Tty, tty_buffer_size, tty_init, push_key, read_key}

-- How many keys the ring holds.
abbrev pub held : Tty → ℕ
held t = (t.head + tty_buffer_size - t.tail) % tty_buffer_size

-- The keys from the oldest to the newest.
abbrev pub contents : Tty → List ℕ
contents t = window tty_buffer_size 0 t.buffer t.tail (held t)

pub record IsValid (t : Tty) : Type 0 where
  pub sized : length t.buffer ≡ tty_buffer_size
  pub head_in : t.head < tty_buffer_size
  pub tail_in : t.tail < tty_buffer_size

-- What pushing a key does: behind 255 keys it is dropped and counted, and otherwise it goes to
-- the end.
abbrev pub Pushes : Tty → ℕ → Bool × Tty → Type 0
Pushes t key (result, t') =
    if leb 255 (length (contents t))
    then (result ≡ false) × (contents t' ≡ contents t) × (t'.dropped ≡ add32 t.dropped 1)
    else (result ≡ true) × (contents t' ≡ contents t ++ (key ∷ [])) × (t'.dropped ≡ t.dropped)

-- What reading does: nothing on the empty ring, and otherwise it takes the oldest key.
abbrev pub Reads : Tty → Option ℕ × Tty → Type 0
Reads t (none, t') = (contents t ≡ []) × (t' ≡ t)
Reads t (some key, t') = contents t ≡ key ∷ contents t'

pub tty_init_empty :
    (t : Tty)
    → length t.buffer ≡ tty_buffer_size
    → IsValid (tty_init t) × (contents (tty_init t) ≡ [])
unfolding tty_init
tty_init_empty t h = (omega arith, refl)

module _ {t : Tty} (v : IsValid t) where
  length-contents : length (contents t) ≡ held t
  length-contents = length-window tty_buffer_size 0 t.buffer t.tail (held t)

  -- The queue of keys never outgrows 255.
  pub contents-le : length (contents t) ≤ 255
  contents-le = omega (arith, length-contents)

  -- Pushing a key keeps a valid ring valid.
  pub push_key-IsValid : (key : ℕ) → IsValid (push_key t key).1
  unfolding push_key
  push_key-IsValid key = ground (arith, length-set t.buffer t.head key)

  -- On a valid ring, `tty_push_key` drops and counts a key behind 255 others, and otherwise puts it
  -- behind all others.
  pub push_key-Pushes : (key : ℕ) → Pushes t key (push_key t key)
  unfolding push_key
  push_key-Pushes key =
      ground
        (arith, length-contents, window-push tty_buffer_size 0 t.buffer key t.tail (held t) t.head)

  pub read_key-IsValid : IsValid (read_key t).1
  unfolding read_key
  read_key-IsValid = ground arith

  -- On a valid ring, reading returns nothing and leaves the ring if it is empty, and otherwise
  -- takes the oldest key.
  pub read_key-Reads : Reads t (read_key t)
  unfolding read_key
  read_key-Reads = ground (arith, window-pop tty_buffer_size 0 t.buffer t.tail (held t))
