-- ===== src/Tty/Tests.antt =====
-- Examples on a ring that holds one key.
use my_os.Prelude.{ℕ, replicate, length-replicate}
use my_os.Tty.{Tty, tty_init, push_key}
use my_os.Tty.Queue.{IsValid, Pushes, tty_init_empty, push_key-IsValid, push_key-Pushes}

abbrev blank : Tty
blank = record { buffer = replicate 256 0; head = 0; tail = 0; dropped = 0 }

abbrev one_key : Tty
one_key = (push_key (tty_init blank) 97).1

one_key-IsValid : IsValid one_key
one_key-IsValid = push_key-IsValid (tty_init_empty blank (length-replicate {A = ℕ} 256 0)).0 97

push_key-Pushes_example : Pushes one_key 98 (push_key one_key 98)
push_key-Pushes_example = push_key-Pushes one_key-IsValid 98
