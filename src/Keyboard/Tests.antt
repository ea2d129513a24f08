-- ===== src/Keyboard/Tests.antt =====
-- Examples on an empty ring.
use my_os.Prelude.{
  ℕ, ap, true, length, ◌<◌, ◌≡◌, refl, false, [], arith, replicate, length-replicate,
}
use my_os.Tty.{Tty, tty_init}
use my_os.Tty.Queue.{IsValid, contents, tty_init_empty}
use my_os.Keyboard.{Keyboard, scancode_ascii, keyboard_on_irq}
use my_os.Keyboard.Decode.{Holds, all_keys, is_letter, keyboard_on_irq-Holds}

abbrev idle : Keyboard
idle = record { shift_pressed = false; extended_scancode = false }

abbrev blank : Tty
blank = record { buffer = replicate 256 0; head = 0; tail = 0; dropped = 0 }

abbrev ring : Tty
ring = tty_init blank

ring_empty : IsValid ring × (contents ring ≡ [])
ring_empty = tty_init_empty blank (length-replicate {A = ℕ} 256 0)

ring-Holds : Holds ring
unfolding all_keys
ring-Holds = (ring_empty.0, ap all_keys ring_empty.1)

keyboard_on_irq-Holds_example : Holds (keyboard_on_irq 1 30 (idle, ring)).1
keyboard_on_irq-Holds_example = keyboard_on_irq-Holds 1 30 idle ring ring-Holds

letter_a : is_letter 30 ≡ true
unfolding scancode_ascii
letter_a = refl

ring_room : length (contents ring) < 255
ring_room = rw ring_empty.1 (omega arith)
