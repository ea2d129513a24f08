-- ===== src/Keyboard.antt =====
-- kernel/keyboard.c: scan codes of set 1 from the PS/2 controller, turned into keys that go into
-- the ring of kernel/tty.c. The two static flags are the record `Keyboard`. The status and the
-- data byte, which `inb` reads from the ports, are arguments of the handler.
mod Tests
pub mod Decode
use my_os.Prelude.{
  ℕ, ◌/◌, ◌%◌, Bool, true, false, List, [], ◌∷◌, ltb, leb, ◌==◌, ◌||◌, if◌then◌else◌, get_or,
}
use my_os.Tty.{Tty, push_key, push_char}

unfoldable pub scancode_ascii : List ℕ
scancode_ascii =
    0 ∷ 27 ∷ 49 ∷ 50 ∷ 51 ∷ 52 ∷ 53 ∷ 54 ∷ 55 ∷ 56 ∷ 57 ∷ 48 ∷ 45 ∷ 61 ∷ 8 ∷ 9 ∷ 113 ∷ 119 ∷ 101
    ∷ 114 ∷ 116 ∷ 121 ∷ 117 ∷ 105 ∷ 111 ∷ 112 ∷ 91 ∷ 93 ∷ 10 ∷ 0 ∷ 97 ∷ 115 ∷ 100 ∷ 102 ∷ 103 ∷ 104
    ∷ 106 ∷ 107 ∷ 108 ∷ 59 ∷ 39 ∷ 96 ∷ 0 ∷ 92 ∷ 122 ∷ 120 ∷ 99 ∷ 118 ∷ 98 ∷ 110 ∷ 109 ∷ 44 ∷ 46 ∷ 47
    ∷ 0 ∷ 42 ∷ 0 ∷ 32 ∷ 0 ∷ 0 ∷ 0 ∷ 0 ∷ 0 ∷ 0 ∷ 0 ∷ 0 ∷ 0 ∷ 0 ∷ 0 ∷ 0 ∷ 0 ∷ 55 ∷ 56 ∷ 57 ∷ 45 ∷ 52
    ∷ 53 ∷ 54 ∷ 43 ∷ 49 ∷ 50 ∷ 51 ∷ 48 ∷ 46 ∷ 0 ∷ 0 ∷ 0 ∷ 0 ∷ 0 ∷ 0 ∷ 0 ∷ 0 ∷ 0 ∷ 0 ∷ 0 ∷ 0 ∷ 0 ∷ 0
    ∷ 0 ∷ 0 ∷ 0 ∷ 0 ∷ 0 ∷ 0 ∷ 0 ∷ 0 ∷ 0 ∷ 0 ∷ 0 ∷ 0 ∷ 0 ∷ 0 ∷ 0 ∷ 0 ∷ 0 ∷ 0 ∷ 0 ∷ 0 ∷ 0 ∷ 0 ∷ 0 ∷ 0
    ∷ 0 ∷ 0 ∷ 0 ∷ 0 ∷ 0 ∷ 0 ∷ []

unfoldable pub scancode_ascii_shift : List ℕ
scancode_ascii_shift =
    0 ∷ 27 ∷ 33 ∷ 64 ∷ 35 ∷ 36 ∷ 37 ∷ 94 ∷ 38 ∷ 42 ∷ 40 ∷ 41 ∷ 95 ∷ 43 ∷ 8 ∷ 9 ∷ 81 ∷ 87 ∷ 69 ∷ 82
    ∷ 84 ∷ 89 ∷ 85 ∷ 73 ∷ 79 ∷ 80 ∷ 123 ∷ 125 ∷ 10 ∷ 0 ∷ 65 ∷ 83 ∷ 68 ∷ 70 ∷ 71 ∷ 72 ∷ 74 ∷ 75 ∷ 76
    ∷ 58 ∷ 34 ∷ 126 ∷ 0 ∷ 124 ∷ 90 ∷ 88 ∷ 67 ∷ 86 ∷ 66 ∷ 78 ∷ 77 ∷ 60 ∷ 62 ∷ 63 ∷ 0 ∷ 42 ∷ 0 ∷ 32
    ∷ 0 ∷ 0 ∷ 0 ∷ 0 ∷ 0 ∷ 0 ∷ 0 ∷ 0 ∷ 0 ∷ 0 ∷ 0 ∷ 0 ∷ 0 ∷ 55 ∷ 56 ∷ 57 ∷ 45 ∷ 52 ∷ 53 ∷ 54 ∷ 43 ∷ 49
    ∷ 50 ∷ 51 ∷ 48 ∷ 46 ∷ 0 ∷ 0 ∷ 0 ∷ 0 ∷ 0 ∷ 0 ∷ 0 ∷ 0 ∷ 0 ∷ 0 ∷ 0 ∷ 0 ∷ 0 ∷ 0 ∷ 0 ∷ 0 ∷ 0 ∷ 0 ∷ 0
    ∷ 0 ∷ 0 ∷ 0 ∷ 0 ∷ 0 ∷ 0 ∷ 0 ∷ 0 ∷ 0 ∷ 0 ∷ 0 ∷ 0 ∷ 0 ∷ 0 ∷ 0 ∷ 0 ∷ 0 ∷ 0 ∷ 0 ∷ 0 ∷ 0 ∷ 0 ∷ 0 ∷ 0
    ∷ 0 ∷ []

-- The static flags.
pub record Keyboard : Type 0 where
  pub shift_pressed : Bool
  pub extended_scancode : Bool

-- `scancode & KEY_RELEASED_MASK`, that is bit 7.
abbrev pub is_release : ℕ → Bool
is_release scancode = scancode / 128 % 2 == 1

unfoldable pub scancode_to_char : Keyboard → ℕ → ℕ
scancode_to_char k scancode =
    if leb 128 scancode
    then 0
    else if k.shift_pressed
    then get_or scancode_ascii_shift scancode 0
    else get_or scancode_ascii scancode 0

unfoldable pub handle_extended_scancode : ℕ → Tty → Tty
handle_extended_scancode scancode t =
    if is_release scancode
    then t
    else if scancode == 71
    then (push_key t 259).1
    else if scancode == 72
    then (push_key t 261).1
    else if scancode == 73
    then (push_key t 263).1
    else if scancode == 75
    then (push_key t 257).1
    else if scancode == 77
    then (push_key t 258).1
    else if scancode == 79
    then (push_key t 260).1
    else if scancode == 80
    then (push_key t 262).1
    else if scancode == 81
    then (push_key t 264).1
    else t

-- The end of `keyboard_on_irq`: what the character of a pressed key puts into the ring.
unfoldable pub push_pressed : ℕ → Tty → Tty
push_pressed c t =
    if c == 0
    then t
    else if c == 8
    then (push_key t 8).1
    else if c == 9
    then (push_key t 9).1
    else if c == 10
    then (push_key t 10).1
    else if c == 27
    then (push_key t 27).1
    else (push_char t c).1

unfoldable pub keyboard_on_irq : ℕ → ℕ → Keyboard × Tty → Keyboard × Tty
keyboard_on_irq status scancode (k, t) =
    if status % 2 == 0
    then (k, t)
    else if scancode == 224
    then (record k { extended_scancode = true }, t)
    else if k.extended_scancode
    then (record k { extended_scancode = false }, handle_extended_scancode scancode t)
    else if (scancode == 42) || (scancode == 54)
    then (record k { shift_pressed = true }, t)
    else if (scancode == 170) || (scancode == 182)
    then (record k { shift_pressed = false }, t)
    else if is_release scancode
    then (k, t)
    else (k, push_pressed (scancode_to_char k scancode) t)
