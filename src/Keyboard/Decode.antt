-- ===== src/Keyboard/Decode.antt =====
-- kernel/keyboard.c: what the handler puts into the ring, and what it keeps.
use my_os.Prelude.{
  ◌⊎◌, inl, inr, not, ℕ, ◌+◌, ◌%◌, ◌≤◌, ◌<◌, ◌≢◌, ◌≡◌, refl, ap, ◌∙◌, Bool, true, false, List, [],
  ◌∷◌, ◌++◌, arith, ltb, ltb→lt, leb, ◌==◌, ◌||◌, ◌&&◌, get_or, length, all_below, all_below-apply,
}
use my_os.Tty.{Tty, push_key, push_char}
use my_os.Tty.Queue.{contents, IsValid, Pushes, push_key-Pushes, push_key-IsValid}
use my_os.Keyboard.{
  Keyboard, scancode_ascii, scancode_ascii_shift, scancode_to_char, handle_extended_scancode,
  push_pressed, keyboard_on_irq,
}

-- The keys of include/tty.h: ASCII without NUL, or one of the eight special keys.
abbrev pub is_key : ℕ → Bool
is_key key = (ltb 0 key && ltb key 128) || (leb 257 key && leb key 264)

unfoldable pub all_keys : List ℕ → Bool
all_keys [] = true
all_keys (key ∷ rest) = is_key key && all_keys rest

all_keys-++ : (l m : List ℕ) → all_keys l ≡ true → all_keys m ≡ true → all_keys (l ++ m) ≡ true
unfolding all_keys
all_keys-++ [] m hl hm = hm
all_keys-++ (key ∷ rest) m hl hm = ground (arith, all_keys-++ rest m)

abbrev pub Holds : Tty → Type 0
Holds t = IsValid t × (all_keys (contents t) ≡ true)

all_keys-one : (key : ℕ) → is_key key ≡ true → all_keys (key ∷ []) ≡ true
unfolding all_keys
all_keys-one key h = ground arith

Pushes-all_keys :
    (t : Tty) (key : ℕ) (r : Bool × Tty)
    → Pushes t key r
    → all_keys (contents t) ≡ true
    → is_key key ≡ true
    → all_keys (contents r.1) ≡ true
Pushes-all_keys t key (result, t') p h hk =
    let e : (contents t' ≡ contents t) ⊎ (contents t' ≡ contents t ++ (key ∷ [])) = ground arith in
    elim e [
      | inl e ↦ ap all_keys e ∙ h
      | inr e ↦ ap all_keys e ∙ all_keys-++ (contents t) (key ∷ []) h (all_keys-one key hk)
    ]

push_key-Holds : (t : Tty) (key : ℕ) → Holds t → is_key key ≡ true → Holds (push_key t key).1
push_key-Holds t key (v, h) hk =
    (push_key-IsValid v key, Pushes-all_keys t key (push_key t key) (push_key-Pushes v key) h hk)

push_char-Holds : (t : Tty) (c : ℕ) → Holds t → 0 < c → c < 128 → Holds (push_char t c).1
unfolding push_char
push_char-Holds t c h lo hi = push_key-Holds t (c % 256) h (ground arith)

push_pressed-Holds : (t : Tty) (c : ℕ) → c < 128 → Holds t → Holds (push_pressed c t)
unfolding push_pressed
push_pressed-Holds t c hi h = ground (
  arith,
  push_key-Holds t 8 h refl,
  push_key-Holds t 9 h refl,
  push_key-Holds t 10 h refl,
  push_key-Holds t 27 h refl,
  push_char-Holds t c h,
)

extended-Holds : (scancode : ℕ) (t : Tty) → Holds t → Holds (handle_extended_scancode scancode t)
unfolding handle_extended_scancode
extended-Holds scancode t h =
    let keys : (key : ℕ) → leb 257 key && leb key 264 ≡ true → Holds (push_key t key).1 =
      λ key e. push_key-Holds t key h (ground arith) in
    ground (
      arith,
      keys 257 refl,
      keys 258 refl,
      keys 259 refl,
      keys 260 refl,
      keys 261 refl,
      keys 262 refl,
      keys 263 refl,
      keys 264 refl,
    )

-- Each entry of the tables is an ASCII character.
plain_ascii : all_below 128 (λ i. ltb (get_or scancode_ascii i 0) 128) ≡ true
unfolding all_below scancode_ascii
plain_ascii = refl

shift_ascii : all_below 128 (λ i. ltb (get_or scancode_ascii_shift i 0) 128) ≡ true
unfolding all_below scancode_ascii_shift
shift_ascii = refl

plain-lt : (i : ℕ) → i < 128 → get_or scancode_ascii i 0 < 128
plain-lt i h =
    ltb→lt (get_or scancode_ascii i 0) 128
      (all_below-apply 128 (λ i. ltb (get_or scancode_ascii i 0) 128) i plain_ascii h)

shift-lt : (i : ℕ) → i < 128 → get_or scancode_ascii_shift i 0 < 128
shift-lt i h =
    ltb→lt (get_or scancode_ascii_shift i 0) 128
      (all_below-apply 128 (λ i. ltb (get_or scancode_ascii_shift i 0) 128) i shift_ascii h)

scancode_to_char-lt : (k : Keyboard) (scancode : ℕ) → scancode_to_char k scancode < 128
unfolding scancode_to_char
scancode_to_char-lt k scancode = ground (arith, plain-lt scancode, shift-lt scancode)

-- The handler keeps the ring valid and its keys legal: whatever the status and the scan code,
-- when each key in the ring is an ASCII character other than NUL or one of the eight special
-- keys, then so is each key that it holds afterwards.
pub keyboard_on_irq-Holds :
    (status scancode : ℕ) (k : Keyboard) (t : Tty)
    → Holds t
    → Holds (keyboard_on_irq status scancode (k, t)).1
unfolding keyboard_on_irq
keyboard_on_irq-Holds status scancode k t h = ground (
  arith,
  extended-Holds scancode t h,
  push_pressed-Holds t (scancode_to_char k scancode) (scancode_to_char-lt k scancode) h,
)

-- A release byte (bit 7 of a byte) leaves the ring as it is, in each state of the keyboard; the
-- prefix 0xE0 is one of them.
pub release-keeps_ring :
    (status scancode : ℕ) (k : Keyboard) (t : Tty)
    → 128 ≤ scancode
    → scancode < 256
    → (keyboard_on_irq status scancode (k, t)).1 ≡ t
unfolding keyboard_on_irq handle_extended_scancode
release-keeps_ring status scancode k t lo hi = ground arith

-- Whether the scan code is that of a letter.
abbrev pub is_letter : ℕ → Bool
is_letter scancode = let c = get_or scancode_ascii scancode 0 in leb 97 c && leb c 122

-- A letter key is not a shift key, and its entry with shift is 32 lower.
abbrev is_shifted : ℕ → Bool
is_shifted i =
    not (is_letter i)
    || (not ((i == 42) || (i == 54))
        && (get_or scancode_ascii i 0 == get_or scancode_ascii_shift i 0 + 32))

shift_letters : all_below 128 (λ i. is_shifted i) ≡ true
unfolding all_below scancode_ascii scancode_ascii_shift
shift_letters = refl

letter-shifted :
    (i : ℕ)
    → i < 128
    → is_letter i ≡ true
    → (i ≢ 42) × (i ≢ 54) × (get_or scancode_ascii i 0 ≡ get_or scancode_ascii_shift i 0 + 32)
letter-shifted i h e =
    let both : is_shifted i ≡ true = all_below-apply 128 (λ i. is_shifted i) i shift_letters h in
    ground arith

shift_down :
    (k : Keyboard) (t : Tty)
    → k.extended_scancode ≡ false
    → keyboard_on_irq 1 42 (k, t) ≡ (record k { shift_pressed = true }, t)
unfolding keyboard_on_irq
shift_down k t plain = ground arith

push_pressed_letter : (c : ℕ) (t : Tty) → 65 ≤ c → c ≤ 90 → push_pressed c t ≡ (push_key t c).1
unfolding push_pressed push_char
push_pressed_letter c t lo hi = let e : c % 256 ≡ c = omega arith in ground arith

letter_down :
    (k : Keyboard) (t : Tty) (i : ℕ)
    → k.extended_scancode ≡ false
    → k.shift_pressed ≡ true
    → i < 128
    → i ≢ 42
    → i ≢ 54
    → keyboard_on_irq 1 i (k, t) ≡ (k, push_pressed (get_or scancode_ascii_shift i 0) t)
unfolding keyboard_on_irq scancode_to_char
letter_down k t i plain shift small n42 n54 = ground arith

Pushes-room :
    (t : Tty) (key : ℕ) (r : Bool × Tty)
    → length (contents t) < 255
    → Pushes t key r
    → contents r.1 ≡ contents t ++ (key ∷ [])
Pushes-room t key (result, t') room p = ground arith

pushed :
    (t : Tty) (key : ℕ)
    → IsValid t
    → length (contents t) < 255
    → contents (push_key t key).1 ≡ contents t ++ (key ∷ [])
pushed t key v room = Pushes-room t key (push_key t key) room (push_key-Pushes v key)

-- Holding shift makes letters capital: outside an extended sequence, when the ring has room,
-- pressing shift and then a letter key puts the capital letter, 32 below the character of the
-- table without shift, at the end of the ring, and no other key.
pub shift-capital :
    (k : Keyboard) (t : Tty) (scancode : ℕ)
    → IsValid t
    → length (contents t) < 255
    → k.extended_scancode ≡ false
    → scancode < 128
    → is_letter scancode ≡ true
    → (capital : ℕ) × (get_or scancode_ascii scancode 0 ≡ capital + 32)
      × (contents (keyboard_on_irq 1 scancode (keyboard_on_irq 1 42 (k, t))).1
          ≡ contents t ++ (capital ∷ []))
shift-capital k t scancode v room plain small letter =
    let (n42, n54, lower) = letter-shifted scancode small letter in
    let capital : ℕ = get_or scancode_ascii_shift scancode 0 in
    let range : (65 ≤ capital) × (capital ≤ 90) = ground arith in
    let k' : Keyboard = record k { shift_pressed = true } in
    let e : keyboard_on_irq 1 scancode (keyboard_on_irq 1 42 (k, t))
        ≡ (k', (push_key t capital).1) =
      ap (keyboard_on_irq 1 scancode) (shift_down k t plain)
      ∙ letter_down k' t scancode plain refl small n42 n54
      ∙ ap (λ u. (k', u)) (push_pressed_letter capital t range.0 range.1) in
    (capital, lower, ap (λ r. contents r.1) e ∙ pushed t capital v room)
