-- ===== src/Mouse/Packet.antt =====
-- kernel/mouse.c: mouse_on_irq for the four bytes of a packet.
use my_os.Prelude.{
  ℕ, ◌+◌, ◌-◌, ◌%◌, ◌≡◌, refl, ap, ◌∙◌, true, false, not, [], ◌∷◌, arith, add32, bit_and, bit_or,
  u32_mod, ltb, ◌==◌, ==→eq, if◌then◌else◌, all_below, Bool-cases, inl, inr, all_below-apply,
}
use my_os.Prelude.Bits.{bit_and-ones}
use my_os.Console.{Console, console_scroll_line_up, console_scroll_line_down}
use my_os.Mouse.{Mouse, mouse_decode_wheel, sign_extend, mouse_handle_packet, mouse_on_irq}

-- Four bits in two's complement, in 8 bits.
abbrev delta : ℕ → ℕ
delta raw = if ltb (raw % 16) 8 then raw % 16 else raw % 16 + 240

mouse_decode_wheel-delta : (raw : ℕ) → mouse_decode_wheel raw ≡ delta raw
unfolding mouse_decode_wheel all_below
mouse_decode_wheel-delta raw =
    let low : bit_and raw 0x0F ≡ raw % 16 = bit_and-ones 4 raw in
    let check = λ (n : ℕ).
      (if not (bit_and n 0x08 == 0) then bit_or n 0xF0 else n)
      == (if ltb n 8 then n else n + 240) in
    ap (λ (n : ℕ). if not (bit_and n 0x08 == 0) then bit_or n 0xF0 else n) low
    ∙ ==→eq _ _ (all_below-apply 16 check (raw % 16) refl (omega arith))

-- What a wheel that moved by four bits in two's complement does to the console.
abbrev pub scrolled : ℕ → Console → Console
scrolled raw console =
    if raw % 16 == 0
    then console
    else if ltb (raw % 16) 8
    then console_scroll_line_down console
    else console_scroll_line_up console

-- A mouse with a wheel that waits for the first byte of a packet.
abbrev pub waiting : ℕ → ℕ → ℕ → ℕ → ℕ → ℕ → ℕ → Mouse
waiting b0 b1 b2 b3 packets_received wheel_events wheel_position = record {
  packet = b0 ∷ b1 ∷ b2 ∷ b3 ∷ [];
  packet_index = 0;
  packet_size = 4;
  has_wheel = true;
  packets_received = packets_received;
  wheel_events = wheel_events;
  wheel_position = wheel_position;
}

abbrev pub four_bytes : ℕ → ℕ → ℕ → ℕ → Mouse × Console → Mouse × Console
four_bytes b0 b1 b2 b3 s =
    mouse_on_irq 1 b3 (mouse_on_irq 1 b2 (mouse_on_irq 1 b1 (mouse_on_irq 1 b0 s)))

four_bytes-handle :
    (b0 b1 b2 b3 p0 p1 p2 p3 received events position : ℕ) (console : Console)
    → (bit_and b0 0x08 == 0) ≡ false
    → four_bytes b0 b1 b2 b3 (waiting p0 p1 p2 p3 received events position, console)
      ≡ mouse_handle_packet (waiting b0 b1 b2 b3 received events position, console)
unfolding mouse_on_irq
four_bytes-handle b0 b1 b2 b3 p0 p1 p2 p3 received events position console first = simp first

-- What becomes of a mouse and a console when the wheel has moved.
abbrev pub after_packet : ℕ → ℕ → ℕ → ℕ → ℕ → ℕ → ℕ → Console → Mouse × Console
after_packet b0 b1 b2 b3 received events position console =
    if b3 % 16 == 0 then (waiting b0 b1 b2 b3 (add32 received 1) events position, console) else (
      waiting b0 b1 b2 b3 (add32 received 1) (add32 events 1)
          (add32 position (if ltb (b3 % 16) 8 then b3 % 16 else u32_mod - 16 + b3 % 16)),
      scrolled b3 console,
    )

-- After four bytes, of which the first has bit 3 set, a mouse with a wheel waits for a packet again
-- and has counted one more. When the low half of the last byte is 0, that is all. Otherwise one more
-- event of the wheel is counted, the half is added to its position as a number in two's complement,
-- and the console scrolls one line down for a positive number and one line up for a negative one.
pub four_bytes-Scroll :
    (b0 b1 b2 b3 p0 p1 p2 p3 received events position : ℕ) (console : Console)
    → (bit_and b0 0x08 == 0) ≡ false
    → four_bytes b0 b1 b2 b3 (waiting p0 p1 p2 p3 received events position, console)
      ≡ after_packet b0 b1 b2 b3 received events position console
unfolding mouse_handle_packet
four_bytes-Scroll b0 b1 b2 b3 p0 p1 p2 p3 received events position console first =
    let handled =
      four_bytes-handle b0 b1 b2 b3 p0 p1 p2 p3 received events position console first in
    let wheel = mouse_decode_wheel-delta b3 in
    let zero_test : (delta b3 == 0) ≡ (b3 % 16 == 0) = ground arith in
    let sign : ltb (delta b3) 128 ≡ ltb (b3 % 16) 8 = ground arith in
    let extended : sign_extend (delta b3)
        ≡ (if ltb (b3 % 16) 8 then b3 % 16 else u32_mod - 16 + b3 % 16) =
      ground arith in
    elim (Bool-cases (b3 % 16 == 0)) [
      | inl still ↦ handled ∙ rw (first, wheel, zero_test, still) refl
      | inr moved ↦ handled ∙ rw (first, wheel, zero_test, moved, extended, sign) refl
    ]
