-- ===== src/Mouse.antt =====
-- kernel/mouse.c: the packets of a PS/2 mouse, assembled by the interrupt handler; the wheel scrolls
-- the console. The status and the data byte, which `inb` reads from the ports, are arguments. A
-- signed number is kept as its unsigned one of the same bits. Start-up, which talks to the
-- controller, only decides `has_wheel` and the size of a packet.
pub mod Packet
mod Tests
use my_os.Prelude.{
  ℕ, ◌+◌, ◌-◌, ◌*◌, ◌^◌, Bool, true, false, not, ◌||◌, ◌&&◌, List, [], ◌∷◌, add32, bit_and, bit_or,
  u32_mod, ltb, leb, ◌==◌, if◌then◌else◌, get_or, set,
}
use my_os.Console.{Console, console_scroll_line_up, console_scroll_line_down}

abbrev pub ps2_status_output_full : ℕ
ps2_status_output_full = 0x01

-- The static variables.
pub record Mouse : Type 0 where
  pub packet : List ℕ
  pub packet_index : ℕ
  pub packet_size : ℕ
  pub has_wheel : Bool
  pub packets_received : ℕ
  pub wheel_events : ℕ
  pub wheel_position : ℕ

-- The variables that `mouse_try_enable_wheel` sets, by the identity that the mouse reports.
unfoldable pub mouse_set_wheel : ℕ → Mouse → Mouse
mouse_set_wheel id m =
    if id == 3
    then record m { has_wheel = true; packet_size = 4 }
    else record m { has_wheel = false; packet_size = 3 }

-- The result is of 8 bits.
unfoldable pub mouse_decode_wheel : ℕ → ℕ
mouse_decode_wheel raw =
    let value = bit_and raw 0x0F in
    if not (bit_and value 0x08 == 0) then bit_or value 0xF0 else value

-- A signed number of 8 bits in 32 bits.
abbrev pub sign_extend : ℕ → ℕ
sign_extend wheel = if ltb wheel 128 then wheel else u32_mod - 256 + wheel

unfoldable pub mouse_handle_packet : Mouse × Console → Mouse × Console
mouse_handle_packet (m, console) =
    let received = record m { packets_received = add32 m.packets_received 1 } in
    let wheel = mouse_decode_wheel (get_or m.packet 3 0) in
    let moved = record received {
      wheel_position = add32 m.wheel_position (sign_extend wheel);
      wheel_events = add32 m.wheel_events 1;
    } in
    if bit_and (get_or m.packet 0 0) 0x08 == 0
    then (received, console)
    else if not m.has_wheel || ltb m.packet_size 4
    then (received, console)
    else if wheel == 0
    then (received, console)
    else (
      moved,
      if ltb wheel 128 then console_scroll_line_down console else console_scroll_line_up console,
    )

unfoldable pub mouse_on_irq : ℕ → ℕ → Mouse × Console → Mouse × Console
mouse_on_irq status byte (m, console) =
    let stored = record m {
      packet = set m.packet m.packet_index byte;
      packet_index = add32 m.packet_index 1;
    } in
    if bit_and status ps2_status_output_full == 0
    then (m, console)
    else if (m.packet_index == 0) && (bit_and byte 0x08 == 0)
    then (m, console)
    else if leb m.packet_size stored.packet_index
    then mouse_handle_packet (record stored { packet_index = 0 }, console)
    else (stored, console)
