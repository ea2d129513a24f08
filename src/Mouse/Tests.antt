-- ===== src/Mouse/Tests.antt =====
-- kernel/mouse.c: a wheel that moves by -1.
use my_os.Prelude.{◌≡◌, refl}
use my_os.Console.{Console}
use my_os.Mouse.Packet.{waiting, four_bytes, after_packet, four_bytes-Scroll}

abbrev console : Console
console = record {
  scrollback = λ p i. record { ch = 32; color = 15 };
  current_line = 600;
  current_col = 3;
  viewport_top = 576;
  current_color = 15;
  vga_memory = λ i. 0;
  cursor = 0;
}

four_bytes-Scroll_example :
    four_bytes 8 0 0 15 (waiting 0 0 0 0 7 2 5, console) ≡ after_packet 8 0 0 15 7 2 5 console
four_bytes-Scroll_example = four_bytes-Scroll 8 0 0 15 0 0 0 0 7 2 5 console refl
