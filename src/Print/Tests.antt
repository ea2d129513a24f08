-- ===== src/Print/Tests.antt =====
-- kernel/print.c: examples.
use my_os.Prelude.{
  ℕ, ◌≤◌, ◌≡◌, refl, true, List, [], ◌∷◌, some, length, replicate, length-replicate, arith,
}
use my_os.Console.{Console, console_put_char}
use my_os.Console.Bounds.{InView, console_put_char-Moves}
use my_os.Console.Text.{Page, Shows, page_put_char}
use my_os.Console.Screen.{console_put_char-Follows}
use my_os.Klog.{Klog, klog_init}
use my_os.Klog.History.{cleared, cleared_contents}
use my_os.Print.{Outputs, dec64, print}
use my_os.Print.Decimal.{decimal, print_dec64-decimal}
use my_os.Print.Text.{Seen, print-Seen}

print_dec64-decimal_example :
    (digits : List ℕ) × (dec64 21 18446744073709551615 ≡ some digits)
    × (length digits ≤ 20)
    × (decimal 0 digits ≡ 18446744073709551615)
print_dec64-decimal_example =
    print_dec64-decimal 18446744073709551615 21 (omega arith) (omega arith)

abbrev blank : Console
blank = record {
  scrollback = λ p i. record { ch = 32; color = 15 };
  current_line = 600;
  current_col = 3;
  viewport_top = 576;
  current_color = 15;
  vga_memory = λ i. 0;
  cursor = 0;
}

abbrev page : Page
page = record { text = λ l i. record { ch = 32; color = 15 }; line = 600; col = 3 }

blank-Shows : Shows blank page
blank-Shows = record { at_line = refl; at_col = refl; same = λ l i low high in_row. refl }

blank-InView : InView blank
blank-InView = record { column = omega arith; kept = omega arith; above = omega arith }

-- The console after a first character.
abbrev written : Console
written = console_put_char blank 36

written-InView : InView written
written-InView = (console_put_char-Moves blank 36 blank-InView (omega arith)).0

written_line : written.current_line ≤ 624
written_line = (console_put_char-Moves blank 36 blank-InView (omega arith)).1

abbrev log : Klog
log = klog_init (record { buffer = replicate 8192 0; head = 0; count = 0; initialized = true })

abbrev outputs : Outputs
outputs = record { console = written; serial = []; klog = log }

print-Seen_example :
    Seen 15 outputs
      (page_put_char 15 36 page)
      []
      (104 ∷ 105 ∷ 10 ∷ [])
      (print outputs (104 ∷ 105 ∷ 10 ∷ []))
print-Seen_example =
    print-Seen (104 ∷ 105 ∷ 10 ∷ []) [] 15 outputs (page_put_char 15 36 page)
      (console_put_char-Follows blank page blank-Shows blank-InView (omega arith) 36) written-InView
      (omega (arith, written_line)) (cleared _ (omega (arith, length-replicate {A = ℕ} 8192 0)))
      (cleared_contents _)
