-- ===== src/Console/Tests.antt =====
-- kernel/console.c: examples from console_clear on.
use my_os.Prelude.{ℕ, ◌+◌, ◌-◌, ◌≡◌, refl, [], ◌∷◌, arith}
use my_os.Console.{Console, console_clear, console_put_char}
use my_os.Console.Bounds.{
  InView, put_character, page_up, cursor_to, perform_all, perform_all_clear-InView,
}
use my_os.Console.Text.{Page, Shows, page_put_char}
use my_os.Console.Screen.{Follows, console_put_char-Follows}
use my_os.Console.Newline.{newline-Below}

abbrev at_line : ℕ → Console
at_line line = record {
  scrollback = λ p i. record { ch = 32; color = 15 };
  current_line = line;
  current_col = 3;
  viewport_top = line - 24;
  current_color = 15;
  vga_memory = λ i. 0;
  cursor = 0;
}

perform_all_clear-InView_example : InView (
    perform_all
      (console_clear (at_line 600))
      (put_character 104 ∷ put_character 10 ∷ cursor_to 9 90 ∷ page_up ∷ []))
perform_all_clear-InView_example =
    perform_all_clear-InView (at_line 600)
      (put_character 104 ∷ put_character 10 ∷ cursor_to 9 90 ∷ page_up ∷ []) (omega arith)

abbrev blank_page : Page
blank_page = record { text = λ l i. record { ch = 32; color = 15 }; line = 600; col = 3 }

blank-Shows : Shows (at_line 600) blank_page
blank-Shows = record { at_line = refl; at_col = refl; same = λ l i low high in_row. refl }

blank-InView : InView (at_line 600)
blank-InView = record { column = omega arith; kept = omega arith; above = omega arith }

console_put_char-Follows_example :
    Follows 15 (console_put_char (at_line 600) 9) (page_put_char 15 9 blank_page)
console_put_char-Follows_example =
    console_put_char-Follows (at_line 600) blank_page blank-Shows blank-InView (omega arith) 9

newline-Below_example :
    ((console_put_char (at_line 600) 10).current_line
      ≡ (console_put_char (at_line 600) 10).viewport_top + 25)
    × ((console_put_char (at_line 600) 10).cursor ≡ 1999)
newline-Below_example = newline-Below (at_line 600) (omega arith) (omega arith)
