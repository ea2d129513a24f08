-- ===== src/Console.antt =====
-- kernel/console.c: the text console. `scrollback` and the memory of the display are functions from
-- an index, and a loop that writes every index of a range once is one change of such a function.
-- `cursor` is the position that the two writes to the display's registers set. `render_viewport`
-- also moves a viewport that lies outside the lines that are kept.
pub mod Bounds
pub mod Text
pub mod Newline
pub mod Screen
mod Tests
use my_os.Prelude.{
  ℕ, zero, suc, ◌+◌, ◌-◌, ◌*◌, ◌/◌, ◌%◌, Bool, true, false, not, ◌&&◌, add64, bit_or, ltb, leb,
  ◌==◌, if◌then◌else◌,
}

abbrev pub console_width : ℕ
console_width = 80

abbrev pub console_height : ℕ
console_height = 25

abbrev pub console_scrollback_lines : ℕ
console_scrollback_lines = 512

abbrev pub color_white_on_black : ℕ
color_white_on_black = 15

-- `console_cell_t`.
pub record Cell : Type 0 where
  pub ch : ℕ
  pub color : ℕ

-- The static variables, the memory at `VGA_MEMORY` and the hardware cursor.
pub record Console : Type 0 where
  pub scrollback : ℕ → ℕ → Cell
  pub current_line : ℕ
  pub current_col : ℕ
  pub viewport_top : ℕ
  pub current_color : ℕ
  pub vga_memory : ℕ → ℕ
  pub cursor : ℕ

abbrev pub min_u64 : ℕ → ℕ → ℕ
min_u64 a b = if ltb a b then a else b

unfoldable pub scrollback_oldest_line : ℕ → ℕ
scrollback_oldest_line current_line =
    if leb (add64 current_line 1) console_scrollback_lines
    then 0
    else add64 current_line 1 - console_scrollback_lines

unfoldable pub scrollback_bottom_top : ℕ → ℕ
scrollback_bottom_top current_line =
    if leb (add64 current_line 1) console_height then 0 else add64 current_line 1 - console_height

abbrev pub physical_line : ℕ → ℕ
physical_line logical_line = logical_line % console_scrollback_lines

-- `scrollback[physical][col] = cell`.
abbrev pub set_cell : (ℕ → ℕ → Cell) → ℕ → ℕ → Cell → ℕ → ℕ → Cell
set_cell scrollback physical col cell p i =
    if (physical == p) && (col == i) then cell else scrollback p i

unfoldable pub clear_scrollback_line : Console → ℕ → Console
clear_scrollback_line s logical_line = record s {
  scrollback = λ p i.
      if (physical_line logical_line == p) && ltb i console_width
      then record { ch = 32; color = s.current_color }
      else s.scrollback p i;
}

unfoldable pub vga_entry : ℕ → ℕ → ℕ
vga_entry ch color = bit_or (color * 256) ch

-- `hardware_cursor_set`: the position that it sets.
unfoldable pub hardware_cursor_set : ℕ → ℕ → ℕ
hardware_cursor_set row col =
    let row' = if leb console_height row then console_height - 1 else row in
    let col' = if leb console_width col then console_width - 1 else col in
    row' * console_width + col'

-- The first two tests of `render_viewport`.
unfoldable pub clamp_viewport : ℕ → ℕ → ℕ
clamp_viewport current_line viewport_top =
    let oldest = scrollback_oldest_line current_line in
    let bottom = scrollback_bottom_top current_line in
    let top = if ltb viewport_top oldest then oldest else viewport_top in
    if ltb bottom top then bottom else top

-- What the loop of `render_viewport` writes for a row and a column.
unfoldable pub rendered : Console → ℕ → ℕ → ℕ
rendered s row col =
    let logical = add64 s.viewport_top row in
    let cell = s.scrollback (physical_line logical) col in
    if leb (scrollback_oldest_line s.current_line) logical && leb logical s.current_line
    then vga_entry cell.ch cell.color
    else vga_entry 32 s.current_color

unfoldable pub draw : Console → Console
draw s = record s {
  vga_memory = λ i.
      if ltb i (console_height * console_width)
      then rendered s (i / console_width) (i % console_width)
      else s.vga_memory i;
  cursor =
      if leb s.viewport_top s.current_line
        && ltb s.current_line (add64 s.viewport_top console_height)
      then hardware_cursor_set (s.current_line - s.viewport_top) s.current_col
      else hardware_cursor_set (console_height - 1) (console_width - 1);
}

unfoldable pub render_viewport : Console → Console
render_viewport s = draw (record s { viewport_top = clamp_viewport s.current_line s.viewport_top })

unfoldable pub viewport_is_bottom : Console → Bool
viewport_is_bottom s = s.viewport_top == scrollback_bottom_top s.current_line

unfoldable pub move_to_next_line : Console → Console
move_to_next_line s =
    let moved = record s { current_line = add64 s.current_line 1; current_col = 0 } in
    let cleared = clear_scrollback_line moved moved.current_line in
    record cleared {
      viewport_top =
          if viewport_is_bottom cleared
          then scrollback_bottom_top cleared.current_line
          else cleared.viewport_top;
    }

-- The loop of `console_clear` over the lines below a number.
unfoldable pub clear_lines : ℕ → Console → Console
clear_lines zero s = s
clear_lines (suc n) s = clear_scrollback_line (clear_lines n s) n

unfoldable pub console_clear : Console → Console
console_clear s = render_viewport (
    clear_lines console_scrollback_lines (record s {
      current_line = 0;
      current_col = 0;
      viewport_top = 0;
      current_color = color_white_on_black;
    }))

abbrev pub console_set_color : Console → ℕ → Console
console_set_color s color = record s { current_color = color }

-- The statements of `console_put_char` for a backspace.
unfoldable pub erase_back : Console → Console
erase_back s =
    if ltb 0 s.current_col
    then record s {
      current_col = s.current_col - 1;
      scrollback =
          set_cell s.scrollback (physical_line s.current_line) (s.current_col - 1)
            (record { ch = 32; color = s.current_color });
    }
    else s

-- A cell is written and the column moves on.
unfoldable pub put_cell : Console → ℕ → Console
put_cell s c = record s {
  current_col = s.current_col + 1;
  scrollback =
      set_cell s.scrollback (physical_line s.current_line) s.current_col
        (record { ch = c; color = s.current_color });
}

abbrev pub wrap_line : Console → Console
wrap_line s = if leb console_width s.current_col then move_to_next_line s else s

abbrev pub to_bottom : Console → Console
to_bottom s = record s { viewport_top = scrollback_bottom_top s.current_line }

-- `console_put_char` but for a tab.
unfoldable pub put_char : Console → ℕ → Console
put_char s c =
    if c == 10
    then render_viewport (move_to_next_line (to_bottom s))
    else if c == 13
    then render_viewport (record (to_bottom s) { current_col = 0 })
    else if c == 8
    then render_viewport (erase_back (to_bottom s))
    else render_viewport (wrap_line (put_cell (wrap_line (to_bottom s)) c))

unfoldable pub console_put_char : Console → ℕ → Console
console_put_char s c =
    if c == 9
    then put_char (put_char (put_char (put_char (to_bottom s) 32) 32) 32) 32
    else put_char s c

unfoldable pub console_set_cursor : Console → ℕ → ℕ → Console
console_set_cursor s row col =
    let top = scrollback_bottom_top s.current_line in
    render_viewport (record s {
      viewport_top = top;
      current_line = add64 top (if leb console_height row then console_height - 1 else row);
      current_col = if leb console_width col then console_width - 1 else col;
    })

-- The row and the column that `console_get_cursor` stores.
unfoldable pub console_get_cursor : Console → ℕ × ℕ
console_get_cursor s =
    let visible_row =
      if leb s.viewport_top s.current_line then s.current_line - s.viewport_top else 0 in
    (if leb console_height visible_row then console_height - 1 else visible_row, s.current_col)

unfoldable pub console_scroll_page_up : Console → Console
console_scroll_page_up s =
    let oldest = scrollback_oldest_line s.current_line in
    if leb s.viewport_top oldest
    then render_viewport (record s { viewport_top = oldest })
    else if ltb s.viewport_top (add64 oldest console_height)
    then render_viewport (record s { viewport_top = oldest })
    else render_viewport (record s { viewport_top = s.viewport_top - console_height })

unfoldable pub console_scroll_page_down : Console → Console
console_scroll_page_down s =
    let bottom = scrollback_bottom_top s.current_line in
    if leb bottom s.viewport_top
    then render_viewport (record s { viewport_top = bottom })
    else render_viewport
        (record s { viewport_top = min_u64 (add64 s.viewport_top console_height) bottom })

unfoldable pub console_scroll_line_up : Console → Console
console_scroll_line_up s =
    let oldest = scrollback_oldest_line s.current_line in
    if leb s.viewport_top oldest
    then render_viewport (record s { viewport_top = oldest })
    else render_viewport (record s { viewport_top = s.viewport_top - 1 })

unfoldable pub console_scroll_line_down : Console → Console
console_scroll_line_down s =
    let bottom = scrollback_bottom_top s.current_line in
    if leb bottom s.viewport_top
    then render_viewport (record s { viewport_top = bottom })
    else render_viewport (record s { viewport_top = add64 s.viewport_top 1 })
