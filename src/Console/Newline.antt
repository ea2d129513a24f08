-- ===== src/Console/Newline.antt =====
-- kernel/console.c: move_to_next_line tests whether the viewport is at the bottom when the line has
-- already been moved on.
use my_os.Prelude.{◌+◌, ◌-◌, ◌≤◌, ◌<◌, ◌≡◌, false, arith, add64, u64_mod, ltb}
use my_os.Console.{
  Console, clamp_viewport, hardware_cursor_set, draw, render_viewport, viewport_is_bottom,
  move_to_next_line, clear_scrollback_line, to_bottom, put_char, console_put_char,
}
use my_os.Console.Bounds.{bottom_of, clamp_viewport_of}

module _ (s : Console) (full : 24 ≤ s.current_line) (small : s.current_line + 26 < u64_mod) where
  abbrev moved : Console
  moved = move_to_next_line (to_bottom s)

  moved_line : moved.current_line ≡ s.current_line + 1
  unfolding move_to_next_line clear_scrollback_line
  moved_line = omega arith

  moved_top : moved.viewport_top ≡ s.current_line + 1 - 25
  unfolding move_to_next_line clear_scrollback_line viewport_is_bottom
  moved_top =
      let before = bottom_of s.current_line (omega arith) in
      let line : add64 s.current_line 1 ≡ s.current_line + 1 = omega arith in
      let after = bottom_of (s.current_line + 1) (omega arith) in
      rw (line, after, before) (ground arith)

  rendered_top : (render_viewport moved).viewport_top ≡ s.current_line + 1 - 25
  unfolding render_viewport draw
  rendered_top =
      let line = moved_line in
      let top = moved_top in
      let e = clamp_viewport_of moved.current_line moved.viewport_top (omega arith) in
      ground (arith, e)

  rendered_cursor : (render_viewport moved).cursor ≡ 1999
  unfolding render_viewport draw hardware_cursor_set
  rendered_cursor =
      let line = moved_line in
      let top : clamp_viewport moved.current_line moved.viewport_top ≡ s.current_line + 1 - 25 =
        rendered_top in
      let past : ltb moved.current_line
            (add64 (clamp_viewport moved.current_line moved.viewport_top) 25)
          ≡ false =
        ground arith in
      rw past (ground arith)

  -- From the 25th line on, and below line 2 ^ 64 - 26, a newline leaves the viewport where the
  -- line before was its last row: the new line, where the next character goes, lies just below
  -- what the display shows, and the hardware cursor stands in the last cell of the display.
  pub newline-Below :
      ((console_put_char s 10).current_line ≡ (console_put_char s 10).viewport_top + 25)
      × ((console_put_char s 10).cursor ≡ 1999)
  unfolding console_put_char put_char render_viewport draw
  newline-Below = (omega (arith, moved_line, rendered_top), rendered_cursor)
