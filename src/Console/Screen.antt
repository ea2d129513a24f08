-- ===== src/Console/Screen.antt =====
-- kernel/console.c: console_put_char, the text and the display.
use my_os.Prelude.{
  ℕ, zero, suc, ◌+◌, ◌-◌, ◌*◌, ◌/◌, ◌%◌, ◌≤◌, ◌<◌, ◌≡◌, refl, inl, inr, true, arith, add64, u64_mod,
  leb, ◌==◌, lt→ltb, leb→le, ◌∙◌, subst, le→leb, if◌then◌else◌, Bool-cases,
}
use my_os.Console.{
  Console, console_width, vga_entry, rendered, clamp_viewport, draw, render_viewport,
  move_to_next_line, clear_scrollback_line, erase_back, put_cell, wrap_line, to_bottom, put_char,
  console_put_char, scrollback_oldest_line,
}
use my_os.Console.Bounds.{
  InView, oldest_of, clamp_viewport_of, render_viewport-InView, wrap_line-room, wrap_line-line,
  wrap_line-col, put_char-Advances, tab_start,
}
use my_os.Console.Text.{
  Page, Shows, write_at, page_next_line, page_put, page_back, page_char, page_put_char,
  next_line-Shows, put_cell-Shows, erase_back-Shows, wrap_line-Shows,
}

-- What the display shows of a text from a line on.
abbrev pub on_screen : Page → ℕ → ℕ → ℕ → ℕ → ℕ
on_screen p color top row col =
    if leb (top + row) p.line
    then vga_entry (p.text (top + row) col).ch (p.text (top + row) col).color
    else vga_entry 32 color

-- The display shows the viewport of the text.
pub Displays : Console → Page → Type 0
Displays s p =
    (row col : ℕ)
    → row < 25
    → col < 80
    → s.vga_memory (row * 80 + col) ≡ on_screen p s.current_color s.viewport_top row col

render-Shows : (s : Console) (p : Page) → Shows s p → Shows (render_viewport s) p
unfolding render_viewport draw
render-Shows s p shows = record {
  at_line = shows.at_line;
  at_col = shows.at_col;
  same = shows.same;
}

clamped-kept :
    (s : Console)
    → s.current_line + 1 < u64_mod
    → s.current_line + 1 - 512 ≤ clamp_viewport s.current_line s.viewport_top
clamped-kept s small =
    let e = clamp_viewport_of s.current_line s.viewport_top small in ground (arith, e)

clamped-above :
    (s : Console)
    → s.current_line + 1 < u64_mod
    → clamp_viewport s.current_line s.viewport_top ≤ s.current_line
clamped-above s small =
    let e = clamp_viewport_of s.current_line s.viewport_top small in ground (arith, e)

draw-cell :
    (s : Console) (row col : ℕ)
    → row < 25
    → col < 80
    → (draw s).vga_memory (row * 80 + col) ≡ rendered s row col
unfolding draw
draw-cell s row col row_in col_in =
    let inside = lt→ltb (row * 80 + col) 2000 (omega arith) in
    let at_row : (row * 80 + col) / 80 ≡ row = omega arith in
    let at_col : (row * 80 + col) % 80 ≡ col = omega arith in rw (inside, at_row, at_col) refl

rendered-text :
    (s : Console) (p : Page) (row col : ℕ)
    → Shows s p
    → s.current_line + 1 - 512 ≤ s.viewport_top
    → s.viewport_top ≤ s.current_line
    → s.current_line + 25 < u64_mod
    → row < 25
    → col < 80
    → rendered s row col ≡ on_screen p s.current_color s.viewport_top row col
unfolding rendered
rendered-text s p row col shows kept above small row_in col_in =
    let o = oldest_of s.current_line (omega arith) in
    let at : add64 s.viewport_top row ≡ s.viewport_top + row = omega arith in
    let line = shows.at_line in
    let from : leb (scrollback_oldest_line s.current_line) (s.viewport_top + row) ≡ true =
      le→leb _ _ (omega arith) in
    elim (Bool-cases (leb (s.viewport_top + row) p.line)) [
      | inl written ↦
          let below = leb→le (s.viewport_top + row) p.line written in
          let cell = shows.same (s.viewport_top + row) col below (omega arith) col_in in
          rw (at, from, line, written, cell) refl
      | inr blank ↦ rw (at, from, line, blank) refl
    ]

render-Displays :
    (s : Console) (p : Page)
    → Shows s p
    → s.current_line + 25 < u64_mod
    → s.current_col < console_width
    → Displays (render_viewport s) p
unfolding Displays render_viewport draw
render-Displays s p shows small fits row col row_in col_in =
    let v = render_viewport-InView s (omega arith) fits in
    let s' : Console = record s { viewport_top = clamp_viewport s.current_line s.viewport_top } in
    draw-cell s' row col row_in col_in
    ∙ rendered-text s' p row col
        (record { at_line = shows.at_line; at_col = shows.at_col; same = shows.same })
        (clamped-kept s (omega arith)) (clamped-above s (omega arith)) small row_in col_in

-- The console keeps and displays a text, in a colour.
abbrev pub Follows : ℕ → Console → Page → Type 0
Follows color s p = Shows s p × Displays s p × (s.current_color ≡ color)

rendered-Follows :
    (s : Console) (p : Page) (color : ℕ)
    → Shows s p
    → s.current_line + 25 < u64_mod
    → s.current_col < console_width
    → s.current_color ≡ color
    → Follows color (render_viewport s) p
unfolding render_viewport draw
rendered-Follows s p color shows small fits same =
    (render-Shows s p shows, render-Displays s p shows small fits, same)

wrap_line-color : (s : Console) → (wrap_line s).current_color ≡ s.current_color
unfolding move_to_next_line clear_scrollback_line
wrap_line-color s = ground arith

module _ (s : Console) (p : Page) (shows : Shows s p) (v : InView s)
    (small : s.current_line + 26 < u64_mod) where
  abbrev bottom : Console
  bottom = to_bottom s

  bottom-Shows : Shows bottom p
  bottom-Shows = record { at_line = shows.at_line; at_col = shows.at_col; same = shows.same }

  line-Follows :
      Follows s.current_color
        (render_viewport (move_to_next_line bottom))
        (page_next_line s.current_color p)
  unfolding move_to_next_line clear_scrollback_line
  line-Follows =
      rendered-Follows (move_to_next_line bottom) (page_next_line s.current_color p) s.current_color
        (next_line-Shows bottom p bottom-Shows (omega arith)) (omega arith) (omega arith) refl

  return-Follows :
      Follows s.current_color
        (render_viewport (record bottom { current_col = 0 }))
        (record p { col = 0 })
  return-Follows =
      rendered-Follows (record bottom { current_col = 0 }) (record p { col = 0 }) s.current_color
        (record { at_line = shows.at_line; at_col = refl; same = shows.same }) (omega arith)
        (omega arith) refl

  back-Follows :
      Follows s.current_color (render_viewport (erase_back bottom)) (page_back s.current_color p)
  unfolding erase_back
  back-Follows =
      let fits = v.column in
      rendered-Follows (erase_back bottom) (page_back s.current_color p) s.current_color
        (erase_back-Shows bottom p bottom-Shows (omega arith)) (ground arith) (ground arith)
        (ground arith)

  put-Follows :
      (c : ℕ)
      → Follows s.current_color
          (render_viewport (wrap_line (put_cell (wrap_line bottom) c)))
          (page_put s.current_color c p)
  unfolding page_put put_cell
  put-Follows c =
      let fits = v.column in
      let room = wrap_line-room bottom fits in
      let p' : Page = record {
        text = write_at p.text p.line p.col (record { ch = c; color = s.current_color });
        line = p.line;
        col = p.col + 1;
      } in
      let line = wrap_line-line (put_cell bottom c) (omega arith) in
      rw room (
        rendered-Follows (wrap_line (put_cell bottom c)) (page_put s.current_color c p)
          s.current_color
          (wrap_line-Shows (put_cell bottom c) p'
            (put_cell-Shows bottom p bottom-Shows (omega arith) c) (omega arith) (omega arith))
          (omega arith) (wrap_line-col (put_cell bottom c) (omega arith))
          (wrap_line-color (put_cell bottom c)))

  put_char-Follows :
      (c : ℕ) → Follows s.current_color (put_char s c) (page_char s.current_color c p)
  unfolding put_char page_char
  put_char-Follows c = elim (Bool-cases (c == 10)) [
    | inl is_line ↦ rw is_line line-Follows
    | inr no_line ↦ elim (Bool-cases (c == 13)) [
      | inl is_return ↦ rw (no_line, is_return) return-Follows
      | inr no_return ↦ elim (Bool-cases (c == 8)) [
        | inl is_back ↦ rw (no_line, no_return, is_back) back-Follows
        | inr no_back ↦ rw (no_line, no_return, no_back) (put-Follows c)
      ]
    ]
  ]

put_again :
    (color : ℕ) (s : Console) (p : Page) (c : ℕ)
    → Follows color s p
    → InView s
    → s.current_line + 26 < u64_mod
    → Follows color (put_char s c) (page_char color c p)
put_again color s p c (shows, displays, same) v small =
    subst (λ k. Follows k (put_char s c) (page_char k c p)) same
      (put_char-Follows s p shows v small c)

module _ (s : Console) (p : Page) (shows : Shows s p) (v : InView s)
    (small : s.current_line + 30 < u64_mod) where
  abbrev spaces : ℕ → Console
  spaces zero = to_bottom s
  spaces (suc n) = put_char (spaces n) 32

  tab-Follows : Follows s.current_color (spaces 4) (page_put_char s.current_color 9 p)
  unfolding page_put_char
  tab-Follows =
      let v0 = tab_start s v (omega arith) in
      let (v1, l1) = put_char-Advances (spaces 0) v0 (omega arith) 32 in
      let (v2, l2) = put_char-Advances (spaces 1) v1 (omega arith) 32 in
      let (v3, l3) = put_char-Advances (spaces 2) v2 (omega arith) 32 in
      let f1 =
        put_char-Follows (to_bottom s) p
          (record { at_line = shows.at_line; at_col = shows.at_col; same = shows.same }) v0
          (omega arith) 32 in
      let f2 = put_again s.current_color (spaces 1) _ 32 f1 v1 (omega arith) in
      let f3 = put_again s.current_color (spaces 2) _ 32 f2 v2 (omega arith) in
      put_again s.current_color (spaces 3) _ 32 f3 v3 (omega arith)

  -- While the console keeps the last 512 lines of a text at its place in it, its column and
  -- viewport are in range, and its line is below 2 ^ 64 - 30: console_put_char of any character
  -- keeps the last 512 lines of the text that an unbounded page has after the character, at the
  -- same place, and every cell of the display shows that text from the viewport on, and a blank
  -- below its last line.
  pub console_put_char-Follows :
      (c : ℕ) → Follows s.current_color (console_put_char s c) (page_put_char s.current_color c p)
  unfolding console_put_char page_put_char
  console_put_char-Follows c =
      let tab = tab-Follows in
      let plain = put_char-Follows s p shows v (omega arith) c in
      elim (Bool-cases (c == 9)) [ inl is_tab ↦ rw is_tab tab | inr no_tab ↦ rw no_tab plain ]
