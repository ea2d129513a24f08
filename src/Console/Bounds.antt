-- ===== src/Console/Bounds.antt =====
-- kernel/console.c: the range of the column and of the viewport.
use my_os.Prelude.{
  ℕ, zero, suc, ◌+◌, ◌-◌, ◌≤◌, ◌<◌, ◌≡◌, refl, inl, inr, Bool, true, false, List, [], ◌∷◌, length,
  ◌*◌, ◌^◌, arith, add64, u64_mod, ltb, leb, ◌==◌, if◌then◌else◌, Bool-cases,
}
use my_os.Console.{
  Console, console_width, console_height, console_scrollback_lines, color_white_on_black,
  scrollback_oldest_line, scrollback_bottom_top, clamp_viewport, draw, render_viewport,
  move_to_next_line, clear_scrollback_line, clear_lines, console_clear, console_set_color,
  erase_back, put_cell, wrap_line, to_bottom, min_u64, put_char, console_put_char,
  console_set_cursor, console_scroll_page_up, console_scroll_page_down, console_scroll_line_up,
  console_scroll_line_down,
}

pub oldest_of : (line : ℕ) → line + 1 < u64_mod → scrollback_oldest_line line ≡ line + 1 - 512
unfolding scrollback_oldest_line
oldest_of line h = ground arith

pub bottom_of : (line : ℕ) → line + 1 < u64_mod → scrollback_bottom_top line ≡ line + 1 - 25
unfolding scrollback_bottom_top
bottom_of line h = ground arith

-- The column is on the screen, and the viewport starts no further than 511 lines in front of the
-- current line, at line 0 where there are fewer, and no later than the place where the current line
-- is the last row.
pub record InView (s : Console) : Type 0 where
  pub column : s.current_col < console_width
  pub kept : s.current_line + 1 - 512 ≤ s.viewport_top
  pub above : s.viewport_top ≤ s.current_line + 1 - 25

pub clamp_viewport_of :
    (line top : ℕ)
    → line + 1 < u64_mod
    → clamp_viewport line top ≡ (
        if ltb top (line + 1 - 512)
        then line + 1 - 512
        else if ltb (line + 1 - 25) top
        then line + 1 - 25
        else top)
unfolding clamp_viewport
clamp_viewport_of line top h =
    let o = oldest_of line h in let b = bottom_of line h in ground (arith, o, b)

pub render_viewport-InView :
    (s : Console)
    → s.current_line + 1 < u64_mod
    → s.current_col < console_width
    → InView (render_viewport s)
unfolding render_viewport draw
render_viewport-InView s h c =
    let e = clamp_viewport_of s.current_line s.viewport_top h in ground (arith, e)

-- The last line and the column after a new line.
move_to_next_line-line : (s : Console) → (move_to_next_line s).current_line ≡ add64 s.current_line 1
unfolding move_to_next_line clear_scrollback_line
move_to_next_line-line s = refl

move_to_next_line-col : (s : Console) → (move_to_next_line s).current_col ≡ 0
unfolding move_to_next_line clear_scrollback_line
move_to_next_line-col s = refl

clear_lines-line : (n : ℕ) (s : Console) → (clear_lines n s).current_line ≡ s.current_line
unfolding clear_lines clear_scrollback_line
clear_lines-line zero s = refl
clear_lines-line (suc n) s = clear_lines-line n s

clear_lines-col : (n : ℕ) (s : Console) → (clear_lines n s).current_col ≡ s.current_col
unfolding clear_lines clear_scrollback_line
clear_lines-col zero s = refl
clear_lines-col (suc n) s = clear_lines-col n s

-- The line that the console is on afterwards, at most 1 further on.
abbrev Advances : Console → Console → Type 0
Advances s s' = InView s' × (s'.current_line ≤ s.current_line + 1)

pub wrap_line-col :
    (s : Console) → s.current_col ≤ console_width → (wrap_line s).current_col < console_width
wrap_line-col s h = let col = move_to_next_line-col s in ground (arith, col)

pub wrap_line-line :
    (s : Console) → s.current_line + 1 < u64_mod → (wrap_line s).current_line ≤ s.current_line + 1
wrap_line-line s h = let line = move_to_next_line-line s in ground (arith, line)

pub wrap_line-room : (s : Console) → s.current_col < console_width → wrap_line s ≡ s
wrap_line-room s h = ground arith

rendered-Advances :
    (s t : Console)
    → s.current_line + 2 < u64_mod
    → t.current_line ≤ s.current_line + 1
    → t.current_col < console_width
    → Advances s (render_viewport t)
unfolding render_viewport draw
rendered-Advances s t small line col = (render_viewport-InView t (omega arith) col, line)

module _ (s : Console) (v : InView s) (small : s.current_line + 2 < u64_mod) where
  put_line : Advances s (render_viewport (move_to_next_line (to_bottom s)))
  put_line =
      let line = move_to_next_line-line (to_bottom s) in
      let col = move_to_next_line-col (to_bottom s) in
      rendered-Advances s (move_to_next_line (to_bottom s)) small (omega arith) (omega arith)

  put_erased : Advances s (render_viewport (erase_back (to_bottom s)))
  unfolding erase_back
  put_erased =
      let col = v.column in
      rendered-Advances s (erase_back (to_bottom s)) small (ground arith) (ground arith)

  put_wrapped :
      (c : ℕ) → Advances s (render_viewport (wrap_line (put_cell (wrap_line (to_bottom s)) c)))
  unfolding put_cell
  put_wrapped c =
      let col = v.column in
      let room = wrap_line-room (to_bottom s) col in
      rw room (
        rendered-Advances s (wrap_line (put_cell (to_bottom s) c)) small
          (wrap_line-line (put_cell (to_bottom s) c) (omega arith))
          (wrap_line-col (put_cell (to_bottom s) c) (omega arith)))

  pub put_char-Advances : (c : ℕ) → Advances s (put_char s c)
  unfolding put_char
  put_char-Advances c =
      let a = put_line in
      let col = v.column in
      let b =
        rendered-Advances s (record (to_bottom s) { current_col = 0 }) small (omega arith)
          (omega arith) in
      let e = put_erased in
      let d = put_wrapped c in
      elim (Bool-cases (c == 10)) [
        | inl is_line ↦ rw is_line a
        | inr no_line ↦ elim (Bool-cases (c == 13)) [
          | inl is_return ↦ rw (no_line, is_return) b
          | inr no_return ↦ elim (Bool-cases (c == 8)) [
            | inl is_back ↦ rw (no_line, no_return, is_back) e
            | inr no_back ↦ rw (no_line, no_return, no_back) d
          ]
        ]
      ]

  pub tab_start : InView (to_bottom s)
  tab_start =
      let b = bottom_of s.current_line (omega arith) in
      record { column = v.column; kept = omega arith; above = omega arith }

-- The viewport and the column stay in range, and the line moves on by at most 24.
abbrev pub Moves : Console → Console → Type 0
Moves s s' = InView s' × (s'.current_line ≤ s.current_line + 24)

-- A tab is four spaces.
pub console_put_char-Moves :
    (s : Console) (c : ℕ) → InView s → s.current_line + 5 < u64_mod → Moves s (console_put_char s c)
unfolding console_put_char
console_put_char-Moves s c v small =
    let (v1, l1) = put_char-Advances (to_bottom s) (tab_start s v (omega arith)) (omega arith) 32 in
    let (v2, l2) = put_char-Advances (put_char (to_bottom s) 32) v1 (omega arith) 32 in
    let (v3, l3) =
      put_char-Advances (put_char (put_char (to_bottom s) 32) 32) v2 (omega arith) 32 in
    let (v4, l4) =
      put_char-Advances (put_char (put_char (put_char (to_bottom s) 32) 32) 32) v3 (omega arith)
        32 in
    let (plain, l) = put_char-Advances s v (omega arith) c in
    elim (Bool-cases (c == 9)) [
      | inl is_tab ↦ rw is_tab (v4, omega arith)
      | inr no_tab ↦ rw no_tab (plain, omega arith)
    ]

-- The operations of the console.
pub data Operation : Type 0 where
  clear page_up page_down line_up line_down : Operation
  put_character color_to : ℕ → Operation
  cursor_to : ℕ → ℕ → Operation

pub perform : Console → Operation → Console
perform s clear = console_clear s
perform s page_up = console_scroll_page_up s
perform s page_down = console_scroll_page_down s
perform s line_up = console_scroll_line_up s
perform s line_down = console_scroll_line_down s
perform s (put_character c) = console_put_char s c
perform s (color_to color) = console_set_color s color
perform s (cursor_to row col) = console_set_cursor s row col

rendered-Moves :
    (s t : Console)
    → t.current_line + 1 < u64_mod
    → t.current_line ≤ s.current_line + 24
    → t.current_col < console_width
    → Moves s (render_viewport t)
unfolding render_viewport draw
rendered-Moves s t small line col = (render_viewport-InView t small col, line)

cleared-Moves : (s : Console) → Moves s (console_clear s)
unfolding console_clear
cleared-Moves s =
    let start : Console = record s {
      current_line = 0;
      current_col = 0;
      viewport_top = 0;
      current_color = color_white_on_black;
    } in
    let line = clear_lines-line console_scrollback_lines start in
    let col = clear_lines-col console_scrollback_lines start in
    rendered-Moves s (clear_lines console_scrollback_lines start) (omega arith) (omega arith)
      (omega arith)

-- The end of the functions that scroll.
scrolled-Moves :
    (s : Console)
    → InView s
    → s.current_line + 1 < u64_mod
    → (top : ℕ) → Moves s (render_viewport (record s { viewport_top = top }))
scrolled-Moves s v small top =
    rendered-Moves s (record s { viewport_top = top }) small (omega arith) v.column

cursor-Moves :
    (s : Console) (row col : ℕ)
    → s.current_line + 25 < u64_mod
    → Moves s (console_set_cursor s row col)
unfolding console_set_cursor
cursor-Moves s row col small =
    let b = bottom_of s.current_line (omega arith) in
    rendered-Moves s
      (record s {
        viewport_top = scrollback_bottom_top s.current_line;
        current_line =
            add64 (scrollback_bottom_top s.current_line)
              (if leb console_height row then console_height - 1 else row);
        current_col = if leb console_width col then console_width - 1 else col;
      })
      (ground arith) (ground arith) (ground arith)

-- Both branches of a test.
if-Moves :
    (s : Console) {t t' : Console} (b : Bool)
    → Moves s t
    → Moves s t'
    → Moves s (if b then t else t')
if-Moves s true m m' = m
if-Moves s false m m' = m'

pub perform-Moves :
    (s : Console) (op : Operation)
    → InView s
    → s.current_line + 25 < u64_mod
    → Moves s (perform s op)
unfolding perform console_scroll_page_up console_scroll_page_down console_scroll_line_up
    console_scroll_line_down
perform-Moves s clear v small = cleared-Moves s
perform-Moves s page_up v small =
    let o = scrollback_oldest_line s.current_line in
    let to = scrolled-Moves s v (omega arith) in
    if-Moves s (leb s.viewport_top o) (to o) (
      if-Moves s (ltb s.viewport_top (add64 o console_height)) (to o)
        (to (s.viewport_top - console_height)))
perform-Moves s page_down v small =
    let b = scrollback_bottom_top s.current_line in
    let to = scrolled-Moves s v (omega arith) in
    if-Moves s (leb b s.viewport_top) (to b) (to (min_u64 (add64 s.viewport_top console_height) b))
perform-Moves s line_up v small =
    let o = scrollback_oldest_line s.current_line in
    let to = scrolled-Moves s v (omega arith) in
    if-Moves s (leb s.viewport_top o) (to o) (to (s.viewport_top - 1))
perform-Moves s line_down v small =
    let b = scrollback_bottom_top s.current_line in
    let to = scrolled-Moves s v (omega arith) in
    if-Moves s (leb b s.viewport_top) (to b) (to (add64 s.viewport_top 1))
perform-Moves s (put_character c) v small = console_put_char-Moves s c v (omega arith)
perform-Moves s (color_to color) v small =
    (record { column = v.column; kept = v.kept; above = v.above }, omega arith)
perform-Moves s (cursor_to row col) v small = cursor-Moves s row col small

unfoldable pub perform_all : Console → List Operation → Console
perform_all s [] = s
perform_all s (op ∷ ops) = perform_all (perform s op) ops

perform_all-InView :
    (ops : List Operation) (s : Console)
    → InView s
    → s.current_line + 24 * length ops + 25 < u64_mod
    → InView (perform_all s ops)
unfolding perform_all
perform_all-InView [] s v small = v
perform_all-InView (op ∷ ops) s v small =
    let (v', line) = perform-Moves s op v (omega arith) in
    perform_all-InView ops (perform s op) v' (omega arith)

clear-line : (s : Console) → (console_clear s).current_line ≡ 0
unfolding console_clear render_viewport draw
clear-line s = clear_lines-line console_scrollback_lines (record s {
  current_line = 0;
  current_col = 0;
  viewport_top = 0;
  current_color = color_white_on_black;
})

-- From console_clear on, and for any sequence of fewer than 2 ^ 59 of characters written, colours
-- set, cursor movements and scrolling up and down by lines and by pages, the column stays below 80,
-- and the first line of the viewport stays between the line 511 in front of the current one, or line
-- 0 where there are fewer, and the place where the current line is the last row, or line 0.
pub perform_all_clear-InView :
    (s : Console) (ops : List Operation)
    → length ops < 2 ^ 59
    → InView (perform_all (console_clear s) ops)
perform_all_clear-InView s ops few =
    let (v, l) = cleared-Moves s in
    let line = clear-line s in perform_all-InView ops (console_clear s) v (omega arith)
