-- ===== src/Console/Text.antt =====
-- kernel/console.c: the ring of 512 lines against a text of which no line is forgotten.
use my_os.Prelude.{
  ℕ, ◌+◌, ◌-◌, ◌%◌, ◌≤◌, ◌<◌, ◌≡◌, refl, inl, inr, true, false, ◌&&◌, arith, add64, u64_mod, ltb,
  leb, ◌==◌, ==_false, lt→ltb, le→leb, ==→eq, if◌then◌else◌, Bool-cases,
}
use my_os.Console.{
  Cell, Console, console_width, move_to_next_line, clear_scrollback_line, erase_back, put_cell,
  wrap_line,
}

-- A text, and the place of the next character.
pub record Page : Type 0 where
  pub text : ℕ → ℕ → Cell
  pub line : ℕ
  pub col : ℕ

abbrev pub write_at : (ℕ → ℕ → Cell) → ℕ → ℕ → Cell → ℕ → ℕ → Cell
write_at text line col cell l i = if (line == l) && (col == i) then cell else text l i

-- A new line is blank, in the colour of the moment.
unfoldable pub page_next_line : ℕ → Page → Page
page_next_line color p = record {
  text = λ l i. if p.line + 1 == l then record { ch = 32; color = color } else p.text l i;
  line = p.line + 1;
  col = 0;
}

-- A character is written, and a line that is full is left.
unfoldable pub page_put : ℕ → ℕ → Page → Page
page_put color c p =
    let p' : Page = record {
      text = write_at p.text p.line p.col (record { ch = c; color = color });
      line = p.line;
      col = p.col + 1;
    } in
    if p.col + 1 == console_width then page_next_line color p' else p'

unfoldable pub page_back : ℕ → Page → Page
page_back color p = if p.col == 0 then p else record {
  text = write_at p.text p.line (p.col - 1) (record { ch = 32; color = color });
  line = p.line;
  col = p.col - 1;
}

unfoldable pub page_char : ℕ → ℕ → Page → Page
page_char color c p =
    if c == 10
    then page_next_line color p
    else if c == 13
    then record p { col = 0 }
    else if c == 8
    then page_back color p
    else page_put color c p

unfoldable pub page_put_char : ℕ → ℕ → Page → Page
page_put_char color c p =
    if c == 9
    then page_char color 32 (page_char color 32 (page_char color 32 (page_char color 32 p)))
    else page_char color c p

-- The console is at the place of the text, and keeps its last 512 lines.
pub record Shows (s : Console) (p : Page) : Type 0 where
  pub at_line : s.current_line ≡ p.line
  pub at_col : s.current_col ≡ p.col
  pub same :
      (l i : ℕ)
      → l ≤ p.line
      → p.line < l + 512
      → i < console_width
      → s.scrollback (l % 512) i ≡ p.text l i

-- Among 512 lines that follow each other, no two share a line of the ring.
ring_line : (a l : ℕ) → l ≤ a → a < l + 512 → (a % 512 == l % 512) ≡ (a == l)
ring_line a l low high = ground arith

module _ (s : Console) (p : Page) (shows : Shows s p) (small : s.current_line + 1 < u64_mod) where
  moved_line : (move_to_next_line s).current_line ≡ p.line + 1
  unfolding move_to_next_line clear_scrollback_line
  moved_line = let at = shows.at_line in omega arith

  moved_col : (move_to_next_line s).current_col ≡ 0
  unfolding move_to_next_line clear_scrollback_line
  moved_col = refl

  moved_cells :
      (q i : ℕ)
      → (move_to_next_line s).scrollback q i ≡ (
          if ((p.line + 1) % 512 == q) && ltb i console_width
          then record { ch = 32; color = s.current_color }
          else s.scrollback q i)
  unfolding move_to_next_line clear_scrollback_line
  moved_cells q i =
      let at : add64 s.current_line 1 ≡ p.line + 1 = (let at = shows.at_line in omega arith) in
      rw at refl

  pub next_line-Shows : Shows (move_to_next_line s) (page_next_line s.current_color p)
  unfolding page_next_line
  next_line-Shows = record {
    at_line = moved_line;
    at_col = moved_col;
    same = λ l i low high in_row.
        let cells = moved_cells (l % 512) i in
        let ring = ring_line (p.line + 1) l low high in
        let row = lt→ltb i console_width in_row in
        let kept = shows.same l i in
        elim (Bool-cases (p.line + 1 == l)) [
          | inl new ↦ rw (cells, ring, row, new) refl
          | inr old ↦
              rw (cells, ring, old)
                (kept (let no = ==_false (p.line + 1) l old in omega arith) (omega arith) in_row)
        ];
  }

  pub put_cell-Shows :
      (c : ℕ)
      → Shows (put_cell s c) (record {
        text = write_at p.text p.line p.col (record { ch = c; color = s.current_color });
        line = p.line;
        col = p.col + 1;
      })
  unfolding put_cell
  put_cell-Shows c = record {
    at_line = shows.at_line;
    at_col = let at = shows.at_col in omega arith;
    same = λ l i low high in_row.
        let ring = ring_line p.line l low high in
        let kept = shows.same l i low high in_row in
        rw (shows.at_line, shows.at_col, ring, kept) refl;
  }

  pub erase_back-Shows : Shows (erase_back s) (page_back s.current_color p)
  unfolding erase_back page_back
  erase_back-Shows =
      let at = shows.at_col in
      elim (Bool-cases (p.col == 0)) [
        | inl first ↦
            let zero_col = ==→eq p.col 0 first in
            let test : ltb 0 s.current_col ≡ false = ground arith in rw (test, first) shows
        | inr later ↦
            let some_col = ==_false p.col 0 later in
            let test : ltb 0 s.current_col ≡ true = lt→ltb 0 s.current_col (omega arith) in
            rw (test, later)
              (record {
                at_line = shows.at_line;
                at_col = omega arith;
                same = λ l i low high in_row.
                    let ring = ring_line p.line l low high in
                    let kept = shows.same l i low high in_row in
                    rw (shows.at_line, shows.at_col, ring, kept) refl;
              })
      ]

  pub wrap_line-Shows :
      s.current_col ≤ console_width
      → Shows (wrap_line s) (if p.col == console_width then page_next_line s.current_color p else p)
  wrap_line-Shows fits =
      let at = shows.at_col in
      elim (Bool-cases (p.col == console_width)) [
        | inl full ↦
            let is_full = ==→eq p.col console_width full in
            let test : leb console_width s.current_col ≡ true =
              le→leb console_width s.current_col (omega arith) in
            rw (test, full) next_line-Shows
        | inr room ↦
            let not_full = ==_false p.col console_width room in
            let test : leb console_width s.current_col ≡ false = ground arith in
            rw (test, room) shows
      ]
