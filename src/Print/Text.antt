-- ===== src/Print/Text.antt =====
-- kernel/print.c: print, on the console and in the log.
use mathlib.Core.List.{append_assoc, append-nil}
use my_os.Prelude.{
  ℕ, ◌+◌, ◌*◌, ◌<◌, ◌≡◌, refl, sym, ap, ◌∙◌, subst, List, [], ◌∷◌, ◌++◌, length, arith, u64_mod,
}
use my_os.Console.{console_put_char}
use my_os.Console.Bounds.{InView, console_put_char-Moves}
use my_os.Console.Text.{Page, page_put_char}
use my_os.Console.Screen.{Follows, console_put_char-Follows}
use my_os.Klog.{klog_dump}
use my_os.Klog.History.{
  IsValid, contents, last_of, write_all, write_all-contents, klog_dump-contents,
}
use my_os.Print.{Outputs, print_char, print}

-- A text put onto a page.
unfoldable pub page_print : ℕ → Page → List ℕ → Page
page_print color p [] = p
page_print color p (c ∷ cs) = page_print color (page_put_char color c p) cs

-- What the three outputs show of a text.
abbrev Printed : ℕ → Outputs → Page → List ℕ → Outputs → Type 0
Printed color o p cs o' =
    Follows color o'.console (page_print color p cs)
    × (o'.serial ≡ o.serial ++ cs)
    × (o'.klog ≡ write_all o.klog cs)

print-Printed :
    (cs : List ℕ) (color : ℕ) (o : Outputs) (p : Page)
    → Follows color o.console p
    → InView o.console
    → o.console.current_line + 24 * length cs + 30 < u64_mod
    → Printed color o p cs (print o cs)
unfolding print print_char page_print write_all
print-Printed [] color o p follows v small = (follows, sym (append-nil o.serial), refl)
print-Printed (c ∷ cs) color o p (shows, displays, same) v small =
    let step =
      subst (λ k. Follows k (console_put_char o.console c) (page_put_char k c p)) same
        (console_put_char-Follows o.console p shows v (omega arith) c) in
    let (v', line) = console_put_char-Moves o.console c v (omega arith) in
    let (console, serial, klog) =
      print-Printed cs color (print_char o c) (page_put_char color c p) step v' (omega arith) in
    (console, serial ∙ append_assoc o.serial (c ∷ []) cs, klog)

-- What is seen of a text behind the characters printed before: on the console, on the serial line,
-- and in a dump of the log.
abbrev pub Seen : ℕ → Outputs → Page → List ℕ → List ℕ → Outputs → Type 0
Seen color o p history cs o' =
    Follows color o'.console (page_print color p cs)
    × (o'.serial ≡ o.serial ++ cs)
    × (klog_dump o'.klog ≡ last_of (history ++ cs))

-- While the console keeps and displays a text, with its column and viewport in range and its line
-- below 2 ^ 64 by at least 31 and 24 more for each character, and the log is valid and holds the
-- last 8192 characters of a history: print of any characters leaves the console keeping and
-- displaying the text with these characters put behind it, sends each of them to the serial line
-- in order, and leaves a log whose dump is the last 8192 characters of the history and these.
pub print-Seen :
    (cs history : List ℕ) (color : ℕ) (o : Outputs) (p : Page)
    → Follows color o.console p
    → InView o.console
    → o.console.current_line + 24 * length cs + 30 < u64_mod
    → IsValid o.klog
    → contents o.klog ≡ last_of history
    → Seen color o p history cs (print o cs)
print-Seen cs history color o p follows v small valid held =
    let (console, serial, klog) = print-Printed cs color o p follows v small in
    let (valid', held') = write_all-contents cs o.klog history valid held in
    (console, serial, ap klog_dump klog ∙ klog_dump-contents (write_all o.klog cs) valid' ∙ held')
