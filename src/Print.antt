-- ===== src/Print.antt =====
-- kernel/print.c: every character goes to the console, to the serial line and to the kernel log.
-- `serial` is the list of the characters that serial_write_char was called with.
pub mod Decimal
pub mod Text
mod Tests
use my_os.Prelude.{
  ℕ, zero, suc, ◌+◌, ◌/◌, ◌%◌, List, [], ◌∷◌, ◌++◌, Option, none, some, ◌==◌, if◌then◌else◌,
}
use my_os.Console.{Console, console_put_char, console_set_color}
use my_os.Klog.{Klog, klog_write_char}

pub record Outputs : Type 0 where
  pub console : Console
  pub serial : List ℕ
  pub klog : Klog

unfoldable pub print_char : Outputs → ℕ → Outputs
print_char o c = record {
  console = console_put_char o.console c;
  serial = o.serial ++ (c ∷ []);
  klog = klog_write_char o.klog c;
}

unfoldable pub print : Outputs → List ℕ → Outputs
print o [] = o
print o (c ∷ s) = print (print_char o c) s

unfoldable pub print_color : Outputs → List ℕ → ℕ → Outputs
print_color o s color =
    let old_color = o.console.current_color in
    let printed = print (record o { console = console_set_color o.console color }) s in
    record printed { console = console_set_color printed.console old_color }

-- The first loop of `print_dec64`: `buffer`, from the last character back to the first. `none` is
-- that the fuel ran out.
unfoldable pub dec_digits : ℕ → ℕ → List ℕ → Option (List ℕ)
dec_digits zero value buffer = none
dec_digits (suc fuel) value buffer =
    let rest = dec_digits fuel (value / 10) ((48 + value % 10) ∷ buffer) in
    if value == 0 then some buffer else rest

-- The characters that `print_dec64` prints.
unfoldable pub dec64 : ℕ → ℕ → Option (List ℕ)
dec64 fuel value = if value == 0 then some (48 ∷ []) else dec_digits fuel value []
