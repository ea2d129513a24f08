-- ===== src/Fd/Tests.antt =====
-- Examples on the table after start-up with a terminal.
use my_os.Prelude.{ℕ, ◌≡◌, refl, true, List, some, arith, set, min, ◌-◌}
use my_os.Fd.{FdEntry, Node, file, device, vfs_entry, fd_init, fd_open, first_unused}
use my_os.Fd.Table.{IsValid, Opens, fd_open-Opens}

abbrev tty0 : Node
tty0 = record { address = 4096; node_type = device }

abbrev readme : Node
readme = record { address = 8192; node_type = file }

abbrev table : List FdEntry
table = set (fd_init (some tty0)) 3 (vfs_entry readme true true)

table-IsValid : IsValid table
unfolding fd_init
table-IsValid = record { sized = refl; standard = λ i h. ground arith }

fd_open-Opens_example : Opens readme table (fd_open (some readme) table)
unfolding fd_init
fd_open-Opens_example = fd_open-Opens readme table refl refl

opens_four : (fd_open (some readme) table).0 ≡ some 4
unfolding fd_init fd_open first_unused
opens_four = refl

-- A node of 100 bytes.
abbrev hundred : Node → ℕ → ℕ → ℕ
hundred node offset size = min size (100 - offset)
