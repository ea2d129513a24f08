-- ===== src/Command/Tests.antt =====
-- kernel/command.c: examples on the first command.
use my_os.Prelude.{ℕ, ◌≡◌, ◌⊎◌, refl, true, false, List, [], ◌∷◌, some, arith}
use my_os.Registry.{Distinct}
use my_os.Command.{
  Commands, command_init, command_register, command_execute, command_skip_spaces, calls,
}
use my_os.Command.Execute.{IsValid, command_register-Registers}

abbrev echo_name : List ℕ
echo_name = 101 ∷ 99 ∷ 104 ∷ 111 ∷ []

init-IsValid : IsValid command_init
unfolding command_init Distinct
init-IsValid = record { words = tt; distinct = tt; counted = refl }

command_register-Registers_example :
    IsValid (command_register true true false (some echo_name) (some []) 4096 command_init).1
    × ((command_register true true true (some echo_name) (some []) 4096 command_init
          ≡ (false, command_init))
        ⊎ ((r' : Commands) × (command_register true true true
                (some echo_name)
                (some [])
                4096
                command_init
              ≡ (true, r'))
            × (command_execute (32 ∷ 32 ∷ 101 ∷ 99 ∷ 104 ∷ 111 ∷ 32 ∷ 104 ∷ 105 ∷ []) r'
                ≡ calls 4096 (command_skip_spaces (104 ∷ 105 ∷ [])))))
command_register-Registers_example =
    command_register-Registers 101 (99 ∷ 104 ∷ 111 ∷ []) [] (104 ∷ 105 ∷ []) 4096 2 command_init
      init-IsValid (refl, (refl, (refl, (refl, tt)))) true true false (omega arith)
