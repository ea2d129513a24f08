-- ===== src/Command.antt =====
-- kernel/command.c: the commands of the shell, in the order in which they were registered. A handler
-- is the address of a function, 0 is the null pointer; what a handler does is outside of the model,
-- which says which handler is called, and on what.
pub mod Execute
mod Tests
use my_os.Prelude.{
  ℕ, ◌+◌, Bool, true, false, not, ◌&&◌, ◌||◌, List, [], ◌∷◌, ◌++◌, Option, none, some, add32, ◌==◌,
  if◌then◌else◌,
}
use my_os.Vfs.{str_equal}

-- `command_t`.
pub record Command : Type 0 where
  pub name : List ℕ
  pub description : List ℕ
  pub handler : ℕ

-- The static variables; the list runs from `command_head` to `command_tail`.
pub record Commands : Type 0 where
  pub commands : List Command
  pub command_count : ℕ

unfoldable pub command_skip_spaces : List ℕ → List ℕ
command_skip_spaces [] = []
command_skip_spaces (c ∷ s) = let later = command_skip_spaces s in if c == 32 then later else c ∷ s

-- The end of `command_token_matches`, behind the name: the arguments.
unfoldable pub arguments_of : List ℕ → Option (List ℕ)
arguments_of [] = some []
arguments_of (p ∷ line) = if p == 32 then some (command_skip_spaces (p ∷ line)) else none

unfoldable pub command_token_matches : List ℕ → List ℕ → Option (List ℕ)
command_token_matches line [] = arguments_of line
command_token_matches [] (n ∷ command_name) = none
command_token_matches (p ∷ line) (n ∷ command_name) =
    let rest = command_token_matches line command_name in if p == n then rest else none

-- The loop of `command_find_by_name`.
unfoldable pub find_by_name : List ℕ → List Command → Option Command
find_by_name name [] = none
find_by_name name (current ∷ later) =
    let rest = find_by_name name later in if str_equal current.name name then some current else rest

unfoldable pub command_init : Commands
command_init = record { commands = []; command_count = 0 }

-- `command_register`; the flags tell whether the three allocations succeed.
unfoldable pub command_register :
    Bool → Bool → Bool → Option (List ℕ) → Option (List ℕ) → ℕ → Commands → Bool × Commands
command_register has_node has_name has_description none description handler r = (false, r)
command_register has_node has_name has_description (some name) none handler r = (false, r)
command_register has_node has_name has_description (some name) (some description) handler r =
    let command : Command = record { name = name; description = description; handler = handler } in
    if handler == 0 then (false, r) else elim (find_by_name name r.commands) [
      | some duplicate ↦ (false, r)
      | none ↦
          if not has_node
          then (false, r)
          else if not has_name || not has_description
          then (false, r)
          else (
            true,
            record {
              commands = r.commands ++ (command ∷ []);
              command_count = add32 r.command_count 1;
            },
          )
    ]

-- What `command_execute` does: nothing for an empty line, a call of a handler on its arguments, or
-- the message that the command is unknown, for which it returns 0.
pub data Execution : Type 0 where
  empty_line unknown_command : Execution
  calls : ℕ → List ℕ → Execution

-- The loop of `command_execute`.
unfoldable pub execute_in : List ℕ → List Command → Execution
execute_in line [] = unknown_command
execute_in line (current ∷ later) =
    let rest = execute_in line later in
    elim (command_token_matches line current.name) [
      | none ↦ rest
      | some args ↦ calls current.handler args
    ]

unfoldable pub command_execute : List ℕ → Commands → Execution
command_execute line r = elim (command_skip_spaces line) [
  | [] ↦ empty_line
  | c ∷ rest ↦ execute_in (c ∷ rest) r.commands
]
