-- ===== src/Command/Execute.antt =====
-- kernel/command.c: command_execute of what command_register registered.
use my_os.Prelude.{
  ℕ, ◌%◌, ◌≡◌, ◌⊎◌, zero, suc, replicate, ap, ◌≢◌, refl, Bool, true, false, not, ◌||◌, ◌∙◌, List,
  [], ◌∷◌, ◌++◌, map, none, some, add32, ◌==◌, ==→eq, ==_refl, if◌then◌else◌, Bool-cases,
  Option-cases, inl, inr, All, arith, length, u32_mod, length-append,
}
use my_os.Vfs.{str_equal}
use my_os.Registry.{Distinct, Lacks, Distinct-snoc}
use my_os.Command.{
  Command, Commands, command_skip_spaces, arguments_of, command_token_matches, find_by_name,
  command_register, calls, execute_in, command_execute,
}

-- A name has no spaces.
abbrev pub IsWord : List ℕ → Type 0
IsWord name = All (λ c. (c == 32) ≡ false) name

abbrev names : Commands → List (List ℕ)
names r = map (λ (c : Command). c.name) r.commands

-- The names are words and differ from each other, and the count is their number.
pub record IsValid (r : Commands) : Type 0 where
  pub words : All (λ (c : Command). IsWord c.name) r.commands
  pub distinct : Distinct (names r)
  pub counted : r.command_count ≡ length r.commands % u32_mod

-- A word in front of a space matches no other word.
other_word :
    (name other args : List ℕ)
    → IsWord name
    → IsWord other
    → str_equal other name ≡ false
    → command_token_matches (name ++ (32 ∷ args)) other ≡ none
unfolding command_token_matches arguments_of str_equal
other_word [] [] args w w' differ = absurd (let never = differ in cc)
other_word (c ∷ name) [] args w w' differ = rw w.0 refl
other_word [] (o ∷ other) args w w' differ =
    let space : (32 == o) ≡ false = (let no_space = w'.0 in ground arith) in rw space refl
other_word (c ∷ name) (o ∷ other) args w w' differ = elim (Bool-cases (c == o)) [
  | inl same ↦
      let here : (o == c) ≡ true = (let e = ==→eq c o same in ground arith) in
      let rest = rw here at differ in rw same (other_word name other args w.1 w'.1 rest)
  | inr apart ↦ rw apart refl
]

same_word :
    (name args : List ℕ)
    → command_token_matches (name ++ (32 ∷ args)) name ≡ some (command_skip_spaces args)
unfolding command_token_matches arguments_of command_skip_spaces
same_word [] args = refl
same_word (c ∷ name) args = rw (==_refl c) (same_word name args)

find-Lacks :
    (name : List ℕ) (commands : List Command)
    → find_by_name name commands ≡ none
    → Lacks (map (λ (c : Command). c.name) commands) name
unfolding find_by_name
find-Lacks name [] h = tt
find-Lacks name (c ∷ commands) h = elim (Bool-cases (str_equal c.name name)) [
  | inl same ↦ absurd (let never = rw same at h in cc)
  | inr apart ↦ (apart, find-Lacks name commands (rw apart at h))
]

skip_spaces-spaces :
    (n : ℕ) (line : List ℕ)
    → command_skip_spaces (replicate n 32 ++ line) ≡ command_skip_spaces line
unfolding command_skip_spaces
skip_spaces-spaces zero line = refl
skip_spaces-spaces (suc n) line = skip_spaces-spaces n line

skip_spaces-word :
    (c : ℕ) (line : List ℕ) → (c == 32) ≡ false → command_skip_spaces (c ∷ line) ≡ c ∷ line
unfolding command_skip_spaces
skip_spaces-word c line h = rw h refl

command_execute-skipped :
    (line rest : List ℕ) (c : ℕ) (r : Commands)
    → command_skip_spaces line ≡ c ∷ rest
    → command_execute line r ≡ execute_in (c ∷ rest) r.commands
unfolding command_execute
command_execute-skipped line rest c r e = rw (command_execute, e) refl

execute_in-last :
    (commands : List Command) (command : Command) (args : List ℕ)
    → All (λ (c : Command). IsWord c.name) commands
    → IsWord command.name
    → Lacks (map (λ (c : Command). c.name) commands) command.name
    → execute_in (command.name ++ (32 ∷ args)) (commands ++ (command ∷ []))
      ≡ calls command.handler (command_skip_spaces args)
unfolding execute_in
execute_in-last [] command args words word lacks = rw (execute_in, same_word command.name args) refl
execute_in-last (c ∷ commands) command args words word lacks =
    rw (execute_in, other_word command.name c.name args word words.0 lacks.0)
      (execute_in-last commands command args words.1 word lacks.1)

All-end :
    {A : Type 0} (P : A → Type 0) (xs : List A) (x : A) → All P xs → P x → All P (xs ++ (x ∷ []))
All-end P [] x all p = (p, tt)
All-end P (y ∷ xs) x all p = (all.0, All-end P xs x all.1 p)

map-end :
    (commands : List Command) (command : Command)
    → map (λ (c : Command). c.name) (commands ++ (command ∷ []))
      ≡ map (λ (c : Command). c.name) commands ++ (command.name ∷ [])
map-end [] command = refl
map-end (c ∷ commands) command = ap (λ rest. c.name ∷ rest) (map-end commands command)

module _ (c : ℕ) (cs description args : List ℕ) (handler spaces : ℕ) (r : Commands)
    (valid : IsValid r) (word : IsWord (c ∷ cs)) where
  abbrev command : Command
  command = record { name = c ∷ cs; description = description; handler = handler }

  abbrev added : Commands
  added = record {
    commands = r.commands ++ (command ∷ []);
    command_count = add32 r.command_count 1;
  }

  added-IsValid : Lacks (names r) (c ∷ cs) → IsValid added
  added-IsValid lacks = record {
    words = All-end (λ (d : Command). IsWord d.name) r.commands command valid.words word;
    distinct =
        rw (map-end r.commands command) (Distinct-snoc (names r) (c ∷ cs) valid.distinct lacks);
    counted = omega (arith, valid.counted, length-append r.commands (command ∷ []));
  }

  added-Executes :
      Lacks (names r) (c ∷ cs)
      → command_execute (replicate spaces 32 ++ (c ∷ (cs ++ (32 ∷ args)))) added
        ≡ calls handler (command_skip_spaces args)
  added-Executes lacks =
      let skipped =
        skip_spaces-spaces spaces (c ∷ (cs ++ (32 ∷ args)))
        ∙ skip_spaces-word c (cs ++ (32 ∷ args)) word.0 in
      command_execute-skipped _ _ c added skipped
      ∙ execute_in-last r.commands command args valid.words word lacks

  -- The two ends of `command_register`.
  duplicate_ends :
      (found : Command) (has_node has_name has_description : Bool)
      → find_by_name (c ∷ cs) r.commands ≡ some found
      → command_register has_node has_name has_description
          (some (c ∷ cs))
          (some description)
          handler
          r
        ≡ (false, r)
  unfolding command_register
  duplicate_ends found has_node has_name has_description e = elim (Bool-cases (handler == 0)) [
    | inl null ↦ rw null refl
    | inr address ↦ rw (address, e) refl
  ]

  new_ends :
      find_by_name (c ∷ cs) r.commands ≡ none
      → handler ≢ 0
      → command_register true true true (some (c ∷ cs)) (some description) handler r ≡ (true, added)
  unfolding command_register
  new_ends new some_handler =
      let address : (handler == 0) ≡ false = ground arith in rw (address, new) refl

  kept-IsValid :
      (has_node has_name has_description : Bool)
      → IsValid
          (command_register has_node has_name has_description
            (some (c ∷ cs))
            (some description)
            handler
            r).1
  unfolding command_register
  kept-IsValid has_node has_name has_description = elim (Bool-cases (handler == 0)) [
    | inl null ↦ rw null valid
    | inr address ↦ elim (Option-cases (find_by_name (c ∷ cs) r.commands)) [
      | inr (found, e) ↦ rw (address, e) valid
      | inl new ↦
          let valid' = added-IsValid (find-Lacks (c ∷ cs) r.commands new) in
          rw (address, new) (either_end has_node has_name has_description valid')
    ]
  ]
    where
      either_end :
          (has_node has_name has_description : Bool)
          → IsValid added
          → IsValid
              (if◌then◌else◌ {A = Bool × Commands}
                (not has_node)
                (false, r)
                (if not has_name || not has_description then (false, r) else (true, added))).1
      either_end false has_name has_description v = valid
      either_end true false has_description v = valid
      either_end true true false v = valid
      either_end true true true v = v

  -- For a name of at least one character and without spaces, a registry of words that differ from
  -- each other with the right count, and a handler that is no null pointer: with memory or
  -- without, command_register keeps the registry so. With memory, it either reports failure and
  -- changes nothing, or it reports success, and then command_execute of a line of spaces, the
  -- name, a space and arguments calls the handler on the arguments without the spaces in front of
  -- them.
  pub command_register-Registers :
      (has_node has_name has_description : Bool)
      → handler ≢ 0
      → IsValid
          (command_register has_node has_name has_description
            (some (c ∷ cs))
            (some description)
            handler
            r).1
        × ((command_register true true true (some (c ∷ cs)) (some description) handler r
              ≡ (false, r))
            ⊎ ((r' : Commands) × (command_register true true true
                    (some (c ∷ cs))
                    (some description)
                    handler
                    r
                  ≡ (true, r'))
                × (command_execute (replicate spaces 32 ++ (c ∷ (cs ++ (32 ∷ args)))) r'
                    ≡ calls handler (command_skip_spaces args))))
  command_register-Registers has_node has_name has_description some_handler = (
    kept-IsValid has_node has_name has_description,
    elim (Option-cases (find_by_name (c ∷ cs) r.commands)) [
      | inr (found, e) ↦ inl (duplicate_ends found true true true e)
      | inl new ↦
          inr
            (added, new_ends new some_handler, added-Executes (find-Lacks (c ∷ cs) r.commands new))
    ],
  )
