-- ===== src/Cli/Main.antt =====
-- `main` of src/asignify.c: the command that is chosen, and the status of the exit.
use asignify.Base.{ℕ, Bool, false, ◌||◌, Option, none, some, List, [], ◌∷◌}
use asignify.Base.{Bytes, codes, ◌==◌, if◌then◌else◌}
use asignify.Libc.{strcasecmp_eq}
use asignify.Cli.{Ret, usage, failed, done}

pub data Command : Type 0 where
  check verify sign generate encrypt help unknown : Command

-- The names are compared without case, in the order of the tests.
unfoldable pub command_of : Bytes → Command
unfolding strcasecmp_eq
command_of name =
    if strcasecmp_eq name (codes "check")
    then Command.check
    else if strcasecmp_eq name (codes "verify")
    then Command.verify
    else if strcasecmp_eq name (codes "sign")
    then Command.sign
    else if strcasecmp_eq name (codes "generate")
    then Command.generate
    else if strcasecmp_eq name (codes "encrypt") || strcasecmp_eq name (codes "decrypt")
    then Command.encrypt
    else if strcasecmp_eq name (codes "help")
    then Command.help
    else Command.unknown

pub data Status : Type 0 where
  success failure : Status

-- The end of `main`: a wrong use shows the help and fails.
unfoldable pub status_of : Ret → Status
status_of usage = failure
status_of failed = failure
status_of done = success

-- `help`: the text of a command, or the usage.
unfoldable pub help_status : Bool → List Bytes → Status
unfolding command_of
help_status wrong [] = failure
help_status wrong (name ∷ names) = elim (command_of name) [
  | Command.check ↦ if wrong then failure else success
  | Command.verify ↦ if wrong then failure else success
  | Command.sign ↦ if wrong then failure else success
  | Command.generate ↦ if wrong then failure else success
  | Command.encrypt ↦ if wrong then failure else success
  | _ ↦ failure
]

-- Options in front of the command end the run if they are no `-q`. The command and its arguments
-- stand behind them, and `run` is the function of the command; none is a run that does not end.
unfoldable pub main : List ℕ → (Command → List Bytes → Option Ret) → List Bytes → Option Status
unfolding status_of help_status command_of
main [] run [] = some failure
main [] run (name ∷ args) = elim (command_of name) [
  | Command.help ↦ some (help_status false args)
  | Command.unknown ↦ some failure
  | c ↦ elim (run c (name ∷ args)) [ none ↦ none | some r ↦ some (status_of r) ]
]
main (ch ∷ opts) run args =
    let rest = main opts run args in
    if ch == b'q' then rest else if ch == b'v' then some success else some failure
