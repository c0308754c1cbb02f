-- ===== src/Cli.antt =====
-- The command line: src/asignify.c, and the commands of src/verify.c, src/sign.c, src/generate.c and
-- src/encrypt.c. What is printed is not described.
pub mod Check
pub mod Sign
pub mod Generate
pub mod Encrypt
pub mod Main
pub mod Checked
pub mod Added
pub mod SignCheck
use asignify.Base.{ℕ, Option, List, Bytes}

-- What a command returns: 0 for a wrong use, -1 or 1.
pub data Ret : Type 0 where
  usage failed done : Ret

-- An option that `getopt_long` returns, with its argument.
pub record Opt : Type 0 where
  pub ch : ℕ
  pub optarg : Bytes
