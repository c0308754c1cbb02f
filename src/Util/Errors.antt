-- ===== src/Util/Errors.antt =====
-- `enum asignify_error` (libasignify/asignify_internal.h) and its texts (libasignify/util.c).
use asignify.Base.{String, Option, none, some}

pub data Error : Type 0 where
  ok no_pubkey file format decrypt password verify size : Error
  verify_size verify_digest no_digest misuse wrong_keypair wrong_key max : Error

-- The table `err_str` has no entry for two codes, which is a null pointer.
abbrev pub xerr_string : Error → Option String
xerr_string Error.ok = some "no error"
xerr_string Error.no_pubkey = none
xerr_string Error.file = some "file IO error"
xerr_string Error.format = some "incorrect data format"
xerr_string Error.decrypt = none
xerr_string Error.password = some "wrong password"
xerr_string Error.verify = some "signature verification error"
xerr_string Error.size = some "size mismatch"
xerr_string Error.verify_size = some "incorrect file size"
xerr_string Error.verify_digest = some "digest verification error"
xerr_string Error.no_digest = some "digest is missing for the file specified"
xerr_string Error.misuse = some "library is used incorrectly"
xerr_string Error.wrong_keypair = some "cannot encrypt using related keypair"
xerr_string Error.wrong_key = some "wrong key specified"
xerr_string Error.max = none
