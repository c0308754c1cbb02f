-- ===== src/Verify/Context.antt =====
-- The verify context of libasignify/verify.c: `asignify_verify_load_pubkey`,
-- `asignify_verify_load_sig`, `asignify_verify_load_signature`, and `asignify_verify_file` on the
-- state that they leave.
pub mod Invariant
pub mod Chain
pub mod Signing
use asignify.Base.{◌≡◌, ℕ, ◌^◌, Bool, true, false, ◌&&◌, Option, none, some, List, [], ◌∷◌}
use asignify.Base.{Bytes, ltb, ◌==◌, if◌then◌else◌, length}
use asignify.Libc.Lines.{getlines}
use asignify.Util.Errors.{Error}
use asignify.Util.Digest.{Hashes}
use asignify.Util.Digest.Chunks.{concat}
use asignify.Util.Disk.{Disk}
use asignify.Data.{PublicData}
use asignify.Crypto.Base64.{Base64}
use asignify.Crypto.Ed25519.{Ed25519}
use asignify.Keys.Public.Load.{Junk, pubkey_load, signature_load}
use asignify.Keys.Signature.{check_signature}
use asignify.Verify.Files.{FileTable}
use asignify.Verify.Machine.{Parsed, parse_files}
use asignify.Verify.Check.{Verdict, accepted, rejected, verify_file}

-- The keys, the last one loaded first; the table of the signature, if one was accepted; and the
-- error that was set last.
pub record VerifyCtx : Type 0 where
  pub pk_chain : List PublicData
  pub files : Option FileTable
  pub error : Option Error

unfoldable pub verify_init : VerifyCtx
verify_init = record { pk_chain = []; files = none; error = none }

-- A file that is open for reading: its text, and what `fstat` says of it.
pub record SigFile : Type 0 where
  pub text : Bytes
  pub stat_ok : Bool
  pub is_reg : Bool
  pub st_size : ℕ

with_pubkey : VerifyCtx → Option (Option PublicData) → Option (Bool × VerifyCtx)
with_pubkey ctx none = none
with_pubkey ctx (some none) = some (false, record ctx { error = some Error.format })
with_pubkey ctx (some (some pk)) = some (true, record ctx { pk_chain = pk ∷ ctx.pk_chain })

-- What is returned, and the context; no lines stand for a file that cannot be opened, for which the
-- result is true as well. None is an `abort`.
unfoldable pub verify_load_pubkey :
    Base64 → Junk → VerifyCtx → Option (List Bytes) → Option (Bool × VerifyCtx)
unfolding with_pubkey
verify_load_pubkey b64 junk ctx none = some (true, record ctx { error = some Error.file })
verify_load_pubkey b64 junk ctx (some lines) = with_pubkey ctx (pubkey_load b64 junk lines)

-- What is left of the file behind the lines that were read, with the error that is set.
load_sig : VerifyCtx → SigFile → Bytes → Option Bytes × VerifyCtx
load_sig ctx f rest =
    if f.stat_ok
    then if f.is_reg && ltb (2 ^ 30) f.st_size
      then (none, record ctx { error = some Error.file })
      else (some rest, ctx)
    else (none, ctx)

check_with : {h : Hashes} → Ed25519 h → PublicData → Option PublicData → Bytes → Bool
check_with ed pk none text = false
check_with ed pk (some sig) text = check_signature ed pk sig text

-- The `while` over the chain of keys.
check_chain : {h : Hashes} → Ed25519 h → List PublicData → Option PublicData → Bytes → Bool
unfolding check_with
check_chain ed [] sig text = false
check_chain ed (pk ∷ chain) sig text =
    let rest = check_chain ed chain sig text in if check_with ed pk sig text then true else rest

-- The table is new, and it stays in the context even if the digests cannot be parsed; the result is
-- the one of the check of the signature.
with_parsed : VerifyCtx → Option Parsed → Option (Bool × VerifyCtx)
with_parsed ctx none = none
with_parsed ctx (some p) = some (
  true,
  record ctx {
    files = some p.files;
    error = if p.bad_format then some Error.format else ctx.error;
  },
)

with_text :
    {h : Hashes}
    → Ed25519 h
    → VerifyCtx
    → Option PublicData
    → Option Bytes
    → Option (Bool × VerifyCtx)
unfolding check_chain with_parsed
with_text ed ctx sig none = some (false, ctx)
with_text ed ctx sig (some text) =
    if length text == 0
    then some (false, ctx)
    else if check_chain ed ctx.pk_chain sig text
    then with_parsed ctx (parse_files [] text)
    else some (false, record ctx { error = some Error.verify })

with_sig_file :
    {h : Hashes} → Ed25519 h → Base64 → VerifyCtx → PublicData → SigFile → Option (Bool × VerifyCtx)
unfolding load_sig with_text
with_sig_file ed b64 ctx pk f =
    let (sig, rest) = signature_load b64 (length pk.id) (getlines f.text) in
    let (text, after) = load_sig ctx f (concat rest) in with_text ed after sig text

with_chain :
    {h : Hashes}
    → Ed25519 h
    → Base64
    → VerifyCtx
    → List PublicData
    → Option SigFile
    → Option (Bool × VerifyCtx)
unfolding with_sig_file
with_chain ed b64 ctx [] f = some (false, record ctx { error = some Error.misuse })
with_chain ed b64 ctx (pk ∷ chain) none = some (false, record ctx { error = some Error.file })
with_chain ed b64 ctx (pk ∷ chain) (some f) = with_sig_file ed b64 ctx pk f

-- None is a call that does not return, because the loop over the digests never ends.
unfoldable pub verify_load_signature :
    {h : Hashes} → Ed25519 h → Base64 → VerifyCtx → Option SigFile → Option (Bool × VerifyCtx)
unfolding with_chain
verify_load_signature ed b64 ctx f = with_chain ed b64 ctx ctx.pk_chain f

with_verdict : VerifyCtx → Verdict → Bool × VerifyCtx
with_verdict ctx accepted = (true, ctx)
with_verdict ctx (rejected e) = (false, record ctx { error = some e })

unfoldable pub verify_one : Hashes → VerifyCtx → Disk → Bytes → Bool × VerifyCtx
unfolding with_verdict
verify_one h ctx disk name = with_verdict ctx (verify_file h disk ctx.files name)

-- One call on a context: what it returns, and the context that it leaves.
pub data Calls {h : Hashes} (ed : Ed25519 h) (b64 : Base64) (ctx : VerifyCtx)
    : Bool → VerifyCtx → Type 0 where
  loads_pubkey :
      (junk : Junk) (file : Option (List Bytes)) {b : Bool} {after : VerifyCtx}
      → verify_load_pubkey b64 junk ctx file ≡ some (b, after)
      → Calls ed b64 ctx b after
  loads_signature :
      (file : Option SigFile) {b : Bool} {after : VerifyCtx}
      → verify_load_signature ed b64 ctx file ≡ some (b, after)
      → Calls ed b64 ctx b after
  verifies :
      (disk : Disk) (name : Bytes) {b : Bool} {after : VerifyCtx}
      → verify_one h ctx disk name ≡ (b, after)
      → Calls ed b64 ctx b after

-- The contexts that some calls make of a new one.
pub data Reached {h : Hashes} (ed : Ed25519 h) (b64 : Base64) : VerifyCtx → Type 0 where
  at_init : Reached ed b64 verify_init
  by_call :
      {ctx after : VerifyCtx} {b : Bool}
      → Reached ed b64 ctx
      → Calls ed b64 ctx b after
      → Reached ed b64 after
