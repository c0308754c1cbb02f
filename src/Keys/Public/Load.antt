-- ===== src/Keys/Public/Load.antt =====
-- `asignify_pubkey_load` of libasignify/pubkey.c and `asignify_signature_load` of
-- libasignify/signature.c: the lines of a file, in the format of this program, of OpenBSD or, for a
-- key, of OpenSSH.
pub mod Shapes
pub mod Formats
pub mod Others
use asignify.Base.{ℕ, ◌+◌, ◌/◌, Bool, true, false, not, ◌&&◌, Option, none, some, List, [], ◌∷◌}
use asignify.Base.{
  Bytes, codes, ltb, leb, ◌==◌, if◌then◌else◌, length, take, drop, bytes_eq, starts_with,
}
use asignify.Util.Hex.{size_max}
use asignify.Data.{PublicData}
use asignify.Crypto.Base64.{Base64}
use asignify.Keys.Public.{public_data_load, pubkey_magic, sig_magic}
use asignify.Keys.Ssh.{ssh_read_string}

abbrev pub obsd_comment : Bytes
obsd_comment = codes "untrusted comment: "

abbrev pub obsd_alg : Bytes
obsd_alg = codes "Ed"

abbrev pub ssh_magic : Bytes
ssh_magic = codes "ssh-ed25519"

-- The structure has the name of the algorithm, the number of the key, and `n` bytes.
obsd_key : ℕ → Option Bytes → Option PublicData → Option PublicData
obsd_key n none res = res
obsd_key n (some b) res =
    if length b == 10 + n && bytes_eq (take 2 b) obsd_alg
    then some (record {
      data_bytes = take n (drop 10 b);
      id = take 8 (drop 2 b);
      aux = none;
      version = 0;
    })
    else res

-- Whether the line is a comment, behind which the next is read, and what `*pk` holds.
try_obsd : Base64 → ℕ → Bytes → Option PublicData → Bool × Option PublicData
unfolding obsd_key
try_obsd b64 n buf res =
    if starts_with obsd_comment buf
    then (true, res)
    else (false, obsd_key n (b64.pton (10 + n) buf) res)

pubkey_try_obsd : Base64 → Bytes → Option PublicData → Bool × Option PublicData
unfolding try_obsd
pubkey_try_obsd b64 buf res = try_obsd b64 32 buf res

sig_try_obsd : Base64 → Bytes → Option PublicData → Bool × Option PublicData
unfolding try_obsd
sig_try_obsd b64 buf res = try_obsd b64 64 buf res

-- What memory that `malloc` gave holds: in the place of the fields `aux` and `aux_len` of a structure,
-- and in the bytes that are asked for after it.
pub record Junk : Type 0 where
  pub aux : Option Bytes
  pub aux_len : ℕ
  pub fresh : Bytes

-- Memory that holds only zeros.
abbrev pub no_junk : Junk
no_junk = record { aux = none; aux_len = 0; fresh = [] }

-- `asignify_alloc_public_data_fields` on an `aux_len` that was never set; none is the `abort` of
-- `xmalloc`.
unfoldable pub alloc_aux : Junk → Option (Option Bytes)
alloc_aux junk =
    if junk.aux_len == 0
    then some junk.aux
    else if leb (size_max / 2) junk.aux_len
    then none
    else some (some junk.fresh)

-- The key with the field `aux` that it is given.
ssh_made : Bytes → Option (Option Bytes) → Option (Bool × Option PublicData)
ssh_made tok none = none
ssh_made tok (some aux) =
    some (true, some (record { data_bytes = tok; id = []; aux = aux; version = 1 }))

-- None is an `abort`, here and below.
ssh_point : Junk → Option (Bytes × Bytes) → Option PublicData → Option (Bool × Option PublicData)
unfolding ssh_made alloc_aux
ssh_point junk none res = some (false, res)
ssh_point junk (some (tok, rest)) res =
    if length tok == 32 then ssh_made tok (alloc_aux junk) else some (true, res)

ssh_alg : Junk → Option (Bytes × Bytes) → Option PublicData → Option (Bool × Option PublicData)
unfolding ssh_point
ssh_alg junk none res = some (false, res)
ssh_alg junk (some (tok, rest)) res =
    if bytes_eq tok ssh_magic then ssh_point junk (ssh_read_string rest) res else some (false, res)

ssh_blob : Junk → Option Bytes → Option PublicData → Option (Bool × Option PublicData)
unfolding ssh_alg
ssh_blob junk none res = some (false, res)
ssh_blob junk (some []) res = some (false, res)
ssh_blob junk (some (x ∷ b)) res = ssh_alg junk (ssh_read_string (x ∷ b)) res

ssh_text : Base64 → Junk → Bytes → Option PublicData → Option (Bool × Option PublicData)
unfolding ssh_blob
ssh_text b64 junk [] res = some (false, res)
ssh_text b64 junk (c ∷ p) res =
    if c == b' ' then ssh_blob junk (b64.pton_space 64 p) res else some (false, res)

-- Whether the reading ends with this line.
try_ssh : Base64 → Junk → Bytes → Option PublicData → Option (Bool × Option PublicData)
unfolding ssh_text
try_ssh b64 junk buf res = ssh_text b64 junk (drop (length ssh_magic) buf) res

unless_read : Option (Bool × Option PublicData) → Option (Bool × Option PublicData)
unless_read none = none
unless_read (some (stop, key)) = some (not stop, key)

-- One line: whether the loop goes on, and the key.
pubkey_line : Base64 → Junk → Bool → Bytes → Option PublicData → Option (Bool × Option PublicData)
unfolding try_ssh pubkey_try_obsd unless_read
pubkey_line b64 junk first l res =
    if ltb 17 (length l) && first && starts_with pubkey_magic l
    then some (false, public_data_load b64 l pubkey_magic 1 1 8 32)
    else if ltb 12 (length l) && starts_with ssh_magic l
    then unless_read (try_ssh b64 junk l res)
    else some (pubkey_try_obsd b64 l res)

pubkey_lines : Base64 → Junk → Bool → Option PublicData → List Bytes → Option (Option PublicData)
unfolding pubkey_line
pubkey_lines b64 junk first res [] = some res
pubkey_lines b64 junk first res (l ∷ ls) = elim (pubkey_line b64 junk first l res) [
  | none ↦ none
  | some r ↦ let rest = pubkey_lines b64 junk false r.1 ls in if r.0 then rest else some r.1
]

-- The lines are those that `getline` returns; none is an `abort`.
unfoldable pub pubkey_load : Base64 → Junk → List Bytes → Option (Option PublicData)
unfolding pubkey_lines
pubkey_load b64 junk lines = pubkey_lines b64 junk true none lines

-- The second half of the body of the loop; the first half reads a long line too.
sig_second : Base64 → Bytes → Bool × Option PublicData → Bool × Option PublicData
unfolding sig_try_obsd
sig_second b64 l (false, sig) = (false, sig)
sig_second b64 l (true, sig) = sig_try_obsd b64 l sig

-- One line of a signature: whether the loop goes on, and the signature.
sig_one_line : Base64 → ℕ → Bool → Bytes → Option PublicData → Bool × Option PublicData
unfolding sig_second sig_try_obsd
sig_one_line b64 id_len long l res =
    if long
    then if starts_with sig_magic l
      then (false, public_data_load b64 l sig_magic 1 1 id_len 64)
      else sig_second b64 l (sig_try_obsd b64 l res)
    else sig_try_obsd b64 l res

-- The signature, and the lines behind the last that is read.
sig_lines : Base64 → ℕ → Bool → Option PublicData → List Bytes → Option PublicData × List Bytes
unfolding sig_one_line
sig_lines b64 id_len first res [] = (res, [])
sig_lines b64 id_len first res (l ∷ ls) =
    let long = first && ltb 14 (length l) in
    let (more, sig) = sig_one_line b64 id_len long l res in
    let rest = sig_lines b64 id_len (first && not long) sig ls in if more then rest else (sig, ls)

-- `id_len` is the length of the identifier of the first public key.
unfoldable pub signature_load : Base64 → ℕ → List Bytes → Option PublicData × List Bytes
unfolding sig_lines
signature_load b64 id_len lines = sig_lines b64 id_len true none lines
