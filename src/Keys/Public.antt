-- ===== src/Keys/Public.antt =====
-- `asignify_public_data_load` of libasignify/databuf.c, and the lines that `asignify_pubkey_write`
-- (libasignify/pubkey.c) and `asignify_signature_write` (libasignify/signature.c) print for it.
pub mod RoundTrip
pub mod Load
pub mod Header
use asignify.Base.{
  ℕ, ◌+◌, ◌*◌, ◌/◌, ◌%◌, ◌^◌, Bool, true, false, not, ◌||◌, Option, none, some, List, [], ◌∷◌, ◌++◌,
}
use asignify.Base.{Bytes, codes, ltb, leb, ◌==◌, if◌then◌else◌, length, drop, starts_with}
use asignify.Libc.Decimal.{strtoul}
use asignify.Data.{PublicData}
use asignify.Crypto.Base64.{Base64}
use asignify.Keys.Fields.{ulong_max}
use asignify.Keys.Write.{Written, wrote, not_written, crashed}

-- `strchr`: the text from the first `c` on.
unfoldable pub strchr : ℕ → Bytes → Option Bytes
strchr c [] = none
strchr c (x ∷ s) = if x == c then some (x ∷ s) else if x == 0 then none else strchr c s

-- The text in front of the end of the line.
unfoldable pub line_rest : Bytes → Bytes
line_rest [] = []
line_rest (x ∷ s) =
    let rest = line_rest s in if x == 0 || x == b'\n' || x == b'\r' then [] else x ∷ rest

aux_text : Bytes → Option Bytes
aux_text [] = none
aux_text (x ∷ s) = some (x ∷ s)

-- The text behind a third colon.
pub aux_of : Option Bytes → Option Bytes
unfolding line_rest aux_text
aux_of none = none
aux_of (some p) = aux_text (line_rest (drop 1 p))

pub load_data : Base64 → ℕ → ℕ → Bytes → Option Bytes → Option PublicData
unfolding strchr aux_of
load_data b64 version data_len id none = none
load_data b64 version data_len id (some p) =
    let text = drop 1 p in
    elim (b64.pton_stop data_len text) [
      | none ↦ none
      | some b ↦
          if not (length b == data_len)
          then none
          else some (record {
            data_bytes = b;
            id = id;
            aux = aux_of (strchr b':' text);
            version = version;
          })
    ]

pub load_id : Base64 → ℕ → ℕ → ℕ → Bytes → Option PublicData
unfolding load_data
load_id b64 version id_len data_len text = elim (b64.pton_stop id_len text) [
  | none ↦ none
  | some id ↦
      if not (length id == id_len)
      then none
      else load_data b64 version data_len id (strchr b':' text)
]

-- Behind the number of the version, which is cut to an `unsigned int`.
pub load_version : Base64 → ℕ → ℕ → ℕ → ℕ → ℕ → Bytes → Option PublicData
unfolding load_id
load_version b64 version ver_min ver_max id_len data_len [] = none
load_version b64 version ver_min ver_max id_len data_len (c ∷ text) =
    if not (c == b':') || ltb version ver_min || ltb ver_max version
    then none
    else load_id b64 version id_len data_len text

unfoldable pub public_data_load : Base64 → Bytes → Bytes → ℕ → ℕ → ℕ → ℕ → Option PublicData
unfolding load_version
public_data_load b64 buf magic ver_min ver_max id_len data_len =
    let p = drop (length magic) buf in
    let n = strtoul ulong_max p in
    if leb (length buf) (length magic) || not (starts_with magic buf)
    then none
    else load_version b64 (n.value % 2 ^ 32) ver_min ver_max id_len data_len (drop n.used p)

-- `b64_ntop` into a buffer of twice the length; none if it is too short, and -1 is returned.
unfoldable pub encoded : Base64 → Bytes → Option Bytes
encoded b64 b = if leb ((length b + 2) / 3 * 4 + 1) (length b * 2) then some (b64.ntop b) else none

abbrev pub pubkey_magic : Bytes
pubkey_magic = codes "asignify-pubkey:"

abbrev pub sig_magic : Bytes
sig_magic = codes "asignify-sig:"

-- What `fprintf` prints; none is the use of a buffer that `b64_ntop` did not fill.
unfoldable pub public_line : Base64 → Bytes → PublicData → Option Bytes
unfolding encoded
public_line b64 magic pk = elim (encoded b64 pk.id) [
  | none ↦ none
  | some id ↦ elim (encoded b64 pk.data_bytes) [
    | none ↦ none
    | some b ↦ some (magic ++ (codes "1:" ++ (id ++ (codes ":" ++ (b ++ codes "\n")))))
  ]
]

unfoldable pub pubkey_write : Base64 → PublicData → Written
pubkey_write b64 pk =
    if pk.version == 1
    then elim (public_line b64 pubkey_magic pk) [ none ↦ crashed | some line ↦ wrote line ]
    else not_written

-- The line of a signature with no identifier.
no_id_line : Base64 → PublicData → Option Bytes
no_id_line b64 sig = elim (encoded b64 sig.data_bytes) [
  | none ↦ none
  | some b ↦ some (sig_magic ++ (codes "1::" ++ (b ++ codes "\n")))
]

unfoldable pub sig_line : Base64 → PublicData → Option Bytes
unfolding no_id_line
sig_line b64 sig = if length sig.id == 0 then no_id_line b64 sig else public_line b64 sig_magic sig

-- The text `buf` behind the line; writing no bytes counts as a failure.
unfoldable pub signature_write : Base64 → PublicData → Bytes → Written
signature_write b64 sig buf =
    if sig.version == 1
    then elim (sig_line b64 sig) [
      | none ↦ crashed
      | some line ↦ if length buf == 0 then not_written else wrote (line ++ buf)
    ]
    else not_written
