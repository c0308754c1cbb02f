-- ===== src/Verify/Digest.antt =====
-- `asignify_digest_from_str` and `asignify_verify_parse_digest` of libasignify/verify.c.
use asignify.Base.{ℕ, not, ◌||◌, Option, none, some, [], ◌∷◌, ◌++◌}
use asignify.Base.{Bytes, codes, ◌==◌, if◌then◌else◌, length}
use asignify.Libc.{strncasecmp_eq}
use asignify.Libc.Decimal.{strtoul}
use asignify.Util.Hex.{hex2bin}
use asignify.Util.Digest.{DigestType, digest_len}
use asignify.Data.{File}

unfoldable pub digest_from_str : Bytes → DigestType
unfolding strncasecmp_eq
digest_from_str name =
    let dlen = length name in
    if dlen == 6
    then if strncasecmp_eq name (codes "sha512") dlen
      then DigestType.sha512
      else if strncasecmp_eq name (codes "sha256") dlen
      then DigestType.sha256
      else if strncasecmp_eq name (codes "blake2") dlen
      then DigestType.blake2
      else DigestType.max
    else if dlen == 4
    then if strncasecmp_eq name (codes "size") dlen then DigestType.size else DigestType.max
    else DigestType.max

-- The table `digests_sizes`.
abbrev pub digests_sizes : DigestType → ℕ
digests_sizes DigestType.sha512 = 128
digests_sizes DigestType.sha256 = 64
digests_sizes DigestType.blake2 = 128
digests_sizes _ = 0

abbrev pub uintmax_max : ℕ
uintmax_max = 0xffffffffffffffff

parse_size : Bytes → Bytes → File → Option File
parse_size text rest f =
    let n = strtoul uintmax_max (text ++ rest) in
    if not (n.used == length text) || n.range then none else some (record f { size = n.value })

parse_hex : Bytes → DigestType → File → Option File
parse_hex text type f =
    let dig_len = digest_len type in
    let hex = hex2bin dig_len text in
    if dig_len == 0
    then none
    else if hex.erange
    then none
    else some (record f { digests = (record { digest_type = type; digest = hex.bin }) ∷ f.digests })

-- `text` is the `dlen` bytes at `data`, and `rest` what stands behind them, which `strtoumax`
-- may read; none is the return of false, which leaves the file as it is.
parse_digest_file : Bytes → Bytes → DigestType → File → Option File
parse_digest_file text rest DigestType.max f = none
parse_digest_file text rest DigestType.size f = parse_size text rest f
parse_digest_file text rest type f =
    if not (digests_sizes type == length text) then none else parse_hex text type f

unfoldable pub parse_digest : Bytes → Bytes → DigestType → Option File → Option File
unfolding parse_digest_file parse_size parse_hex
parse_digest text rest type none = none
parse_digest [] rest type (some f) = none
parse_digest (c ∷ text) rest type (some f) = parse_digest_file (c ∷ text) rest type f
