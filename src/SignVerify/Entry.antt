-- ===== src/SignVerify/Entry.antt =====
-- One line that the signing side writes, and what the verifying side makes of it.
use asignify.Base.{ℕ, ◌*◌, ◌≤◌, ◌<◌, Bool-cases, ◌≡◌, refl, arith, true, false, not, some, inl, inr}
use asignify.Base.{
  List, [], ◌∷◌, ◌++◌, Bytes, IsBytes, All, codes, ◌==◌, if◌then◌else◌, length, take_all, leb,
  c_string_nul,
}
use asignify.Libc.{isgraph, isxdigit, isdigit}
use asignify.Libc.Decimal.{
  decimal, strtoul, strtoul-decimal, decimal-IsDigits, length-decimal_pos, IsDigits,
  digit_span_stop,
}
use asignify.Util.Digest.{DigestType, digest_len, digest_name}
use asignify.Util.Hex.{bin2hex, hex_digits, hex2bin}
use asignify.Util.Hex.Bounds.{length-hex_digits}
use asignify.Util.Hex.RoundTrip.{hex_digits-isxdigit, hex2bin_own}
use asignify.Data.{FileDigest, File}
use asignify.Verify.Digest.{digest_from_str, parse_digest, digests_sizes, uintmax_max}
use asignify.Verify.Machine.{is_max}
use asignify.Verify.Machine.Reach.{IsName}
use asignify.Sign.Lines.{ok, file_line, digest_line, print_line, line_text, line_size}

-- A digest that the library computed: of a kind that has one, of that kind's length.
abbrev pub IsHashType : DigestType → Type 0
IsHashType DigestType.sha512 = Unit
IsHashType DigestType.sha256 = Unit
IsHashType DigestType.blake2 = Unit
IsHashType _ = ⊥

pub record IsDigest (d : FileDigest) : Type 0 where
  pub kind : IsHashType d.digest_type
  pub len : length d.digest ≡ digest_len d.digest_type
  pub bytes : IsBytes d.digest

abbrev pub IsFirstDigest : List FileDigest → Type 0
IsFirstDigest [] = Unit
IsFirstDigest (d ∷ ds) = IsDigest d

-- A file as `asignify_sign_add_file` records it.
pub record IsRecorded (f : File) : Type 0 where
  pub size_fits : f.size ≤ uintmax_max
  pub digest : IsFirstDigest f.digests

-- Its name is one that the parser of signatures takes, besides.
pub record IsSignable (f : File) : Type 0 where
  pub name : IsName f.fname
  pub recorded : IsRecorded f

-- What a line for `f` adds to what is known of the file.
abbrev pub merge : File → File → File
merge f g =
    if not (f.size == 0)
    then record g { size = f.size }
    else elim f.digests [ [] ↦ g | d ∷ ds ↦ record g { digests = d ∷ g.digests } ]

-- The parts of a line, and that the parser makes `merge` of them.
pub record IsEntry (f : File) (line : Bytes) : Type 0 where
  pub name : Bytes
  pub value : Bytes
  pub kind : DigestType
  pub text : line ≡ line_text name f.fname value
  pub graph : All (λ c. isgraph c ≡ true) name
  pub from_str : digest_from_str name ≡ kind
  pub known : is_max kind ≡ false
  pub hex : All (λ c. isxdigit c ≡ true) value
  pub parsed :
      (g : File) (rest : Bytes) → parse_digest value (b'\n' ∷ rest) kind (some g) ≡ some (merge f g)

digits_hex : (s : Bytes) → IsDigits s → All (λ c. isxdigit c ≡ true) s
unfolding isdigit isxdigit
digits_hex [] h = tt
digits_hex (c ∷ s) h = (ground (arith, h.0), digits_hex s h.1)

parse_digest_size :
    (s rest : Bytes) (g : File) (n : ℕ)
    → 0 < length s
    → strtoul uintmax_max (s ++ rest) ≡ record { value = n; used = length s; range = false }
    → parse_digest s rest DigestType.size (some g) ≡ some (record g { size = n })
unfolding parse_digest
parse_digest_size [] rest g n p e = absurd (omega arith)
parse_digest_size (c ∷ s) rest g n p e = rw (e, parse_digest) (ground arith)

parse_digest_hash :
    (s rest : Bytes) (g : File) (t : DigestType) (b : Bytes) (k : ℕ)
    → IsHashType t
    → length s ≡ digests_sizes t
    → hex2bin (digest_len t) s ≡ record { erange = false; bin = b; hex_end = k }
    → parse_digest s rest t (some g)
      ≡ some (record g { digests = (record { digest_type = t; digest = b }) ∷ g.digests })
unfolding parse_digest
parse_digest_hash [] rest g DigestType.sha512 b k h len e = absurd (omega arith)
parse_digest_hash [] rest g DigestType.sha256 b k h len e = absurd (omega arith)
parse_digest_hash [] rest g DigestType.blake2 b k h len e = absurd (omega arith)
parse_digest_hash (c ∷ s) rest g DigestType.sha512 b k h len e = ground arith
parse_digest_hash (c ∷ s) rest g DigestType.sha256 b k h len e = ground arith
parse_digest_hash (c ∷ s) rest g DigestType.blake2 b k h len e = ground arith
parse_digest_hash s rest g DigestType.size b k h len e = absurd h
parse_digest_hash s rest g DigestType.max b k h len e = absurd h

print_line-eq-ok :
    (name fname value : Bytes) {line : Bytes}
    → print_line name fname value ≡ ok line
    → line ≡ line_text name fname value
unfolding print_line
print_line-eq-ok name fname value e =
    elim (Bool-cases (leb line_size (length (line_text name fname value)))) [
      | inl long ↦ let e' = rw (print_line, long) at e in cc
      | inr fits ↦ let e' = rw (print_line, fits) at e in cc
    ]

size-IsEntry :
    (f : File) {line : Bytes}
    → IsRecorded f
    → (f.size == 0) ≡ false
    → print_line (codes "SIZE") f.fname (decimal f.size) ≡ ok line
    → IsEntry f line
size-IsEntry f i pos e = record {
  name = codes "SIZE";
  value = decimal f.size;
  kind = DigestType.size;
  text = print_line-eq-ok _ _ _ e;
  graph = unfold isgraph in (refl, (refl, (refl, (refl, tt))));
  from_str = unfold digest_from_str in refl;
  known = refl;
  hex = digits_hex _ (decimal-IsDigits f.size);
  parsed = λ g rest. rw pos (
      parse_digest_size (decimal f.size) (b'\n' ∷ rest) g f.size (length-decimal_pos f.size) (
        strtoul-decimal uintmax_max f.size (b'\n' ∷ rest) i.size_fits
          (digit_span_stop b'\n' rest (unfold isdigit in refl))));
}

bin2hex_fits : (b : Bytes) → length b ≤ 64 → bin2hex 255 b ≡ some (hex_digits b ++ 0 ∷ [])
unfolding bin2hex
bin2hex_fits b h = ground arith

xdigit_pos : (s : Bytes) → All (λ c. isxdigit c ≡ true) s → All (λ c. 0 < c) s
unfolding isxdigit
xdigit_pos [] h = tt
xdigit_pos (c ∷ s) h = (ground (arith, h.0), xdigit_pos s h.1)

digest_len-le : (t : DigestType) → digest_len t ≤ 64
digest_len-le DigestType.sha256 = omega arith
digest_len-le _ = omega arith

digest_line_own :
    (fname : Bytes) (d : FileDigest) (ds : List FileDigest)
    → IsDigest d
    → digest_line fname (d ∷ ds)
      ≡ print_line (digest_name d.digest_type) fname (hex_digits d.digest)
unfolding digest_line
digest_line_own fname d ds i = rw (take_all (digest_len d.digest_type) d.digest i.len) (
    rw (bin2hex_fits d.digest (omega (arith, i.len, digest_len-le d.digest_type))) (
      rw (
        c_string_nul (hex_digits d.digest) []
          (xdigit_pos _ (hex_digits-isxdigit d.digest i.bytes)))))

abbrev IsNameOf : DigestType → Type 0
IsNameOf t =
    All (λ c. isgraph c ≡ true) (digest_name t)
    × (digest_from_str (digest_name t) ≡ t)
    × (is_max t ≡ false)
    × (2 * digest_len t ≡ digests_sizes t)

name_of_hash : (t : DigestType) → IsHashType t → IsNameOf t
unfolding digest_name digest_from_str isgraph
name_of_hash DigestType.sha512 h = (ground arith, refl, refl, refl)
name_of_hash DigestType.sha256 h = (ground arith, refl, refl, refl)
name_of_hash DigestType.blake2 h = (ground arith, refl, refl, refl)
name_of_hash DigestType.size h = absurd h
name_of_hash DigestType.max h = absurd h

digest-IsEntry :
    (f : File) (d : FileDigest) (ds : List FileDigest) {line : Bytes}
    → IsDigest d
    → f.digests ≡ d ∷ ds
    → (f.size == 0) ≡ true
    → digest_line f.fname (d ∷ ds) ≡ ok line
    → IsEntry f line
digest-IsEntry f d ds i first unsized e =
    let (graph, from_str, known, len) = name_of_hash d.digest_type i.kind in
    record {
      name = digest_name d.digest_type;
      value = hex_digits d.digest;
      kind = d.digest_type;
      text = print_line-eq-ok _ _ _ (rw (digest_line_own f.fname d ds i) at e);
      graph = graph;
      from_str = from_str;
      known = known;
      hex = hex_digits-isxdigit d.digest i.bytes;
      parsed = λ g rest.
          rw (unsized, first)
            (parse_digest_hash (hex_digits d.digest) (b'\n' ∷ rest) g d.digest_type d.digest
              (2 * length d.digest) i.kind (omega (arith, length-hex_digits d.digest, i.len))
              (hex2bin_own (digest_len d.digest_type) d.digest i.bytes i.len));
    }

-- Every line that is written for a file of the sign context is an entry for it.
pub file_line-IsEntry :
    (f : File) {line : Bytes} → IsRecorded f → file_line f ≡ ok line → IsEntry f line
unfolding file_line
file_line-IsEntry f {line} i e = elim (Bool-cases (f.size == 0)) [
  | inr sized ↦ size-IsEntry f i sized (rw (sized, file_line) at e)
  | inl unsized ↦ go unsized f.digests refl (rw (unsized, file_line) at e)
]
  where
    go :
        (f.size == 0) ≡ true
        → (ds : List FileDigest) → f.digests ≡ ds
        → digest_line f.fname ds ≡ ok line
        → IsEntry f line
    go unsized [] first e = absurd (unfold digest_line in cc)
    go unsized (d ∷ ds) first e = digest-IsEntry f d ds (rw first at i.digest) first unsized e
