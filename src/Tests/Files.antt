-- ===== src/Tests/Files.antt =====
-- Runs of the signing and the verifying of files on a disk.
use asignify.Base.{
  ◌≡◌, refl, sym, ap, arith, true, false, some, List, [], ◌∷◌, ◌++◌, Bytes, All, codes, bytes_eq,
  c_string,
}
use asignify.Libc.{isgraph}
use asignify.Libc.Decimal.{decimal}
use asignify.Util.Errors.{Error}
use asignify.Util.Digest.{DigestType, digest_fd, digest_name}
use asignify.Util.Hex.{bin2hex}
use asignify.Util.Disk.{Node, Disk, xopen}
use asignify.Data.{File}
use asignify.Verify.Files.{FileTable, get_file}
use asignify.Verify.Machine.{parse_files}
use asignify.Verify.Machine.Reach.{IsName}
use asignify.Verify.Check.{Agrees, verify_file, accepted, rejected, verify_file-Agrees}
use asignify.Sign.Files.{added, add_files, add_file}
use asignify.Sign.Lines.{ok, file_lines, file_line, digest_line, print_line}
use asignify.SignVerify.Recorded.{IsDisk}
use asignify.SignVerify.Accepts.{verify_file-add_files}
use asignify.Tests.Toys.{repeat, toy_hashes}

abbrev pub node : Node
node = record {
  is_dir = false;
  st_size = 3;
  descriptor = record { seeks = true; reads = codes "ab" ∷ codes "c" ∷ [] };
}

-- Every name is the same file.
abbrev pub disk : Disk
disk name = some node

pub disk-IsDisk : IsDisk disk
unfolding xopen
disk-IsDisk = record {
  seeks = λ name n e. (let same : node ≡ n = cc in ap (λ m. m.descriptor.seeks) (sym same));
  size_fits = λ name n e.
      (let same : node ≡ n = cc in
        let size : 3 ≡ n.st_size = ap (λ m. m.st_size) same in omega arith);
}

abbrev pub calls : List (Bytes × DigestType)
calls = (codes "a", DigestType.sha256) ∷ (codes "b", DigestType.size) ∷ []

abbrev pub files_added : List File
files_added =
    record {
      fname = codes "a";
      digests = record { digest_type = DigestType.sha256; digest = repeat 32 38 } ∷ [];
      size = 0;
    }
    ∷ record { fname = codes "b"; digests = []; size = 3 }
    ∷ []

pub add_files_run : add_files toy_hashes disk [] calls ≡ added files_added
unfolding add_files add_file xopen digest_fd
add_files_run = refl

abbrev pub text : Bytes
text =
    codes "SHA256 (a) = 2626262626262626262626262626262626262626262626262626262626262626\n"
    ++ codes "SIZE (b) = 3\n"

pub file_lines_run : file_lines files_added ≡ ok text
unfolding file_lines file_line digest_line print_line bin2hex decimal digest_name c_string
file_lines_run = refl

pub names_good : All (λ c. IsName c.0) calls
unfolding isgraph
names_good = (((refl, tt), λ e. cc), (((refl, tt), λ e. cc), tt))

verify_file-add_files_example :
    (files : FileTable) × (parse_files [] text
      ≡ some (record { accepted = true; bad_format = false; files = files }))
    × All (λ c. verify_file toy_hashes disk (some files) c.0 ≡ accepted) calls
verify_file-add_files_example =
    verify_file-add_files toy_hashes disk calls disk-IsDisk names_good add_files_run file_lines_run

abbrev table : FileTable
table = record { fname = codes "b"; digests = []; size = 3 } ∷ []

verify_file_run : verify_file toy_hashes disk (some table) (codes "b") ≡ accepted
unfolding verify_file get_file bytes_eq xopen
verify_file_run = refl

-- The size on the disk is not the one that was signed.
verify_file_short :
    verify_file toy_hashes disk
      (some (record { fname = codes "b"; digests = []; size = 4 } ∷ []))
      (codes "b")
    ≡ rejected Error.verify_size
unfolding verify_file get_file bytes_eq xopen
verify_file_short = refl

verify_file-Agrees_example :
    (f : File) × (n : Node) × (get_file (codes "b") table ≡ some f)
    × (xopen disk (codes "b") ≡ some n)
    × Agrees toy_hashes n f
verify_file-Agrees_example = verify_file-Agrees toy_hashes disk table (codes "b") verify_file_run
