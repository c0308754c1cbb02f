-- ===== src/Tests/Parsing.antt =====
-- The parser of signed digests at fixed inputs.
use asignify.Base.{ℕ, ◌≡◌, ◌⊎◌, refl, arith, true, false, none, some, [], ◌∷◌, ◌++◌}
use asignify.Base.{Bytes, codes, bytes_eq}
use asignify.Libc.{isgraph, isspace, isxdigit}
use asignify.Libc.Decimal.{decimal, strtoul}
use asignify.Data.{File}
use asignify.Verify.Digest.{digest_from_str, parse_digest}
use asignify.Verify.Files.{FileTable, get_file, put_file, set_file}
use asignify.Verify.Machine.{Parsed, run, step, initial, parse_files, enter_file}
use asignify.Verify.Machine.Termination.{RunsForever, parse_files_decides}
use asignify.Sign.Lines.{ok, file_lines}
use asignify.SignVerify.Entry.{IsSignable}
use asignify.SignVerify.Lines.{summary, parse_files-file_lines}
use asignify.SignVerify.Hangs.{HasGap, parse_files-HasGap}

abbrev small : File
small = record { fname = codes "a.txt"; digests = []; size = 1042 }

abbrev spaced : File
spaced = record { fname = codes "a b"; digests = []; size = 7 }

abbrev small_line : Bytes
small_line = codes "SIZE (a.txt) = 1042\n"

file_lines_run : file_lines (small ∷ []) ≡ ok small_line
unfolding file_lines decimal
file_lines_run = refl

parse_files_run :
    parse_files [] small_line
    ≡ some (record { accepted = true; bad_format = false; files = small ∷ [] })
unfolding parse_files run step initial digest_from_str parse_digest strtoul bytes_eq isgraph isspace
    isxdigit get_file put_file set_file enter_file
parse_files_run = refl

-- An unknown algorithm is an error.
parse_files_bad :
    parse_files [] (codes "MD5 (a) = 00\n")
    ≡ some (record { accepted = false; bad_format = true; files = [] })
unfolding parse_files run step initial digest_from_str isgraph isspace
parse_files_bad = refl

-- A byte in a value that is no digit stops the loop where it is.
parse_files_stuck : parse_files [] (codes "SIZE (a) = 1x2\n") ≡ none
unfolding parse_files run step initial digest_from_str parse_digest isgraph isspace isxdigit
    get_file put_file set_file enter_file
parse_files_stuck = refl

small-IsSignable : IsSignable small
unfolding isgraph
small-IsSignable = record {
  name = ((refl, (refl, (refl, (refl, (refl, tt))))), λ e. cc);
  recorded = record { size_fits = omega arith; digest = tt };
}

spaced_gap : HasGap spaced.fname
unfolding isgraph
spaced_gap = record {
  front = codes "a";
  gap = b' ';
  back = codes "b";
  name_is = refl;
  front_good = (refl, tt);
  gap_bad = refl;
}

parse_files_decides_example :
    ((r : Parsed) × (parse_files [] small_line ≡ some r))
    ⊎ (RunsForever (initial [] small_line) × ((fuel : ℕ) → run fuel (initial [] small_line) ≡ none))
parse_files_decides_example = parse_files_decides [] small_line

parse_files-file_lines_example :
    (files : FileTable) × (parse_files [] small_line
      ≡ some (record { accepted = true; bad_format = false; files = files }))
    × ((n : Bytes) → get_file n files ≡ summary n none (small ∷ []))
parse_files-file_lines_example =
    parse_files-file_lines (small ∷ []) (small-IsSignable, tt) file_lines_run

spaced_lines : file_lines (small ∷ spaced ∷ []) ≡ ok (small_line ++ codes "SIZE (a b) = 7\n")
unfolding file_lines decimal
spaced_lines = refl

parse_files-HasGap_example : run 1000 (initial [] (small_line ++ codes "SIZE (a b) = 7\n")) ≡ none
parse_files-HasGap_example =
    parse_files-HasGap (small ∷ []) spaced [] (small-IsSignable, tt)
      (record { size_fits = omega arith; digest = tt }) spaced_gap spaced_lines 1000
