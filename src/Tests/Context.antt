-- ===== src/Tests/Context.antt =====
-- A run of the sign context.
use asignify.Base.{◌≡◌, refl, arith, true, none, some, [], ◌∷◌, ◌++◌, Bytes, codes}
use asignify.Libc.Decimal.{decimal}
use asignify.Data.{File, PublicData}
use asignify.Keys.Public.{public_data_load, sig_magic}
use asignify.Keys.Signature.{check_signature, public_key}
use asignify.Sign.Lines.{ok, file_lines, file_line, print_line}
use asignify.Sign.Context.{SignCtx, write_signature, finished}
use asignify.Sign.Context.RoundTrip.{check_signature-write_signature}
use asignify.Tests.Toys.{repeat, length-repeat, repeat-IsBytes}
use asignify.Tests.Public.{toy_base64}
use asignify.Tests.Signature.{toy_ed}

abbrev sized : File
sized = record { fname = codes "b"; digests = []; size = 3 }

abbrev context : SignCtx
context = record {
  privk = some (record { data_bytes = []; id = some (repeat 8 5); version = 1 });
  files = sized ∷ [];
  error = none;
}

sized_line : file_lines (sized ∷ []) ≡ ok (codes "SIZE (b) = 3\n")
unfolding file_lines file_line print_line decimal
sized_line = refl

check_signature-write_signature_example :
    (line : Bytes) × (sig : PublicData) × (write_signature toy_ed toy_base64 true context
      ≡ finished (line ++ codes "SIZE (b) = 3\n"))
    × (public_data_load toy_base64 line sig_magic 1 1 8 64 ≡ some sig)
    × (check_signature toy_ed (public_key toy_ed [] (repeat 8 5)) sig (codes "SIZE (b) = 3\n")
        ≡ true)
check_signature-write_signature_example =
    check_signature-write_signature toy_ed toy_base64 context [] (repeat 8 5)
      (codes "SIZE (b) = 3\n") sized [] refl refl (repeat-IsBytes 8 5 (omega arith))
      (length-repeat 8 5) sized_line (omega arith)
