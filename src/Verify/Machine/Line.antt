-- ===== src/Verify/Machine/Line.antt =====
-- A line of digests, as the signing side writes it, is taken whole.
use asignify.Base.{ℕ, ◌≡◌, refl, arith, ◌≢◌}
use asignify.Base.{true, false, Option, none, some, [], ◌∷◌, ◌++◌}
use asignify.Base.{Bytes, All}
use asignify.Libc.{isspace, isgraph, isxdigit}
use asignify.Util.Digest.{DigestType}
use asignify.Data.{File}
use asignify.Verify.Digest.{digest_from_str, parse_digest}
use asignify.Verify.Files.{FileTable, get_file, set_file}
use asignify.Verify.Machine.{State, start, alg, obrace, file, eqsign, hash, spaces}
use asignify.Verify.Machine.{goes, step, enter_file, is_max, current_file}
use asignify.Verify.Machine.Reach.{
  Reaches, here, pass, Reaches-trans, parser, IsName, token-Reaches,
}

-- `name (file) = value` and the newline.
abbrev pub line_of : Bytes → Bytes → Bytes → Bytes → Bytes
line_of name fname value rest =
    name ++ b' ' ∷ b'(' ∷ (fname ++ b')' ∷ b' ' ∷ b'=' ∷ b' ' ∷ (value ++ b'\n' ∷ rest))

module _ (n : State) (tok : Bytes) (type : DigestType) (cur : Option Bytes)
    (files : FileTable) where
  start-Reaches :
      (c : ℕ) (rest : Bytes)
      → isgraph c ≡ true
      → Reaches
          (parser start n tok (c ∷ rest) type cur files)
          (parser alg n [] (c ∷ rest) type none files)
  start-Reaches c rest h = pass (step_start c rest h) here
    where
      step_start :
          (c : ℕ) (rest : Bytes)
          → isgraph c ≡ true
          → step (parser start n tok (c ∷ rest) type cur files)
            ≡ goes (parser alg n [] (c ∷ rest) type none files)
      step_start c rest h = unfold step isgraph isspace in ground arith

  -- A space and what follows it.
  space-Reaches :
      (s : State) (c : ℕ) (rest : Bytes)
      → isspace c ≡ false
      → Reaches
          (parser spaces s tok (b' ' ∷ c ∷ rest) type cur files)
          (parser s s [] (c ∷ rest) type cur files)
  space-Reaches s c rest h = pass first (pass second here)
    where
      first :
          step (parser spaces s tok (b' ' ∷ c ∷ rest) type cur files)
          ≡ goes (parser spaces s (tok ++ b' ' ∷ []) (c ∷ rest) type cur files)
      first = unfold step isspace in ground arith

      second :
          step (parser spaces s (tok ++ b' ' ∷ []) (c ∷ rest) type cur files)
          ≡ goes (parser s s [] (c ∷ rest) type cur files)
      second = unfold step in ground arith

  alg-Reaches :
      (rest : Bytes) (t : DigestType)
      → digest_from_str tok ≡ t
      → is_max t ≡ false
      → Reaches
          (parser alg n tok (b' ' ∷ rest) type cur files)
          (parser spaces obrace tok (b' ' ∷ rest) t cur files)
  alg-Reaches rest t e h = pass first here
    where
      first :
          step (parser alg n tok (b' ' ∷ rest) type cur files)
          ≡ goes (parser spaces obrace tok (b' ' ∷ rest) t cur files)
      first = unfold step isgraph in ground arith

  obrace-Reaches :
      (rest : Bytes)
      → Reaches
          (parser obrace n tok (b'(' ∷ rest) type cur files)
          (parser file n [] rest type cur files)
  obrace-Reaches rest = pass first here
    where
      first :
          step (parser obrace n tok (b'(' ∷ rest) type cur files)
          ≡ goes (parser file n [] rest type cur files)
      first = unfold step in refl

  file-Reaches :
      (rest : Bytes)
      → tok ≢ []
      → Reaches
          (parser file n tok (b')' ∷ rest) type cur files)
          (parser spaces eqsign [] rest type (some tok) (enter_file tok files))
  file-Reaches rest ne = pass (first tok ne) here
    where
      first :
          (name : Bytes)
          → name ≢ []
          → step (parser file n name (b')' ∷ rest) type cur files)
            ≡ goes (parser spaces eqsign [] rest type (some name) (enter_file name files))
      first [] ne = absurd (ne refl)
      first (c ∷ name) ne = unfold step isgraph in refl

  eqsign-Reaches :
      (rest : Bytes)
      → Reaches
          (parser eqsign n tok (b'=' ∷ rest) type cur files)
          (parser spaces hash [] rest type cur files)
  eqsign-Reaches rest = pass first here
    where
      first :
          step (parser eqsign n tok (b'=' ∷ rest) type cur files)
          ≡ goes (parser spaces hash [] rest type cur files)
      first = unfold step in refl

  hash-Reaches :
      (rest : Bytes) (g : File)
      → parse_digest tok (b'\n' ∷ rest) type (current_file cur files) ≡ some g
      → Reaches
          (parser hash n tok (b'\n' ∷ rest) type cur files)
          (parser start n tok (b'\n' ∷ rest) type cur (set_file g files))
  hash-Reaches rest g e = pass first here
    where
      first :
          step (parser hash n tok (b'\n' ∷ rest) type cur files)
          ≡ goes (parser start n tok (b'\n' ∷ rest) type cur (set_file g files))
      first = unfold step isxdigit parse_digest set_file in rw e

  -- The newline, and on to the next line or the end.
  newline-Reaches :
      (c : ℕ) (rest : Bytes)
      → isspace c ≡ false
      → Reaches
          (parser start n tok (b'\n' ∷ c ∷ rest) type cur files)
          (parser start start [] (c ∷ rest) type none files)
  newline-Reaches c rest h = pass first (pass second (pass third here))
    where
      first :
          step (parser start n tok (b'\n' ∷ c ∷ rest) type cur files)
          ≡ goes (parser spaces start tok (b'\n' ∷ c ∷ rest) type none files)
      first = unfold step isspace in ground arith

      second :
          step (parser spaces start tok (b'\n' ∷ c ∷ rest) type none files)
          ≡ goes (parser spaces start (tok ++ b'\n' ∷ []) (c ∷ rest) type none files)
      second = unfold step isspace in ground arith

      third :
          step (parser spaces start (tok ++ b'\n' ∷ []) (c ∷ rest) type none files)
          ≡ goes (parser start start [] (c ∷ rest) type none files)
      third = unfold step in ground arith

pub no_name : (t : DigestType) → digest_from_str [] ≡ t → is_max t ≡ false → ⊥
unfolding digest_from_str
no_name t e h = ground arith

no_value :
    (rest : Bytes) (t : DigestType) (o : Option File) {g : File}
    → parse_digest [] rest t o ≡ some g
    → ⊥
unfolding parse_digest
no_value rest t none e = cc
no_value rest t (some f) e = cc

isxdigit_blank : (c : ℕ) → isxdigit c ≡ true → isspace c ≡ false
unfolding isxdigit isspace
isxdigit_blank c h = ground arith

-- The bytes of a line up to the parenthesis in front of the file's name.
pub open-Reaches :
    (n : State) (tok : Bytes) (type : DigestType) (cur : Option Bytes) (files : FileTable)
    (name rest : Bytes) (t : DigestType)
    → All (λ c. isgraph c ≡ true) name
    → digest_from_str name ≡ t
    → is_max t ≡ false
    → Reaches
        (parser start n tok (name ++ b' ' ∷ b'(' ∷ rest) type cur files)
        (parser file obrace [] rest t none files)
open-Reaches n tok type cur files [] rest t graph e h = absurd (no_name t e h)
open-Reaches n tok type cur files (c ∷ name) rest t graph e h =
    Reaches-trans (start-Reaches n tok type cur files c _ graph.0) (
      Reaches-trans (token-Reaches n type none files alg [] (c ∷ name) _ graph) (
        Reaches-trans (alg-Reaches n (c ∷ name) type none files _ t e h) (
          Reaches-trans
            (space-Reaches obrace (c ∷ name) t none files obrace b'(' _ (unfold isspace in refl))
            (obrace-Reaches obrace [] t none files _))))

-- And up to the end of the name: past it the parser has the file, made if it was not there.
name-Reaches :
    (n : State) (tok : Bytes) (type : DigestType) (cur : Option Bytes) (files : FileTable)
    (name fname rest : Bytes) (t : DigestType)
    → All (λ c. isgraph c ≡ true) name
    → digest_from_str name ≡ t
    → is_max t ≡ false
    → IsName fname
    → Reaches
        (parser start n tok (name ++ b' ' ∷ b'(' ∷ (fname ++ b')' ∷ rest)) type cur files)
        (parser spaces eqsign [] rest t (some fname) (enter_file fname files))
name-Reaches n tok type cur files name fname rest t graph e h f =
    Reaches-trans (open-Reaches n tok type cur files name _ t graph e h) (
      Reaches-trans (token-Reaches obrace t none files file [] fname _ f.0)
        (file-Reaches obrace fname t none files rest f.1))

-- A whole line: the file has what `parse_digest` makes of the value.
pub line-Reaches :
    (n : State) (tok : Bytes) (type : DigestType) (cur : Option Bytes) (files : FileTable)
    (name fname value : Bytes) (t : DigestType) (c : ℕ) (rest : Bytes) {g : File}
    → All (λ c. isgraph c ≡ true) name
    → digest_from_str name ≡ t
    → is_max t ≡ false
    → IsName fname
    → All (λ c. isxdigit c ≡ true) value
    → parse_digest value (b'\n' ∷ c ∷ rest) t (get_file fname (enter_file fname files)) ≡ some g
    → isspace c ≡ false
    → Reaches
        (parser start n tok (line_of name fname value (c ∷ rest)) type cur files)
        (parser start start [] (c ∷ rest) t none (set_file g (enter_file fname files)))
line-Reaches n tok type cur files name fname [] t c rest {g} graph e h f hex parsed blank =
    absurd (no_value _ t _ parsed)
line-Reaches n tok type cur files name fname (v ∷ value) t c rest {g} graph e h f hex parsed blank =
    let files' = enter_file fname files in
    Reaches-trans (name-Reaches n tok type cur files name fname _ t graph e h f) (
      Reaches-trans
        (space-Reaches eqsign [] t (some fname) files' eqsign b'=' _ (unfold isspace in refl))
        (Reaches-trans (eqsign-Reaches eqsign [] t (some fname) files' _) (
          Reaches-trans
            (space-Reaches hash [] t (some fname) files' hash v _ (isxdigit_blank v hex.0))
            (Reaches-trans (token-Reaches hash t (some fname) files' hash [] (v ∷ value) _ hex) (
              Reaches-trans
                (hash-Reaches hash (v ∷ value) t (some fname) files' (c ∷ rest) g
                  (unfold current_file in parsed))
                (newline-Reaches hash (v ∷ value) t (some fname) _ c rest blank))))))
