-- ===== src/SignVerify/Lines.antt =====
-- The whole list of lines is read back.
use asignify.Base.{ℕ, ◌≡◌, refl, ap, ◌∙◌, arith, true, false, Option, none, some}
use asignify.Base.{
  List, [], ◌∷◌, ◌++◌, append_assoc, Bytes, bytes_eq, bytes_eq_refl, bytes_eq_iff, Bool-cases, inl,
  inr, if◌then◌else◌, All,
}
use asignify.Libc.{isspace, isgraph}
use asignify.Util.Digest.{DigestType}
use asignify.Data.{File}
use asignify.Verify.Digest.{digest_from_str}
use asignify.Verify.Files.{FileTable, get_file, set_file}
use asignify.Verify.Machine.{
  State, Parser, start, Parsed, step, run, initial, parse_files, enter_file, new_file,
}
use asignify.Verify.Machine.Reach.{Reaches, here, Reaches-trans, parser, run-Reaches-some}
use asignify.Verify.Machine.Line.{line_of, no_name, line-Reaches}
use asignify.Verify.Machine.Termination.{parse_files_complete}
use asignify.Sign.Lines.{ok, file_lines, line_text, file_lines-split}
use asignify.SignVerify.Table.{
  found, get_file-enter_file, get_file-set_file-enter_file, get_file-fname,
}
use asignify.SignVerify.Entry.{IsSignable, IsEntry, merge, file_line-IsEntry}

record_line : File → FileTable → FileTable
record_line f files =
    set_file (merge f (found (get_file f.fname files) f.fname)) (enter_file f.fname files)

pub record_all : List File → FileTable → FileTable
record_all [] files = files
record_all (f ∷ fs) files = record_all fs (record_line f files)

-- What all the lines for the name `n` say together, in their order, from what is known before.
abbrev pub summary : Bytes → Option File → List File → Option File
summary n known [] = known
summary n known (f ∷ fs) =
    summary n (if bytes_eq f.fname n then some (merge f (found known n)) else known) fs

merge-fname : (f g : File) → (merge f g).fname ≡ g.fname
merge-fname f g = ground arith

found-fname : (n : Bytes) (files : FileTable) → (found (get_file n files) n).fname ≡ n
found-fname n files = go (get_file n files) refl
  where
    go : (o : Option File) → get_file n files ≡ o → (found o n).fname ≡ n
    go none e = unfold new_file in refl
    go (some f) e = get_file-fname n files e

get_file-record_line :
    (n : Bytes) (f : File) (files : FileTable)
    → get_file n (record_line f files) ≡ (
        if bytes_eq f.fname n
        then some (merge f (found (get_file n files) n))
        else get_file n files)
unfolding record_line
get_file-record_line n f files =
    let g = merge f (found (get_file f.fname files) f.fname) in
    get_file-set_file-enter_file n f.fname files g (merge-fname f _ ∙ found-fname f.fname files)
    ∙ elim (Bool-cases (bytes_eq f.fname n)) [
      | inl h ↦
          rw h
            (ap (λ k. some (merge f (found (get_file k files) k))) ((bytes_eq_iff f.fname n).0 h))
      | inr h ↦ rw h
    ]

get_file-record_all :
    (n : Bytes) (fs : List File) (files : FileTable)
    → get_file n (record_all fs files) ≡ summary n (get_file n files) fs
unfolding record_all
get_file-record_all n [] files = refl
get_file-record_all n (f ∷ fs) files =
    get_file-record_all n fs (record_line f files)
    ∙ ap (λ o. summary n o fs) (get_file-record_line n f files)

-- The first byte is no space.
pub record StartsLine (text : Bytes) : Type 0 where
  pub first : ℕ
  pub others : Bytes
  pub text_is : text ≡ first ∷ others
  pub blank : isspace first ≡ false

graph_blank : (c : ℕ) → isgraph c ≡ true → isspace c ≡ false
unfolding isgraph isspace
graph_blank c h = ground arith

pub IsEntry-StartsLine :
    {f : File} {line : Bytes} (rest : Bytes) → IsEntry f line → StartsLine (line ++ rest)
IsEntry-StartsLine {f} {line} rest i = go i.name i.graph i.from_str i.text
  where
    go :
        (name : Bytes)
        → All (λ c. isgraph c ≡ true) name
        → digest_from_str name ≡ i.kind
        → line ≡ line_text name f.fname i.value
        → StartsLine (line ++ rest)
    go [] graph e t = absurd (no_name i.kind e i.known)
    go (c ∷ name) graph e t =
        rw t (record { first = c; others = _; text_is = refl; blank = graph_blank c graph.0 })

file_lines-StartsLine :
    (fs : List File) {text rest : Bytes}
    → All IsSignable fs
    → file_lines fs ≡ ok text
    → StartsLine rest
    → StartsLine (text ++ rest)
unfolding file_lines
file_lines-StartsLine [] {text} s e r = let empty : [] ≡ text = cc in rw (← empty) r
file_lines-StartsLine (f ∷ fs) {text} {rest} s e r =
    let (line, others, text_is, one, _) = file_lines-split f fs e in
    rw (← text_is, append_assoc)
      (IsEntry-StartsLine (others ++ rest) (file_line-IsEntry f s.0.recorded one))

pub line_text-append :
    (name fname value rest : Bytes)
    → line_text name fname value ++ rest ≡ line_of name fname value rest
line_text-append name fname value rest = simp append_assoc

-- One line is taken, and recorded.
line-run :
    (n : State) (tok : Bytes) (type : DigestType) (cur : Option Bytes) (files : FileTable)
    (f : File) (line : Bytes) (c : ℕ) (rest : Bytes)
    → IsSignable f
    → (i : IsEntry f line) → isspace c ≡ false
    → Reaches
        (parser start n tok (line ++ c ∷ rest) type cur files)
        (parser start start [] (c ∷ rest) i.kind none (record_line f files))
unfolding record_line
line-run n tok type cur files f line c rest s i blank = rw (i.text) (
    rw (line_text-append i.name f.fname i.value (c ∷ rest)) (
      line-Reaches n tok type cur files i.name f.fname i.value i.kind c rest
        {g = merge f (found (get_file f.fname files) f.fname)} i.graph i.from_str i.known s.name
        i.hex (rw own (i.parsed _ (c ∷ rest))) blank))
  where
    own :
        get_file f.fname (enter_file f.fname files) ≡ some (found (get_file f.fname files) f.fname)
    own = get_file-enter_file f.fname f.fname files ∙ rw (bytes_eq_refl f.fname)

-- The parser comes to the start of a line, in front of `rest`.
pub record Arrives (p : Parser) (rest : Bytes) (files : FileTable) : Type 0 where
  pub n : State
  pub tok : Bytes
  pub kind : DigestType
  pub cur : Option Bytes
  pub reached : Reaches p (parser start n tok rest kind cur files)

pub lines-Arrives :
    (fs : List File) {text rest : Bytes} (n : State) (tok : Bytes) (type : DigestType)
    (cur : Option Bytes) (files : FileTable)
    → All IsSignable fs
    → file_lines fs ≡ ok text
    → StartsLine rest
    → Arrives (parser start n tok (text ++ rest) type cur files) rest (record_all fs files)
unfolding file_lines record_all
lines-Arrives [] {text} n tok type cur files s e r =
    let empty : [] ≡ text = cc in
    rw (← empty) (record { n = n; tok = tok; kind = type; cur = cur; reached = here })
lines-Arrives (f ∷ fs) {text} {rest} n tok type cur files s e r =
    let (line, others, text_is, one, others_are) = file_lines-split f fs e in
    let i = file_line-IsEntry f s.0.recorded one in
    let next = file_lines-StartsLine fs s.1 others_are r in
    let later = lines-Arrives fs start [] i.kind none (record_line f files) s.1 others_are r in
    let this = line-run n tok type cur files f line next.first next.others s.0 i next.blank in
    rw (← text_is, append_assoc)
      (record {
        n = later.n;
        tok = later.tok;
        kind = later.kind;
        cur = later.cur;
        reached = Reaches-trans (rw (← next.text_is) at this) later.reached;
      })

abbrev accepts : FileTable → Parsed
accepts files = record { accepted = true; bad_format = false; files = files }

end_run :
    (n : State) (tok : Bytes) (type : DigestType) (cur : Option Bytes) (files : FileTable)
    → run 2 (parser start n tok (0 ∷ []) type cur files) ≡ some (accepts files)
unfolding run step
end_run n tok type cur files = refl

the_end : StartsLine (0 ∷ [])
unfolding isspace
the_end = record { first = 0; others = []; text_is = refl; blank = refl }

-- If the files of a sign context have names that the format can hold, and digests of the right
-- kinds and lengths, then the lines that are written for them are accepted by the parser of the
-- verifying side, and the table that it fills says of every name just what the lines say.
pub parse_files-file_lines :
    (fs : List File) {text : Bytes}
    → All IsSignable fs
    → file_lines fs ≡ ok text
    → (files : FileTable) × (parse_files [] text
        ≡ some (record { accepted = true; bad_format = false; files = files }))
      × ((n : Bytes) → get_file n files ≡ summary n none fs)
unfolding get_file
parse_files-file_lines fs {text} s e =
    let a = lines-Arrives fs start [] DigestType.max none [] s e the_end in
    let (fuel, ends) = run-Reaches-some 2 a.reached (end_run a.n a.tok a.kind a.cur _) in
    (
      record_all fs [],
      parse_files_complete fuel [] text (unfold initial in ends),
      λ n. get_file-record_all n fs [],
    )
