-- ===== src/SignVerify/Hangs.antt =====
-- A signature that is written for a file with a space in its name is never parsed to its end.
use asignify.Base.{ℕ, ◌≡◌, refl, sym, ap, ◌∙◌, arith, true, false, Option, none}
use asignify.Base.{List, [], ◌∷◌, ◌++◌, append_assoc, Bytes, All}
use asignify.Libc.{isgraph}
use asignify.Util.Digest.{DigestType}
use asignify.Data.{File}
use asignify.Verify.Files.{FileTable}
use asignify.Verify.Machine.{State, start, file, obrace, Parser, step, goes, run, initial}
use asignify.Verify.Machine.Reach.{Reaches, Reaches-trans, parser, in_name, token-Reaches}
use asignify.Verify.Machine.Line.{open-Reaches}
use asignify.Verify.Machine.Termination.{run-Reaches}
use asignify.Sign.Lines.{ok, file_lines, file_lines-split}
use asignify.SignVerify.Entry.{IsRecorded, IsSignable, IsEntry, file_line-IsEntry}
use asignify.SignVerify.Lines.{lines-Arrives, record_all, IsEntry-StartsLine, line_text-append}

-- The name goes well up to a byte that is not graphic, such as a space.
pub record HasGap (name : Bytes) : Type 0 where
  pub front : Bytes
  pub gap : ℕ
  pub back : Bytes
  pub name_is : name ≡ front ++ gap ∷ back
  pub front_good : All (λ c. in_name c ≡ true) front
  pub gap_bad : isgraph gap ≡ false

idle_at_gap :
    (n : State) (tok : Bytes) (type : DigestType) (cur : Option Bytes) (files : FileTable) (c : ℕ)
    (rest : Bytes)
    → isgraph c ≡ false
    → step (parser file n tok (c ∷ rest) type cur files)
      ≡ goes (parser file n tok (c ∷ rest) type cur files)
unfolding step isgraph
idle_at_gap n tok type cur files c rest h = ground arith

file_lines-append :
    (fs gs : List File) {text : Bytes}
    → file_lines (fs ++ gs) ≡ ok text
    → (a b : Bytes) × (file_lines fs ≡ ok a) × (file_lines gs ≡ ok b) × (text ≡ a ++ b)
unfolding file_lines
file_lines-append [] gs {text} e = ([], text, refl, e, refl)
file_lines-append (f ∷ fs) gs {text} e =
    let (line, others, text_is, one, others_are) = file_lines-split f (fs ++ gs) e in
    let (a, b, left, right, split) = file_lines-append fs gs others_are in
    (
      line ++ a,
      b,
      rw (one, left),
      right,
      sym text_is ∙ ap (λ t. line ++ t) split ∙ sym (append_assoc line a b),
    )

gap-run :
    (n : State) (tok : Bytes) (type : DigestType) (cur : Option Bytes) (files : FileTable)
    (f : File) (line tail : Bytes) (fuel : ℕ)
    → IsEntry f line
    → HasGap f.fname
    → {p : Parser} → Reaches p (parser start n tok (line ++ tail) type cur files)
    → run fuel p ≡ none
gap-run n tok type cur files f line tail fuel i g {p} before =
    run-Reaches fuel (Reaches-trans before (rw text_is there))
      (idle_at_gap obrace g.front i.kind none files g.gap (back i.value) g.gap_bad)
  where
    back : Bytes → Bytes
    back value = g.back ++ b')' ∷ b' ' ∷ b'=' ∷ b' ' ∷ (value ++ b'\n' ∷ tail)

    text_is : line ++ tail ≡ i.name ++ b' ' ∷ b'(' ∷ (g.front ++ g.gap ∷ back i.value)
    text_is =
        ap (λ l. l ++ tail) i.text
        ∙ line_text-append i.name f.fname i.value tail
        ∙ rw g.name_is (rw append_assoc refl)

    there :
        Reaches
          (parser start n tok
            (i.name ++ b' ' ∷ b'(' ∷ (g.front ++ g.gap ∷ back i.value))
            type
            cur
            files)
          (parser file obrace g.front (g.gap ∷ back i.value) i.kind none files)
    there =
        Reaches-trans (open-Reaches n tok type cur files i.name _ i.kind i.graph i.from_str i.known)
          (token-Reaches obrace i.kind none files file [] g.front _ g.front_good)

-- If a file of a sign context has a byte in its name that is not graphic, with neither a `)` nor
-- another such byte before it, and the files before it have names that the format can hold, then
-- the parser of the verifying side never returns on the text that is written: no number of passes
-- ends its loop.
pub parse_files-HasGap :
    (fs : List File) (f : File) (more : List File) {text : Bytes}
    → All IsSignable fs
    → IsRecorded f
    → HasGap f.fname
    → file_lines (fs ++ f ∷ more) ≡ ok text
    → (fuel : ℕ) → run fuel (initial [] text) ≡ none
unfolding file_lines
parse_files-HasGap fs f more {text} s r g e fuel =
    let (before, after, before_are, after_are, split) = file_lines-append fs (f ∷ more) e in
    let (line, others, parts, one, _) = file_lines-split f more after_are in
    let i = file_line-IsEntry f r one in
    let text_is : text ++ 0 ∷ [] ≡ before ++ (line ++ (others ++ 0 ∷ [])) =
      rw (split, ← parts) (simp append_assoc) in
    let a =
      lines-Arrives fs start [] DigestType.max none [] s before_are
        (IsEntry-StartsLine (others ++ 0 ∷ []) i) in
    gap-run a.n a.tok a.kind a.cur (record_all fs []) f line (others ++ 0 ∷ []) fuel i g
      (unfold initial in rw text_is a.reached)
