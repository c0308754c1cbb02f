-- ===== src/Verify/Machine/Reach.antt =====
-- Runs of the loop as sequences of passes, and how one piece of a line is taken.
use asignify.Base.{ℕ, suc, ◌≡◌, arith, ◌≢◌}
use asignify.Base.{
  Bool, true, false, not, ◌&&◌, Option, some, [], ◌∷◌, ◌++◌, append-nil, append_assoc,
}
use asignify.Base.{Bytes, ◌==◌, All}
use asignify.Libc.{isgraph, isxdigit}
use asignify.Util.Digest.{DigestType}
use asignify.Verify.Files.{FileTable}
use asignify.Verify.Machine.{State, alg, file, hash}
use asignify.Verify.Machine.{Parser, goes, step, Parsed, run}

-- `q` is met after some passes from `p`.
pub data Reaches : Parser → Parser → Type 0 where
  here : {p : Parser} → Reaches p p
  pass : {p q r : Parser} → step p ≡ goes q → Reaches q r → Reaches p r

pub Reaches-trans : {p q r : Parser} → Reaches p q → Reaches q r → Reaches p r
Reaches-trans here t = t
Reaches-trans (pass s u) t = pass s (Reaches-trans u t)

-- A run that goes on from a parser that is met is a run from the first one.
pub run-Reaches-some :
    {p q : Parser} (k : ℕ) {r : Parsed}
    → Reaches p q
    → run k q ≡ some r
    → (fuel : ℕ) × (run fuel p ≡ some r)
unfolding run
run-Reaches-some k here e = (k, e)
run-Reaches-some k (pass s u) e =
    let (fuel, d) = run-Reaches-some k u e in (suc fuel, rw (s, run) d)

abbrev pub parser : State → State → Bytes → Bytes → DigestType → Option Bytes → FileTable → Parser
parser s n tok rest type cur files = record {
  state = s;
  next_state = n;
  tok = tok;
  rest = rest;
  dig_type = type;
  cur_file = cur;
  files = files;
}

-- The bytes that `PARSE_FILE` takes.
abbrev pub in_name : ℕ → Bool
in_name c = isgraph c && not (c == b')')

abbrev pub IsName : Bytes → Type 0
IsName name = All (λ c. in_name c ≡ true) name × (name ≢ [])

-- The states that gather a token, and the bytes that they take.
abbrev pub takes : State → ℕ → Bool
takes alg c = isgraph c
takes file c = in_name c
takes hash c = isxdigit c
takes _ c = false

module _ (n : State) (type : DigestType) (cur : Option Bytes) (files : FileTable) where
  step-takes :
      (s : State) (tok : Bytes) (c : ℕ) (rest : Bytes)
      → takes s c ≡ true
      → step (parser s n tok (c ∷ rest) type cur files)
        ≡ goes (parser s n (tok ++ c ∷ []) rest type cur files)
  unfolding step
  step-takes alg tok c rest h = ground arith
  step-takes file tok c rest h = ground arith
  step-takes hash tok c rest h = ground arith
  step-takes _ tok c rest h = cc

  pub token-Reaches :
      (s : State) (tok text rest : Bytes)
      → All (λ c. takes s c ≡ true) text
      → Reaches
          (parser s n tok (text ++ rest) type cur files)
          (parser s n (tok ++ text) rest type cur files)
  token-Reaches s tok [] rest h = rw append-nil here
  token-Reaches s tok (c ∷ text) rest h =
      pass (step-takes s tok c (text ++ rest) h.0)
        (rw append_assoc at (token-Reaches s (tok ++ c ∷ []) text rest h.1))
