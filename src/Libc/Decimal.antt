-- ===== src/Libc/Decimal.antt =====
-- Decimal numbers: `strtoul` and `strtoumax` in base 10, and `%u`, `%zu` and `%d` of `printf`.
use asignify.Base.{ℕ, zero, suc, ◌+◌, ◌-◌, ◌*◌, ◌/◌, ◌%◌, ◌≤◌, ◌<◌, ◌≡◌, refl, ◌∙◌, arith}
use asignify.Base.{
  Bool, true, false, [], ◌∷◌, ◌++◌, Bytes, All, All-append, length-append, ap, inl, inr, Bool-cases,
}
use asignify.Base.{ltb, ◌==◌, if◌then◌else◌, length, drop}
use asignify.Libc.{isdigit, isspace}

-- The leading decimal digits of a text.
pub digit_span : Bytes → Bytes
digit_span [] = []
digit_span (c ∷ s) = if isdigit c then c ∷ digit_span s else []

pub decimal_value : ℕ → Bytes → ℕ
decimal_value acc [] = acc
decimal_value acc (c ∷ s) = decimal_value (acc * 10 + (c - b'0')) s

pub space_count : Bytes → ℕ
space_count [] = 0
space_count (c ∷ s) = if isspace c then suc (space_count s) else 0

-- An optional sign: how many bytes it takes, and whether it is a minus.
pub sign_of : Bytes → ℕ × Bool
sign_of [] = (0, false)
sign_of (c ∷ s) = if c == b'-' then (1, true) else if c == b'+' then (1, false) else (0, false)

-- What a call returns: the value, how far `endptr` is behind the start, and `errno == ERANGE`.
pub record Number : Type 0 where
  pub value : ℕ
  pub used : ℕ
  pub range : Bool

-- The number whose digits are `ds`, the first of them `start` bytes into the text.
pub number_of : ℕ → ℕ → Bool → Bytes → Number
number_of limit start minus [] = record { value = 0; used = 0; range = false }
number_of limit start minus ds =
    let v = decimal_value 0 ds in
    let end = start + length ds in
    if ltb limit v then record { value = limit; used = end; range = true } else record {
      value = if minus then (limit + 1 - v) % (limit + 1) else v;
      used = end;
      range = false;
    }

-- `strtoul(s, &end, 10)` where `limit` is the largest value of the type.
unfoldable pub strtoul : ℕ → Bytes → Number
unfolding digit_span decimal_value space_count sign_of number_of isdigit isspace
strtoul limit s =
    let n = space_count s in
    let (k, minus) = sign_of (drop n s) in
    number_of limit (n + k) minus (digit_span (drop (n + k) s))

decimal_fuel : ℕ → ℕ → Bytes
decimal_fuel zero n = []
decimal_fuel (suc f) n =
    let rest = decimal_fuel f (n / 10) in (if ltb n 10 then [] else rest) ++ (b'0' + n % 10) ∷ []

-- `printf` of an unsigned number.
unfoldable pub decimal : ℕ → Bytes
unfolding decimal_fuel
decimal n = decimal_fuel (suc n) n

decimal_value-append :
    (acc : ℕ) (s t : Bytes) → decimal_value acc (s ++ t) ≡ decimal_value (decimal_value acc s) t
unfolding decimal_value
decimal_value-append acc [] t = refl
decimal_value-append acc (c ∷ s) t = decimal_value-append (acc * 10 + (c - b'0')) s t

decimal_value-decimal_fuel : (f n : ℕ) → n < f → decimal_value 0 (decimal_fuel f n) ≡ n
unfolding decimal_fuel decimal_value
decimal_value-decimal_fuel zero n h = absurd (omega arith)
decimal_value-decimal_fuel (suc f) n h = ground (
  arith,
  decimal_value-append 0 (decimal_fuel f (n / 10)) ((b'0' + n % 10) ∷ []),
  decimal_value-decimal_fuel f (n / 10),
)

-- Reading back what was printed.
pub decimal_value-decimal : (n : ℕ) → decimal_value 0 (decimal n) ≡ n
unfolding decimal
decimal_value-decimal n = decimal_value-decimal_fuel (suc n) n (omega arith)

abbrev pub IsDigits : Bytes → Type 0
IsDigits = All (λ c. isdigit c ≡ true)

last : (n : ℕ) → isdigit (b'0' + n % 10) ≡ true
unfolding isdigit
last n = ground arith

decimal_fuel-IsDigits : (f n : ℕ) → IsDigits (decimal_fuel f n)
unfolding decimal_fuel
decimal_fuel-IsDigits zero n = tt
decimal_fuel-IsDigits (suc f) n = elim (Bool-cases (ltb n 10)) [
  | inl h ↦ rw h (last n, tt)
  | inr h ↦
      rw h
        (All-append _ (decimal_fuel f (n / 10)) _ (decimal_fuel-IsDigits f (n / 10)) (last n, tt))
]

pub decimal-IsDigits : (n : ℕ) → IsDigits (decimal n)
unfolding decimal
decimal-IsDigits n = decimal_fuel-IsDigits (suc n) n

pub length-decimal_pos : (n : ℕ) → 0 < length (decimal n)
unfolding decimal
length-decimal_pos n =
    ground (
      arith,
      length-append (if ltb n 10 then [] else decimal_fuel n (n / 10)) ((b'0' + n % 10) ∷ []),
    )

digit_span-append :
    (ds rest : Bytes) → IsDigits ds → digit_span rest ≡ [] → digit_span (ds ++ rest) ≡ ds
unfolding digit_span
digit_span-append [] rest h e = e
digit_span-append (c ∷ ds) rest h e = rw h.0 (ap (◌∷◌ c) (digit_span-append ds rest h.1 e))

digit_starts :
    (c : ℕ) (s : Bytes) → isdigit c ≡ true → (isspace c ≡ false) × (sign_of (c ∷ s) ≡ (0, false))
unfolding isdigit isspace sign_of
digit_starts c s h = ground arith

strtoul-digits :
    (limit c : ℕ) (ds rest : Bytes)
    → IsDigits (c ∷ ds)
    → digit_span rest ≡ []
    → strtoul limit (c ∷ (ds ++ rest)) ≡ number_of limit 0 false (c ∷ ds)
unfolding strtoul
strtoul-digits limit c ds rest h e =
    let plain : (isspace c ≡ false) × (sign_of (c ∷ (ds ++ rest)) ≡ (0, false)) =
      digit_starts c (ds ++ rest) h.0 in
    rw (plain.0) (rw (plain.1) (rw (digit_span-append (c ∷ ds) rest h e)))

number_of_fits :
    (limit : ℕ) (ds : Bytes)
    → 0 < length ds
    → decimal_value 0 ds ≤ limit
    → number_of limit 0 false ds
      ≡ record { value = decimal_value 0 ds; used = length ds; range = false }
unfolding number_of
number_of_fits limit [] p h = absurd (omega arith)
number_of_fits limit (c ∷ ds) p h = ground arith

strtoul_fits :
    (limit : ℕ) (ds rest : Bytes)
    → IsDigits ds
    → 0 < length ds
    → digit_span rest ≡ []
    → decimal_value 0 ds ≤ limit
    → strtoul limit (ds ++ rest)
      ≡ record { value = decimal_value 0 ds; used = length ds; range = false }
strtoul_fits limit [] rest d p e h = absurd (omega arith)
strtoul_fits limit (c ∷ ds) rest d p e h =
    strtoul-digits limit c ds rest d e ∙ number_of_fits limit (c ∷ ds) p h

-- A printed number that fits the type reads back as itself, up to the end of its digits.
pub strtoul-decimal :
    (limit n : ℕ) (rest : Bytes)
    → n ≤ limit
    → digit_span rest ≡ []
    → strtoul limit (decimal n ++ rest)
      ≡ record { value = n; used = length (decimal n); range = false }
strtoul-decimal limit n rest h e = rw (decimal_value-decimal n) at (
    strtoul_fits limit (decimal n) rest (decimal-IsDigits n) (length-decimal_pos n) e
      (rw (decimal_value-decimal n) h))

pub digit_span_stop : (c : ℕ) (s : Bytes) → isdigit c ≡ false → digit_span (c ∷ s) ≡ []
unfolding digit_span
digit_span_stop c s h = rw h
