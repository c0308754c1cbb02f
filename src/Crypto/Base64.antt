-- ===== src/Crypto/Base64.antt =====
-- The base64 codec that the program links (`b64_ntop`, `b64_pton` and `b64_pton_stop`), as a
-- parameter.
use asignify.Base.{
  ℕ, ◌≤◌, ◌≡◌, true, false, not, ◌&&◌, Option, some, [], ◌∷◌, ◌++◌, Bytes, IsBytes, All, ◌==◌,
  length,
}
use asignify.Libc.{isgraph}

-- What follows an encoded text: a colon, or the end of the line.
pub data EndsText : Bytes → Type 0 where
  at_colon : {s : Bytes} → EndsText (b':' ∷ s)
  at_newline : EndsText (b'\n' ∷ [])

-- What follows a text that stands alone: nothing, or the end of the line.
pub data EndsBare : Bytes → Type 0 where
  at_nul : EndsBare []
  at_line_end : EndsBare (b'\n' ∷ [])

-- `pton_stop n s` is `b64_pton_stop(s, target, n, ":")`, `pton_space n s` the same with a space, and
-- `pton n s` is `b64_pton(s, target, n)`: the bytes that are stored, or none for -1.
pub record Base64 : Type 0 where
  pub ntop : Bytes → Bytes
  pub pton_stop : ℕ → Bytes → Option Bytes
  pub pton_space : ℕ → Bytes → Option Bytes
  pub pton : ℕ → Bytes → Option Bytes
  pub ntop_text :
      (b : Bytes) → IsBytes b → All (λ c. (isgraph c && not (c == b':')) ≡ true) (ntop b)
  pub ntop_no_dash : (b : Bytes) → IsBytes b → All (λ c. (c == b'-') ≡ false) (ntop b)
  pub ntop_same_length : (a b : Bytes) → length a ≡ length b → length (ntop a) ≡ length (ntop b)
  pub pton_stop-ntop :
      (n : ℕ) (b rest : Bytes)
      → IsBytes b
      → length b ≤ n
      → EndsText rest
      → pton_stop n (ntop b ++ rest) ≡ some b
  pub pton_space-ntop :
      (n : ℕ) (b rest : Bytes)
      → IsBytes b
      → length b ≤ n
      → pton_space n (ntop b ++ b' ' ∷ rest) ≡ some b
  pub pton-ntop :
      (n : ℕ) (b rest : Bytes)
      → IsBytes b
      → length b ≤ n
      → EndsBare rest
      → pton n (ntop b ++ rest) ≡ some b
