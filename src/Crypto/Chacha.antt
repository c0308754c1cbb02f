-- ===== src/Crypto/Chacha.antt =====
-- The stream cipher of libasignify/chacha.c with its incremental interface, as a parameter.
use asignify.Base.{ℕ, ◌≡◌, List, [], ◌∷◌, ◌++◌, Bytes}
use asignify.Util.Digest.Chunks.{concat}

-- All that the calls of `chacha_update` on the pieces and the call of `chacha_final` store.
abbrev pub outputs : {S : Type 0} → (S → Bytes → Bytes × S) → (S → Bytes) → S → List Bytes → Bytes
outputs update final s [] = final s
outputs update final s (m ∷ ms) = let (o, t) = update s m in o ++ outputs update final t ms

-- `init key iv rounds` is `chacha_init`; a call of `update` holds back what does not fill a block.
-- The stream does not depend on how the text is cut, and is its own inverse.
pub record Chacha : Type 1 where
  pub State : Type 0
  pub init : Bytes → Bytes → ℕ → State
  pub update : State → Bytes → Bytes × State
  pub final : State → Bytes
  pub stream : Bytes → Bytes → ℕ → Bytes → Bytes
  pub outputs-stream :
      (key iv : Bytes) (rounds : ℕ) (ms : List Bytes)
      → outputs update final (init key iv rounds) ms ≡ stream key iv rounds (concat ms)
  pub stream_twice :
      (key iv : Bytes) (rounds : ℕ) (m : Bytes) → stream key iv rounds (stream key iv rounds m) ≡ m
