-- ===== src/Libc/Lines.antt =====
-- `getline`: a file as the lines that the calls return, each with its newline; the last one has
-- none if the file does not end in one.
use asignify.Util.Digest.Chunks.{concat}
use asignify.Base.{ap, ◌∙◌, inl, inr, Bool-cases, ℕ, ◌≡◌, refl, false, List, [], ◌∷◌, ◌++◌}
use asignify.Base.{Bytes, All, ◌==◌, if◌then◌else◌}

-- The line in front of which `c` stands.
pub push_front : ℕ → List Bytes → List Bytes
push_front c [] = (c ∷ []) ∷ []
push_front c (l ∷ ls) = (c ∷ l) ∷ ls

unfoldable pub getlines : Bytes → List Bytes
unfolding push_front
getlines [] = []
getlines (c ∷ s) =
    let rest = getlines s in if c == b'\n' then (c ∷ []) ∷ rest else push_front c rest

-- A line without its newline.
abbrev pub IsLine : Bytes → Type 0
IsLine = All (λ c. (c == b'\n') ≡ false)

pub getlines-line :
    (l s : Bytes) → IsLine l → getlines (l ++ b'\n' ∷ s) ≡ (l ++ b'\n' ∷ []) ∷ getlines s
unfolding getlines
getlines-line [] s h = refl
getlines-line (c ∷ l) s h = rw (h.0, getlines) (rw (getlines-line l s h.1))

concat-push_front : (c : ℕ) (ls : List Bytes) → concat (push_front c ls) ≡ c ∷ concat ls
unfolding push_front
concat-push_front c [] = refl
concat-push_front c (l ∷ ls) = refl

-- The lines together are the file.
pub concat-getlines : (s : Bytes) → concat (getlines s) ≡ s
unfolding getlines
concat-getlines [] = refl
concat-getlines (c ∷ s) = elim (Bool-cases (c == b'\n')) [
  | inl newline ↦ rw (newline, getlines) (ap (◌∷◌ c) (concat-getlines s))
  | inr other ↦
      rw (other, getlines) (concat-push_front c (getlines s) ∙ ap (◌∷◌ c) (concat-getlines s))
]
