-- ===== src/Libc.antt =====
-- What the sources use of the C library: the character classes of the "C" locale, the
-- comparison of texts, and numbers in decimal. Characters are bytes (`unsigned char`).
pub mod Decimal
pub mod Lines
use asignify.Base.{ℕ, zero, suc, ◌+◌, Bool, true, false, ◌&&◌, ◌||◌, List, [], ◌∷◌, Bytes}
use asignify.Base.{leb, ◌==◌, within, if◌then◌else◌}

unfoldable pub isspace : ℕ → Bool
isspace c = within 9 13 c || c == 32

unfoldable pub isgraph : ℕ → Bool
isgraph c = within 33 126 c

unfoldable pub isdigit : ℕ → Bool
isdigit c = within b'0' b'9' c

unfoldable pub isxdigit : ℕ → Bool
isxdigit c = within b'0' b'9' c || within b'A' b'F' c || within b'a' b'f' c

unfoldable pub tolower : ℕ → ℕ
tolower c = if within b'A' b'Z' c then c + 32 else c

-- `strncasecmp(a, b, n) == 0`; the end of a list is the NUL.
unfoldable pub strncasecmp_eq : Bytes → Bytes → ℕ → Bool
unfolding tolower
strncasecmp_eq a b zero = true
strncasecmp_eq [] [] (suc n) = true
strncasecmp_eq [] (y ∷ b) (suc n) = y == 0
strncasecmp_eq (x ∷ a) [] (suc n) = x == 0
strncasecmp_eq (x ∷ a) (y ∷ b) (suc n) = tolower x == tolower y && (x == 0 || strncasecmp_eq a b n)

-- `strcasecmp(a, b) == 0`.
unfoldable pub strcasecmp_eq : Bytes → Bytes → Bool
unfolding tolower
strcasecmp_eq [] [] = true
strcasecmp_eq (x ∷ a) (y ∷ b) = tolower x == tolower y && strcasecmp_eq a b
strcasecmp_eq _ _ = false
