-- ===== src/Keys/Load/Checks.antt =====
-- Which of the conditions of `asignify_privkey_is_sane` a key that was read can fail.
use asignify.Base.{◌≡◌, refl, arith, ◌&&◌, Option, none, some, List, [], ◌∷◌, Bytes, ◌==◌}
use asignify.Base.{starts_with, Bool-cases, inl, inr}
use mathlib.Core.Path.{subst}
use asignify.Data.{PrivateKey}
use asignify.Keys.Line.{parse_line}
use asignify.Keys.Load.{names_pbkdf, is_sane, has, no_key, parse_lines, read_key, privkey_magic}
use asignify.Keys.Load.Values.{Unnamed, Keeps}
use asignify.Keys.Load.Unnamed.{parse_line-Keeps}

parse_lines-Unnamed :
    (ls : List Bytes) (k k' : PrivateKey) → Unnamed k → parse_lines ls k ≡ some k' → Unnamed k'
unfolding parse_lines
parse_lines-Unnamed [] k k' u e = let same : k ≡ k' = cc in subst Unnamed same u
parse_lines-Unnamed (l ∷ ls) k k' u e =
    go (parse_line l k) refl (parse_line-Keeps l k u) (λ q. parse_lines-Unnamed ls q k')
  where
    go :
        (r : Option PrivateKey)
        → parse_line l k ≡ r
        → Keeps r
        → ((q : PrivateKey) → Unnamed q → parse_lines ls q ≡ some k' → Unnamed k')
        → Unnamed k'
    go none d v later = let no = rw (d, parse_lines) at e in cc
    go (some q) d v later = later q v (rw (d, parse_lines) at e)

no_name : Unnamed no_key
unfolding names_pbkdf
no_name = refl

read_key-Unnamed : (lines : List Bytes) (k : PrivateKey) → read_key lines ≡ some k → Unnamed k
unfolding read_key
read_key-Unnamed [] k e = let same : no_key ≡ k = cc in subst Unnamed same no_name
read_key-Unnamed (l ∷ ls) k e = elim (Bool-cases (starts_with privkey_magic l)) [
  | inl found ↦ parse_lines-Unnamed ls no_key k no_name (rw (found, read_key) at e)
  | inr other ↦ let refused = rw (other, read_key) at e in cc
]

-- A key that was read from a file passes `is_sane` if only its version is 1 and it has a blob. The
-- number of rounds, the salt and the checksum of an encrypted key, which the other half of the
-- function is about, are not looked at.
pub is_sane-read_key :
    (lines : List Bytes) (k : PrivateKey)
    → read_key lines ≡ some k
    → is_sane k ≡ (k.version == 1 && has k.encrypted_blob)
unfolding is_sane
is_sane-read_key lines k e = let u = read_key-Unnamed lines k e in ground arith
