-- ===== src/Protocol/Text.antt =====
-- C strings in packed fields: `std::string(const char *)` and `std::strncpy`.
use game_x.Base.{
  ℕ, zero, suc, ◌≡◌, refl, ap, [], ◌∷◌, ◌++◌, Option, none, some, ◌==◌, if◌then◌else◌, length, take,
  All,
}
use game_x.Base.Bytes.{Bytes}
use mathlib.Core.Option
use mathlib.Core.Bool.{false}

-- The bytes of memory from a `char *` on, up to the first NUL. `none`: no NUL before the end of the
-- buffer, where the constructor of `std::string` goes on reading outside of it.
unfoldable pub c_string : Bytes → Option Bytes
c_string [] = none
c_string (c ∷ cs) = let rest = c_string cs in if c == 0 then some [] else Option.map (◌∷◌ c) rest

-- `std::strncpy(field, s.c_str(), n)`: at most n bytes, up to the NUL, and NULs for what is left.
unfoldable pub strncpy : ℕ → Bytes → Bytes
strncpy zero s = []
strncpy (suc n) [] = 0 ∷ strncpy n []
strncpy (suc n) (c ∷ s) = c ∷ strncpy n (if c == 0 then [] else s)

-- A text as `std::string::c_str()` hands it on, with no NUL inside.
abbrev pub IsText : Bytes → Type 0
IsText = All (λ c. (c == 0) ≡ false)

pub length-strncpy : (n : ℕ) (s : Bytes) → length (strncpy n s) ≡ n
unfolding strncpy
length-strncpy zero s = refl
length-strncpy (suc n) [] = ap suc (length-strncpy n [])
length-strncpy (suc n) (c ∷ s) = ap suc (length-strncpy n (if c == 0 then [] else s))

c_string-strncpy-nil : (n : ℕ) (rest : Bytes) → c_string (strncpy n [] ++ 0 ∷ rest) ≡ some []
unfolding strncpy c_string
c_string-strncpy-nil zero rest = refl
c_string-strncpy-nil (suc n) rest = refl

-- A text without NULs that strncpy copies into a field of n bytes with a NUL behind it is read back
-- as its first n bytes.
pub c_string-strncpy :
    (n : ℕ) (s rest : Bytes) → IsText s → c_string (strncpy n s ++ 0 ∷ rest) ≡ some (take n s)
unfolding strncpy c_string
c_string-strncpy zero s rest t = refl
c_string-strncpy (suc n) [] rest t = c_string-strncpy-nil (suc n) rest
c_string-strncpy (suc n) (c ∷ s) rest (t, ts) = rw (t, c_string-strncpy n s rest ts)

map-append-nil : (o : Option Bytes) → o ≡ Option.map (λ r. [] ++ r) o
map-append-nil none = refl
map-append-nil (some r) = refl

map-cons-append :
    (c : ℕ) (s : Bytes) (o : Option Bytes)
    → Option.map (◌∷◌ c) (Option.map (λ r. s ++ r) o) ≡ Option.map (λ r. (c ∷ s) ++ r) o
map-cons-append c s none = refl
map-cons-append c s (some r) = refl

-- A field full of text has no NUL of its own: the read goes on into what stands behind it.
pub c_string-append :
    (s rest : Bytes) → IsText s → c_string (s ++ rest) ≡ Option.map (λ r. s ++ r) (c_string rest)
unfolding c_string
c_string-append [] rest t = map-append-nil (c_string rest)
c_string-append (c ∷ s) rest (t, ts) =
    rw (t, c_string-append s rest ts) (map-cons-append c s (c_string rest))

-- Text alone, with no NUL to its end, sends the read out of the buffer.
pub c_string_overrun : (s : Bytes) → IsText s → c_string s ≡ none
unfolding c_string
c_string_overrun [] t = refl
c_string_overrun (c ∷ s) (t, ts) = rw (t, c_string_overrun s ts)
