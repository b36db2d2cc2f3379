-- ===== src/Base/Bytes.antt =====
-- Packed little-endian fields: what a `reinterpret_cast` of a packed struct reads and writes on the
-- machines that the program runs on. A byte is a number below 256.
use Prim.Native.Nat.{ℕ, zero, suc, ◌+◌, ◌*◌, ◌/◌, ◌%◌, ◌^◌, ◌<◌}
use mathlib.Core.Path.{◌≡◌, refl}
use mathlib.Core.Bool.{Bool, true, false, ◌&&◌}
use mathlib.Core.List.{List, [], ◌∷◌, ◌++◌}
use native.Mathlib.Omega.{arith}
use game_x.Base.Tests.{◌==◌, ==_refl}
use game_x.Base.Lists.{length, All}

abbrev pub Bytes : Type 0
Bytes = List ℕ

abbrev pub IsBytes : Bytes → Type 0
IsBytes = All (λ b. b < 256)

-- The byte at an offset. Past the end it is 0; every reader tests the size first.
abbrev pub byte_at : ℕ → Bytes → ℕ
byte_at i [] = 0
byte_at zero (b ∷ bs) = b
byte_at (suc i) (b ∷ bs) = byte_at i bs

unfoldable pub put_u16 : ℕ → Bytes
put_u16 n = (n % 256) ∷ (n / 256 % 256) ∷ []

unfoldable pub put_u32 : ℕ → Bytes
put_u32 n = (n % 256) ∷ (n / 256 % 256) ∷ (n / 65536 % 256) ∷ (n / 16777216 % 256) ∷ []

unfoldable pub get_u16 : ℕ → Bytes → ℕ
get_u16 i bs = byte_at i bs + 256 * byte_at (i + 1) bs

unfoldable pub get_u32 : ℕ → Bytes → ℕ
get_u32 i bs =
    byte_at i bs
    + 256 * byte_at (i + 1) bs
    + 65536 * byte_at (i + 2) bs
    + 16777216 * byte_at (i + 3) bs

pub length-put_u16 : (n : ℕ) → length (put_u16 n) ≡ 2
unfolding put_u16
length-put_u16 n = refl

pub length-put_u32 : (n : ℕ) → length (put_u32 n) ≡ 4
unfolding put_u32
length-put_u32 n = refl

pub get_u16-put_u16 : (n : ℕ) (rest : Bytes) → n < 2 ^ 16 → get_u16 0 (put_u16 n ++ rest) ≡ n
unfolding get_u16 put_u16
get_u16-put_u16 n rest h = omega arith

pub get_u32-put_u32 : (n : ℕ) (rest : Bytes) → n < 2 ^ 32 → get_u32 0 (put_u32 n ++ rest) ≡ n
unfolding get_u32 put_u32
get_u32-put_u32 n rest h = omega arith

-- `==` of two `std::string`.
unfoldable pub same_text : Bytes → Bytes → Bool
same_text [] [] = true
same_text (a ∷ as') (b ∷ bs) = a == b && same_text as' bs
same_text _ _ = false

pub same_text_refl : (a : Bytes) → same_text a a ≡ true
unfolding same_text
same_text_refl [] = refl
same_text_refl (x ∷ xs) = rw (==_refl x, same_text_refl xs)

pub same_text-eq : (a b : Bytes) → same_text a b ≡ true → a ≡ b
unfolding same_text
same_text-eq [] [] h = refl
same_text-eq [] (y ∷ ys) h = cc
same_text-eq (x ∷ xs) [] h = cc
same_text-eq (x ∷ xs) (y ∷ ys) h = ground (arith, same_text-eq xs ys)
