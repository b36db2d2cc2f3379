-- ===== src/Login/Token.antt =====
-- server/login/src/main.cpp: `generate_session_token`, from the two numbers that it draws.
use game_x.Base.{
  ℕ, zero, suc, ◌+◌, ◌/◌, ◌%◌, ◌^◌, ◌<◌, ◌≡◌, refl, ap, sym, ◌∙◌, [], ◌∷◌, ◌++◌, arith, ltb,
  if◌then◌else◌, length, length-append, take, drop, take-append, drop-append,
}
use game_x.Base.Bytes.{Bytes, byte_at}

-- The digit of a number below 16, in lower case.
unfoldable pub hex_digit : ℕ → ℕ
hex_digit d = if ltb d 10 then 48 + d else 87 + d

-- `std::hex` with `setw(n)` and `setfill('0')`, for a number of at most n digits.
unfoldable pub hex : ℕ → ℕ → Bytes
hex zero v = []
hex (suc n) v = hex n (v / 16) ++ (hex_digit (v % 16) ∷ [])

unfoldable pub generate_session_token : ℕ → ℕ → Bytes
generate_session_token a b = hex 16 a ++ hex 16 b

length-hex : (n v : ℕ) → length (hex n v) ≡ n
unfolding hex
length-hex zero v = refl
length-hex (suc n) v =
    omega (arith, length-append (hex n (v / 16)) (hex_digit (v % 16) ∷ []), length-hex n (v / 16))

-- A token has the 32 bytes of its column and of its field.
pub length-generate_session_token : (a b : ℕ) → length (generate_session_token a b) ≡ 32
unfolding generate_session_token
length-generate_session_token a b =
    omega (arith, length-append (hex 16 a) (hex 16 b), length-hex 16 a, length-hex 16 b)

hex_digit_injective : (c d : ℕ) → c < 16 → d < 16 → hex_digit c ≡ hex_digit d → c ≡ d
unfolding hex_digit
hex_digit_injective c d hc hd h = ground arith

hex_injective : (n v w : ℕ) → v < 16 ^ n → w < 16 ^ n → hex n v ≡ hex n w → v ≡ w
unfolding hex
hex_injective zero v w hv hw h = omega arith
hex_injective (suc n) v w hv hw h =
    let front : hex n (v / 16) ≡ hex n (w / 16) =
      sym (take-append (hex n (v / 16)) _ n (length-hex n (v / 16)))
      ∙ ap (take n) h
      ∙ take-append (hex n (w / 16)) _ n (length-hex n (w / 16)) in
    let back : hex_digit (v % 16) ∷ [] ≡ hex_digit (w % 16) ∷ [] =
      sym (drop-append (hex n (v / 16)) _ n (length-hex n (v / 16)))
      ∙ ap (drop n) h
      ∙ drop-append (hex n (w / 16)) _ n (length-hex n (w / 16)) in
    let high = hex_injective n (v / 16) (w / 16) (omega arith) (omega arith) front in
    let low =
      hex_digit_injective (v % 16) (w % 16) (omega arith) (omega arith) (ap (byte_at 0) back) in
    omega arith

-- Session tokens of different pairs of 64-bit numbers are different.
pub generate_session_token_injective :
    (a b c d : ℕ)
    → a < 2 ^ 64
    → b < 2 ^ 64
    → c < 2 ^ 64
    → d < 2 ^ 64
    → generate_session_token a b ≡ generate_session_token c d
    → (a ≡ c) × (b ≡ d)
unfolding generate_session_token
generate_session_token_injective a b c d ha hb hc hd h =
    let front : hex 16 a ≡ hex 16 c =
      sym (take-append (hex 16 a) _ 16 (length-hex 16 a))
      ∙ ap (take 16) h
      ∙ take-append (hex 16 c) _ 16 (length-hex 16 c) in
    let back : hex 16 b ≡ hex 16 d =
      sym (drop-append (hex 16 a) _ 16 (length-hex 16 a))
      ∙ ap (drop 16) h
      ∙ drop-append (hex 16 c) _ 16 (length-hex 16 c) in
    (
      hex_injective 16 a c (omega arith) (omega arith) front,
      hex_injective 16 b d (omega arith) (omega arith) back,
    )
