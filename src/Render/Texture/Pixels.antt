-- ===== src/Render/Texture/Pixels.antt =====
-- client/src/VulkanRenderer.cpp: what `generateCheckerboardPixels` paints.
use game_x.Base.{
  ℕ, zero, suc, ◌+◌, ◌*◌, ◌/◌, ◌%◌, ◌<◌, ◌≤◌, ◌≡◌, ◌≢◌, ◌⊎◌, inl, inr, refl, ap, ◌∙◌, ◌==◌,
  if◌then◌else◌, List, [], ◌∷◌, some, get_elem?, set, length, replicate, length-replicate, arith,
  dec_lt,
}
use native.Mathlib.Nat.{mul-add-div_right, mul-add-mod_self_right, mod-eq_of_lt, div-eq_of_lt}
use game_x.Render.Texture.{put_pixel, put_row, put_rows, generate_checkerboard_pixels}

set_self : (xs : List ℕ) (i v : ℕ) → i < length xs → get_elem? (set xs i v) i ≡ some v
set_self [] i v h = absurd (omega arith)
set_self (x ∷ xs) zero v h = refl
set_self (x ∷ xs) (suc i) v h = set_self xs i v (omega arith)

set_other : (xs : List ℕ) (i j v : ℕ) → i ≢ j → get_elem? (set xs i v) j ≡ get_elem? xs j
set_other [] i j v h = refl
set_other (x ∷ xs) zero zero v h = absurd (h refl)
set_other (x ∷ xs) zero (suc j) v h = refl
set_other (x ∷ xs) (suc i) zero v h = refl
set_other (x ∷ xs) (suc i) (suc j) v h = set_other xs i j v (λ e. h (ap suc e))

length-set : (xs : List ℕ) (i v : ℕ) → length (set xs i v) ≡ length xs
length-set [] i v = refl
length-set (x ∷ xs) zero v = refl
length-set (x ∷ xs) (suc i) v = ap suc (length-set xs i v)

-- Four writes in a row.
module _ (ps : List ℕ) (o a b c d : ℕ) (h : o + 3 < length ps) where
  four_first : get_elem? (set (set (set (set ps o a) (o + 1) b) (o + 2) c) (o + 3) d) o ≡ some a
  four_first =
      set_other _ (o + 3) o d (λ e. omega arith)
      ∙ (set_other _ (o + 2) o c (λ e. omega arith)
          ∙ (set_other _ (o + 1) o b (λ e. omega arith) ∙ set_self ps o a (omega arith)))

  four_second :
      get_elem? (set (set (set (set ps o a) (o + 1) b) (o + 2) c) (o + 3) d) (o + 1) ≡ some b
  four_second =
      set_other _ (o + 3) (o + 1) d (λ e. omega arith)
      ∙ (set_other _ (o + 2) (o + 1) c (λ e. omega arith)
          ∙ set_self _ (o + 1) b (omega (arith, length-set ps o a)))

  four_third :
      get_elem? (set (set (set (set ps o a) (o + 1) b) (o + 2) c) (o + 3) d) (o + 2) ≡ some c
  four_third =
      set_other _ (o + 3) (o + 2) d (λ e. omega arith)
      ∙ set_self _ (o + 2) c (omega (arith, length-set (set ps o a) (o + 1) b, length-set ps o a))

  four_fourth :
      get_elem? (set (set (set (set ps o a) (o + 1) b) (o + 2) c) (o + 3) d) (o + 3) ≡ some d
  four_fourth = set_self _ (o + 3) d (
      omega (
        arith,
        length-set (set (set ps o a) (o + 1) b) (o + 2) c,
        length-set (set ps o a) (o + 1) b,
        length-set ps o a,
      ))

-- The byte `k` of the pixel at `x`, `y`: magenta and dark cells in turn, opaque.
abbrev pub channel : ℕ → ℕ → ℕ → ℕ → ℕ
channel cell_size x y zero = if (x / cell_size + y / cell_size) % 2 == 0 then 230 else 20
channel cell_size x y (suc zero) = if (x / cell_size + y / cell_size) % 2 == 0 then 40 else 20
channel cell_size x y (suc (suc zero)) =
    if (x / cell_size + y / cell_size) % 2 == 0 then 220 else 20
channel cell_size x y (suc (suc (suc k))) = 255

lt_or_eq : (j n : ℕ) → j < n + 1 → (j < n) ⊎ (j ≡ n)
lt_or_eq j n h = elim (dec_lt j n) [ yes l ↦ inl l | no l ↦ inr (omega (arith, l)) ]

module _ (width cell_size : ℕ) where
  put_pixel-length : (y x : ℕ) (ps : List ℕ) → length (put_pixel width cell_size y x ps) ≡ length ps
  unfolding put_pixel
  put_pixel-length y x ps = simp (length-set)

  put_pixel_other :
      (y x : ℕ) (ps : List ℕ) (j : ℕ)
      → j < (y * width + x) * 4
      → get_elem? (put_pixel width cell_size y x ps) j ≡ get_elem? ps j
  unfolding put_pixel
  put_pixel_other y x ps j h =
      let o : ℕ = (y * width + x) * 4 in
      set_other _ (o + 3) j _ (λ e. omega arith)
      ∙ (set_other _ (o + 2) j _ (λ e. omega arith)
          ∙ (set_other _ (o + 1) j _ (λ e. omega arith) ∙ set_other _ o j _ (λ e. omega arith)))

  put_pixel_own :
      (y x : ℕ) (ps : List ℕ) (k : ℕ)
      → (y * width + x) * 4 + 3 < length ps
      → k < 4
      → get_elem? (put_pixel width cell_size y x ps) ((y * width + x) * 4 + k)
        ≡ some (channel cell_size x y k)
  unfolding put_pixel
  put_pixel_own y x ps zero h l =
      let place : (y * width + x) * 4 + 0 ≡ (y * width + x) * 4 = omega arith in
      rw place (four_first ps ((y * width + x) * 4) _ _ _ _ h)
  put_pixel_own y x ps (suc zero) h l = four_second ps ((y * width + x) * 4) _ _ _ _ h
  put_pixel_own y x ps (suc (suc zero)) h l = four_third ps ((y * width + x) * 4) _ _ _ _ h
  put_pixel_own y x ps (suc (suc (suc zero))) h l = four_fourth ps ((y * width + x) * 4) _ _ _ _ h
  put_pixel_own y x ps (suc (suc (suc (suc k)))) h l = absurd (omega arith)

  -- The pixels up to number `n` are painted, row by row.
  abbrev Painted : List ℕ → ℕ → Type 0
  Painted ps n =
      (j k : ℕ)
      → j < n
      → k < 4
      → get_elem? ps (j * 4 + k) ≡ some (channel cell_size (j % width) (j / width) k)

  put_pixel-Painted :
      (y x : ℕ) (ps : List ℕ)
      → x < width
      → (y * width + x) * 4 + 3 < length ps
      → Painted ps (y * width + x)
      → Painted (put_pixel width cell_size y x ps) (y * width + x + 1)
  put_pixel-Painted y x ps inside fits old j k before l = elim (lt_or_eq j (y * width + x) before) [
    | inl earlier ↦ put_pixel_other y x ps (j * 4 + k) (omega arith) ∙ old j k earlier l
    | inr same ↦
        let column : (y * width + x) % width ≡ x =
          mul-add-mod_self_right y width x ∙ mod-eq_of_lt inside in
        let row : (y * width + x) / width ≡ y =
          mul-add-div_right (omega arith) y x
          ∙ (ap (λ (t : ℕ). y + t) (div-eq_of_lt inside) ∙ omega arith) in
        rw (same, column, row) (put_pixel_own y x ps k fits l)
  ]

  put_row-Painted :
      (n y x : ℕ) (ps : List ℕ)
      → x + n ≡ width
      → (y * width + width) * 4 ≤ length ps
      → Painted ps (y * width + x)
      → Painted (put_row n width cell_size y x ps) (y * width + width)
        × (length (put_row n width cell_size y x ps) ≡ length ps)
  unfolding put_row
  put_row-Painted zero y x ps e fits old = (λ j k before l. old j k (omega arith) l, refl)
  put_row-Painted (suc n) y x ps e fits old =
      let painted = put_pixel-Painted y x ps (omega arith) (omega arith) old in
      let same = put_pixel-length y x ps in
      let r =
        put_row-Painted n y (x + 1) (put_pixel width cell_size y x ps) (omega arith)
          (omega (arith, same)) (λ j k before l. painted j k (omega arith) l) in
      (r.0, r.1 ∙ same)

  put_rows-Painted :
      (n y : ℕ) (ps : List ℕ)
      → (y * width + n * width) * 4 ≡ length ps
      → Painted ps (y * width)
      → Painted (put_rows n width cell_size y ps) (y * width + n * width)
        × (length (put_rows n width cell_size y ps) ≡ length ps)
  unfolding put_rows
  put_rows-Painted zero y ps e old = (λ j k before l. old j k (omega arith) l, refl)
  put_rows-Painted (suc n) y ps e old =
      let more : suc n * width ≡ width + n * width = omega arith in
      let next : (y + 1) * width ≡ y * width + width = grind arith in
      let (painted, same) =
        put_row-Painted width y 0 ps (omega arith) (omega (arith, more))
          (λ j k before l. old j k (omega arith) l) in
      let (all, kept) =
        put_rows-Painted n (y + 1) (put_row width width cell_size y 0 ps)
          (omega (arith, more, next, same)) (λ j k before l. painted j k (omega (arith, next)) l) in
      (λ j k before l. all j k (omega (arith, more, next)) l, kept ∙ same)

-- generateCheckerboardPixels fills four bytes for each pixel, and every byte is that of the cell's
-- colour.
pub generate_checkerboard_pixels-channel :
    (width height cell_size : ℕ)
    → (length (generate_checkerboard_pixels width height cell_size) ≡ width * height * 4)
      × ((j k : ℕ)
          → j < width * height
          → k < 4
          → get_elem? (generate_checkerboard_pixels width height cell_size) (j * 4 + k)
            ≡ some (channel cell_size (j % width) (j / width) k))
unfolding generate_checkerboard_pixels
generate_checkerboard_pixels-channel width height cell_size =
    let blank : List ℕ = replicate (width * height * 4) 0 in
    let turned : height * width ≡ width * height = grind arith in
    let size = length-replicate (width * height * 4) (let z : ℕ = 0 in z) in
    let (painted, same) =
      put_rows-Painted width cell_size height 0 blank (omega (arith, turned, size))
        (λ j k before l. absurd (omega arith)) in
    (same ∙ size, λ j k before l. painted j k (omega (arith, turned)) l)
