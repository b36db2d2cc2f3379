-- ===== src/Render/Texture.antt =====
-- client/src/VulkanRenderer.cpp: the placeholder texture, `generateCheckerboardPixels`.
pub mod Pixels
use game_x.Base.{
  ℕ, zero, suc, ◌+◌, ◌*◌, ◌/◌, ◌%◌, List, [], ◌∷◌, ◌++◌, ◌==◌, if◌then◌else◌, replicate, set, Bool,
}

-- The body of the inner loop: the four bytes of the pixel at `x`, `y`.
unfoldable pub put_pixel : ℕ → ℕ → ℕ → ℕ → List ℕ → List ℕ
put_pixel width cell_size y x pixels =
    let even : Bool = (x / cell_size + y / cell_size) % 2 == 0 in
    let o : ℕ = (y * width + x) * 4 in
    set
      (set (set (set pixels o (if even then 230 else 20)) (o + 1) (if even then 40 else 20)) (o + 2)
        (if even then 220 else 20))
      (o + 3) 255

-- The inner loop, with the rounds left.
unfoldable pub put_row : ℕ → ℕ → ℕ → ℕ → ℕ → List ℕ → List ℕ
unfolding put_pixel
put_row zero width cell_size y x pixels = pixels
put_row (suc n) width cell_size y x pixels =
    put_row n width cell_size y (x + 1) (put_pixel width cell_size y x pixels)

unfoldable pub put_rows : ℕ → ℕ → ℕ → ℕ → List ℕ → List ℕ
unfolding put_row
put_rows zero width cell_size y pixels = pixels
put_rows (suc n) width cell_size y pixels =
    put_rows n width cell_size (y + 1) (put_row width width cell_size y 0 pixels)

unfoldable pub generate_checkerboard_pixels : ℕ → ℕ → ℕ → List ℕ
unfolding put_rows
generate_checkerboard_pixels width height cell_size =
    put_rows height width cell_size 0 (replicate (width * height * 4) 0)
