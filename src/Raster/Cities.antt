-- ===== src/Raster/Cities.antt =====
-- apis/interactive-map-feeder-api/src/v1/services/RasterService.ts: the image of the cities. Where a city
-- stands on the image and how wide a dot is come from arithmetic on floats and are parameters: positions
-- are whole numbers, which may lie outside of the image. The encoding as PNG (sharp) is left out.
use iot_miniservers.Prelude.{
  ℕ, zero, suc, ◌+◌, ◌-◌, ◌*◌, ◌/◌, ◌%◌, min, ◌&&◌, List, [], ◌∷◌, map, replicate, leb, ltb,
  nat_eqb, if◌then◌else◌,
}
use iot_miniservers.Prelude.Int.{ℤ, pos, negsuc}
use iot_miniservers.Raster.{Position, RawImage}

-- `list[index] = v`; a write out of bounds changes nothing.
abbrev pub set {ℓ} : {A : Type ℓ} → List A → ℕ → A → List A
set [] i v = []
set (x ∷ xs) zero v = v ∷ xs
set (x ∷ xs) (suc i) v = x ∷ set xs i v

abbrev pub next : ℤ → ℤ
next (pos n) = pos (n + 1)
next (negsuc zero) = pos 0
next (negsuc (suc n)) = negsuc n

-- `z - offset`
abbrev pub back : ℤ → ℕ → ℤ
back (pos n) offset = if leb offset n then pos (n - offset) else negsuc (offset - n - 1)
back (negsuc n) offset = negsuc (n + offset)

-- `count` whole numbers from `z` on.
abbrev pub numbers : ℤ → ℕ → List ℤ
numbers z zero = []
numbers z (suc count) = z ∷ numbers (next z) count

-- What `z + d` runs through, for `d` from `-offset` to `offset`.
abbrev pub around : ℤ → ℕ → List ℤ
around z offset = numbers (back z offset) (2 * offset + 1)

abbrev pub dot : ℕ → List ℕ → List ℕ
dot index buffer =
    set (set (set (set buffer index 255) (index + 1) 0) (index + 2) 0) (index + 3) 255

abbrev pub paint : ℕ → ℕ → ℤ → ℤ → List ℕ → List ℕ
paint width height (pos x) (pos y) buffer =
    if ltb x width && ltb y height then dot ((y * width + x) * 4) buffer else buffer
paint width height (pos x) (negsuc y) buffer = buffer
paint width height (negsuc x) y buffer = buffer

-- The loop over `dy`.
unfoldable pub paint_column : ℕ → ℕ → ℤ → List ℤ → List ℕ → List ℕ
paint_column width height x [] buffer = buffer
paint_column width height x (y ∷ ys) buffer =
    paint_column width height x ys (paint width height x y buffer)

-- The loop over `dx`.
unfoldable pub paint_columns : ℕ → ℕ → List ℤ → List ℤ → List ℕ → List ℕ
paint_columns width height [] ys buffer = buffer
paint_columns width height (x ∷ xs) ys buffer =
    paint_columns width height xs ys (paint_column width height x ys buffer)

unfoldable pub paint_cities : ℕ → ℕ → ℕ → List Position → List ℕ → List ℕ
paint_cities width height offset [] buffer = buffer
paint_cities width height offset (city ∷ cities) buffer =
    paint_cities width height offset cities
      (paint_columns width height (around city.x offset) (around city.y offset) buffer)

-- `dot_width` is the rounded quarter of a percent of the shorter side.
unfoldable pub city_pixel_offset : (ℕ → ℕ) → ℕ → ℕ → ℕ
city_pixel_offset dot_width height width =
    let w = dot_width (min height width) in if nat_eqb (w % 2) 0 then w / 2 else (w - 1) / 2

-- `position_of` is `getPositionOnImage` at the size of the image.
unfoldable pub create_cities_image :
    {City : Type 0} → (ℕ → ℕ) → (City → Position) → List City → ℕ → ℕ → RawImage
create_cities_image dot_width position_of cities height width = record {
  content =
      paint_cities width height (city_pixel_offset dot_width height width) (map position_of cities)
        (replicate (width * height * 4) 0);
  width = width;
  height = height;
  channels = 4;
}
