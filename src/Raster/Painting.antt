-- ===== src/Raster/Painting.antt =====
-- apis/interactive-map-feeder-api/src/v1/services/RasterService.ts: what the image of the cities shows.
use iot_miniservers.Prelude.{
  ℕ, ◌+◌, ◌*◌, ◌<◌, ◌≡◌, refl, ap, ◌∙◌, inl, inr, Bool, true, false, ◌&&◌, ◌||◌, List, [], ◌∷◌, any,
  map, replicate, length, ltb, Bool-cases, arith, if◌then◌else◌,
}
use iot_miniservers.Prelude.Int.{ℤ, pos, negsuc, int_eqb}
use iot_miniservers.Raster.{Position, Rgba, pixel_at}
use iot_miniservers.Raster.Cities.{
  around, paint, paint_column, paint_columns, paint_cities, city_pixel_offset, create_cities_image,
}
use iot_miniservers.Raster.Dots.{
  red, transparent, four_at, four_at-dot, four_at-replicate, index-eq, length-dot, length-replicate,
  among, among-around, covers,
}

either_red :
    (x y ys : Bool) (t : Rgba)
    → (if x && ys then red else (if x && y then red else t)) ≡ (if x && (y || ys) then red else t)
either_red true true true t = refl
either_red true true false t = refl
either_red true false ys t = refl
either_red false y ys t = refl

red_either :
    (x xs ys : Bool) (t : Rgba)
    → (if xs && ys then red else (if x && ys then red else t))
      ≡ (if (x || xs) && ys then red else t)
red_either true true true t = refl
red_either true true false t = refl
red_either true false true t = refl
red_either true false false t = refl
red_either false xs ys t = refl

nested_red :
    (c cs : Bool) (t : Rgba)
    → (if cs then red else (if c then red else t)) ≡ (if c || cs then red else t)
nested_red true true t = refl
nested_red true false t = refl
nested_red false cs t = refl

module _ (width height : ℕ) where
  fits : (x y : ℕ) → x < width → y < height → (y * width + x) * 4 + 3 < width * height * 4
  fits x y hx hy = omega (arith, index_fits)
    where
      index_fits : y * width + x < width * height
      index_fits = grind arith

  abbrev shown : List ℕ → ℕ → ℕ → Rgba
  shown buffer j i = four_at buffer ((j * width + i) * 4)

  length-paint :
      (x y : ℤ) (buffer : List ℕ) → length (paint width height x y buffer) ≡ length buffer
  length-paint (pos x) (pos y) buffer = ground (arith, length-dot ((y * width + x) * 4) buffer)
  length-paint (pos x) (negsuc y) buffer = refl
  length-paint (negsuc x) y buffer = refl

  length-paint_column :
      (x : ℤ) (ys : List ℤ) (buffer : List ℕ)
      → length (paint_column width height x ys buffer) ≡ length buffer
  unfolding paint_column
  length-paint_column x [] buffer = refl
  length-paint_column x (y ∷ ys) buffer =
      length-paint_column x ys (paint width height x y buffer) ∙ length-paint x y buffer

  length-paint_columns :
      (xs ys : List ℤ) (buffer : List ℕ)
      → length (paint_columns width height xs ys buffer) ≡ length buffer
  unfolding paint_columns
  length-paint_columns [] ys buffer = refl
  length-paint_columns (x ∷ xs) ys buffer =
      length-paint_columns xs ys (paint_column width height x ys buffer)
      ∙ length-paint_column x ys buffer

  module _ (i j : ℕ) (hi : i < width) (hj : j < height) where
    shown-paint :
        (x y : ℤ) (buffer : List ℕ)
        → length buffer ≡ width * height * 4
        → shown (paint width height x y buffer) j i
          ≡ (if int_eqb x (pos i) && int_eqb y (pos j) then red else shown buffer j i)
    shown-paint (pos x) (pos y) buffer h = elim (Bool-cases (ltb x width && ltb y height)) [
      | inl inside ↦ rw inside (
          four_at-dot (y * width + x) (j * width + i) buffer
            (rw h (fits x y (ground arith) (ground arith)))
          ∙ rw (index-eq x y i j width (ground arith) hi))
      | inr outside ↦ rw outside (ground arith)
    ]
    shown-paint (pos x) (negsuc y) buffer h = ground arith
    shown-paint (negsuc x) y buffer h = refl

    shown-paint_column :
        (x : ℤ) (ys : List ℤ) (buffer : List ℕ)
        → length buffer ≡ width * height * 4
        → shown (paint_column width height x ys buffer) j i
          ≡ (if int_eqb x (pos i) && among j ys then red else shown buffer j i)
    unfolding paint_column
    shown-paint_column x [] buffer h = ground arith
    shown-paint_column x (y ∷ ys) buffer h =
        shown-paint_column x ys (paint width height x y buffer) (length-paint x y buffer ∙ h)
        ∙ ap (λ t. if int_eqb x (pos i) && among j ys then red else t) (shown-paint x y buffer h)
        ∙ either_red (int_eqb x (pos i)) (int_eqb y (pos j)) (among j ys) (shown buffer j i)

    shown-paint_columns :
        (xs ys : List ℤ) (buffer : List ℕ)
        → length buffer ≡ width * height * 4
        → shown (paint_columns width height xs ys buffer) j i
          ≡ (if among i xs && among j ys then red else shown buffer j i)
    unfolding paint_columns
    shown-paint_columns [] ys buffer h = refl
    shown-paint_columns (x ∷ xs) ys buffer h =
        shown-paint_columns xs ys (paint_column width height x ys buffer)
          (length-paint_column x ys buffer ∙ h)
        ∙ ap (λ t. if among i xs && among j ys then red else t) (shown-paint_column x ys buffer h)
        ∙ red_either (int_eqb x (pos i)) (among i xs) (among j ys) (shown buffer j i)

    shown-paint_cities :
        (offset : ℕ) (cities : List Position) (buffer : List ℕ)
        → length buffer ≡ width * height * 4
        → shown (paint_cities width height offset cities buffer) j i
          ≡ (if any (covers offset i j) cities then red else shown buffer j i)
    unfolding paint_cities
    shown-paint_cities offset [] buffer h = refl
    shown-paint_cities offset (city ∷ cities) buffer h =
        let xs = around city.x offset in
        let ys = around city.y offset in
        shown-paint_cities offset cities (paint_columns width height xs ys buffer)
          (length-paint_columns xs ys buffer ∙ h)
        ∙ ap (λ t. if any (covers offset i j) cities then red else t)
            (shown-paint_columns xs ys buffer h
              ∙ rw (among-around city.x offset i, among-around city.y offset j))
        ∙ nested_red (covers offset i j city) (any (covers offset i j) cities) (shown buffer j i)

-- In the image of the cities a pixel is red exactly if it lies in the square around the position of some
-- city that reaches as far as the offset on each side, wherever the positions are; every other pixel is
-- transparent.
pub pixel_at-create_cities_image :
    {City : Type 0} (dot_width : ℕ → ℕ) (position_of : City → Position) (cities : List City)
    (height width i j : ℕ)
    → i < width
    → j < height
    → pixel_at (create_cities_image dot_width position_of cities height width) j i ≡ (
        if any (covers (city_pixel_offset dot_width height width) i j) (map position_of cities)
        then red
        else transparent)
unfolding create_cities_image
pixel_at-create_cities_image dot_width position_of cities height width i j hi hj =
    let offset = city_pixel_offset dot_width height width in
    let positions = map position_of cities in
    shown-paint_cities width height i j hi hj offset positions (replicate (width * height * 4) 0)
      (length-replicate (width * height * 4) 0)
    ∙ ap (λ t. if any (covers offset i j) positions then red else t)
        (four_at-replicate (width * height * 4) ((j * width + i) * 4) (fits width height i j hi hj))
