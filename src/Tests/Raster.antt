-- ===== src/Tests/Raster.antt =====
-- apis/interactive-map-feeder-api: two pixels of an image.
use iot_miniservers.Prelude.{
  ℕ, ◌≡◌, ◌<◌, refl, true, some, List, [], ◌∷◌, every, any, map, length, arith, if◌then◌else◌,
}
use iot_miniservers.Prelude.Int.{pos, negsuc}
use iot_miniservers.Prelude.Result.{ok}
use iot_miniservers.Raster.{Position, Rgba, RawImage, pixels_with_radius, pixel_at}
use iot_miniservers.Raster.Cities.{
  create_cities_image, paint_cities, paint_columns, paint_column, city_pixel_offset,
}
use iot_miniservers.Raster.Dots.{red, transparent, covers}
use iot_miniservers.Raster.Painting.{pixel_at-create_cities_image}
use iot_miniservers.Raster.Bounds.{is_read, pixels_with_radius-is_read}

abbrev two_pixels : RawImage
two_pixels = record {
  content = 1 ∷ 2 ∷ 3 ∷ 4 ∷ 5 ∷ 6 ∷ 7 ∷ 8 ∷ [];
  width = 2;
  height = 1;
  channels = 4;
}

abbrev corner : Position
corner = record { x = pos 0; y = pos 0 }

pixels_with_radius-is_read_example :
    (pixels : List Rgba) × (pixels_with_radius corner two_pixels 3 ≡ ok pixels)
    × (every is_read pixels ≡ true)
    × ((m n : ℕ) → corner.x ≡ pos m → corner.y ≡ pos n → m < 2 → n < 1 → 0 < length pixels)
pixels_with_radius-is_read_example = pixels_with_radius-is_read two_pixels refl refl corner 3

-- From the left of the image, only its first column is near.
from_outside :
    pixels_with_radius (record { x = negsuc 1; y = pos 0 }) two_pixels 2
    ≡ ok (record { r = some 1; g = some 2; b = some 3; a = some 4 } ∷ [])
unfolding pixels_with_radius
from_outside = refl

-- A city on the edge, and one beside the image: the dots are three pixels wide.
abbrev city_positions : List Position
city_positions = record { x = pos 0; y = pos 1 } ∷ record { x = negsuc 9; y = pos 2 } ∷ []

pixel_at-create_cities_image_example :
    pixel_at (create_cities_image (λ n. 3) (λ (p : Position). p) city_positions 4 4) 2 1 ≡ (
      if any
        (covers (city_pixel_offset (λ n. 3) 4 4) 1 2)
        (map (λ (p : Position). p) city_positions)
      then red
      else transparent)
pixel_at-create_cities_image_example =
    pixel_at-create_cities_image (λ n. 3) (λ p. p) city_positions 4 4 1 2 (omega arith)
      (omega arith)

painted_corner :
    pixel_at (create_cities_image (λ n. 3) (λ (p : Position). p) city_positions 4 4) 2 1 ≡ red
unfolding create_cities_image paint_cities paint_columns paint_column city_pixel_offset
painted_corner = refl
