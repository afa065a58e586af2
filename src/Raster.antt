-- ===== src/Raster.antt =====
-- apis/interactive-map-feeder-api/src/v1/services/RasterService.ts: the pixels around a position on an image. An
-- image is the list of its bytes; reading outside of it gives `undefined`, which is `none`. Positions are whole numbers,
-- which may lie outside of the image.
pub mod Bounds
pub mod Cities
pub mod Dots
pub mod Painting
use iot_miniservers.Prelude.{
  ℕ, zero, suc, ◌+◌, ◌-◌, ◌*◌, min, Bool, true, false, ◌&&◌, Option, none, some, is_some, List, [],
  ◌∷◌, ◌++◌, map, Text, text, nat_eqb, get_elem?, if◌then◌else◌,
}
use iot_miniservers.Prelude.Int.{ℤ, pos, negsuc}
use iot_miniservers.Prelude.Result.{Result, ok, err}

pub record Position : Type 0 where
  pub x : ℤ
  pub y : ℤ

pub record Rgba : Type 0 where
  pub r : Option ℕ
  pub g : Option ℕ
  pub b : Option ℕ
  pub a : Option ℕ

-- What `toBuffer` gives: the bytes and the shape.
pub record RawImage : Type 0 where
  pub content : List ℕ
  pub width : ℕ
  pub height : ℕ
  pub channels : ℕ

-- The numbers from `start` on, `count` of them.
abbrev pub range : ℕ → ℕ → List ℕ
range start zero = []
range start (suc count) = start ∷ range (start + 1) count

-- `max([0, x - radius])`
abbrev pub start_of : ℤ → ℕ → ℕ
start_of (pos n) radius = n - radius
start_of (negsuc n) radius = 0

-- What comes behind `min([size - 1, x + radius])`, or 0 where that is negative.
abbrev pub stop_of : ℤ → ℕ → ℕ → ℕ
stop_of (pos n) radius size = min size (n + radius + 1)
stop_of (negsuc n) radius size = min size (radius - n)

abbrev pub coordinates : ℤ → ℕ → ℕ → List ℕ
coordinates x radius size = range (start_of x radius) (stop_of x radius size - start_of x radius)

abbrev pub pixel_at : RawImage → ℕ → ℕ → Rgba
pixel_at image j i =
    let index = (j * image.width + i) * image.channels in
    record {
      r = get_elem? image.content index;
      g = get_elem? image.content (index + 1);
      b = get_elem? image.content (index + 2);
      a = get_elem? image.content (index + 3);
    }

abbrev pub rows_of_pixels : RawImage → List ℕ → List ℕ → List Rgba
rows_of_pixels image is [] = []
rows_of_pixels image is (j ∷ js) = map (pixel_at image j) is ++ rows_of_pixels image is js

abbrev pub supported : RawImage → List Rgba → Result Text (List Rgba)
supported image [] = ok []
supported image (p ∷ pixels) =
    if nat_eqb image.channels 4 then ok (p ∷ pixels) else err (text "Only 4 channels are supported")

unfoldable pub pixels_with_radius : Position → RawImage → ℕ → Result Text (List Rgba)
pixels_with_radius position image radius = supported image (
    rows_of_pixels image (coordinates position.x radius image.width)
      (coordinates position.y radius image.height))
