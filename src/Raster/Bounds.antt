-- ===== src/Raster/Bounds.antt =====
-- Every byte that is read is there.
use iot_miniservers.Prelude.{
  get_elem?, ℕ, zero, suc, ◌+◌, ◌-◌, ◌*◌, ◌≤◌, ◌<◌, min, ◌≡◌, refl, ap, Bool, true, ◌&&◌, is_some,
  List, [], ◌∷◌, map, arith, every, every-append, length, ltb,
}
use native.Mathlib.Nat.{mul-le-mul_right}
use iot_miniservers.Prelude.Int.{ℤ, pos, negsuc}
use iot_miniservers.Prelude.Result.{ok}
use iot_miniservers.Raster.{
  Position, Rgba, RawImage, range, coordinates, pixel_at, rows_of_pixels, supported,
  pixels_with_radius,
}

abbrev pub is_read : Rgba → Bool
is_read p = is_some p.r && (is_some p.g && (is_some p.b && is_some p.a))

get_elem?-is_some :
    {A : Type 0} (xs : List A) (n : ℕ) → n < length xs → is_some (get_elem? xs n) ≡ true
get_elem?-is_some [] n h = absurd (omega (arith, h))
get_elem?-is_some (x ∷ xs) zero h = refl
get_elem?-is_some (x ∷ xs) (suc n) h = get_elem?-is_some xs n (omega (arith, h))

-- All the coordinates are less than the size.
every-range :
    (start count size : ℕ)
    → (0 < count → start + count ≤ size)
    → every (λ i. ltb i size) (range start count) ≡ true
every-range start zero size h = refl
every-range start (suc count) size h =
    let inside = h (omega arith) in
    ground (arith, inside, every-range (start + 1) count size (λ more. omega (arith, inside)))

every-coordinates :
    (x : ℤ) (radius size : ℕ) → every (λ i. ltb i size) (coordinates x radius size) ≡ true
every-coordinates (pos n) radius size =
    every-range (n - radius) (min size (n + radius + 1) - (n - radius)) size
      (λ more. omega (arith, more))
every-coordinates (negsuc n) radius size =
    every-range 0 (min size (radius - n) - 0) size (λ more. omega arith)

length-range : (start count : ℕ) → length (range start count) ≡ count
length-range start zero = refl
length-range start (suc count) = omega (arith, length-range (start + 1) count)

-- A coordinate on the image is among those around it.
coordinates_nonempty : (m radius size : ℕ) → m < size → 0 < length (coordinates (pos m) radius size)
coordinates_nonempty m radius size h =
    omega (arith, h, length-range (m - radius) (min size (m + radius + 1) - (m - radius)))

rows_nonempty :
    (image : RawImage) (is js : List ℕ)
    → 0 < length is
    → 0 < length js
    → 0 < length (rows_of_pixels image is js)
rows_nonempty image is [] hi hj = absurd (omega (arith, hj))
rows_nonempty image [] (j ∷ js) hi hj = absurd (omega (arith, hi))
rows_nonempty image (i ∷ is) (j ∷ js) hi hj = omega arith

mul_row : (j width height : ℕ) → j < height → j * width + width ≤ height * width
mul_row j width height h =
    omega (arith, mul-le-mul_right {m = j + 1} {n = height} width (omega (arith, h)))

module _ (image : RawImage) (whole : length image.content ≡ image.width * image.height * 4)
    (four : image.channels ≡ 4) where
  pixel_at-is_read :
      (j i : ℕ) → j < image.height → i < image.width → is_read (pixel_at image j i) ≡ true
  pixel_at-is_read j i hj hi =
      let row = mul_row j image.width image.height hj in
      let index = (j * image.width + i) * image.channels in
      let shape : index ≡ (j * image.width + i) * 4 = ap (λ c. (j * image.width + i) * c) four in
      let fits : index + 3 < length image.content = omega (arith, shape, row, hi, whole) in
      rw
        (
          get_elem?-is_some image.content index (omega (arith, fits)),
          get_elem?-is_some image.content (index + 1) (omega (arith, fits)),
          get_elem?-is_some image.content (index + 2) (omega (arith, fits)),
          get_elem?-is_some image.content (index + 3) fits,
        )
        refl

  row-is_read :
      (j : ℕ) (is : List ℕ)
      → j < image.height
      → every (λ i. ltb i image.width) is ≡ true
      → every is_read (map (pixel_at image j) is) ≡ true
  row-is_read j [] hj h = refl
  row-is_read j (i ∷ is) hj h =
      let inside : i < image.width = ground (arith, h) in
      rw (pixel_at-is_read j i hj inside) (row-is_read j is hj (ground (arith, h)))

  rows-is_read :
      (is js : List ℕ)
      → every (λ i. ltb i image.width) is ≡ true
      → every (λ j. ltb j image.height) js ≡ true
      → every is_read (rows_of_pixels image is js) ≡ true
  rows-is_read is [] hi hj = refl
  rows-is_read is (j ∷ js) hi hj =
      let inside : j < image.height = ground (arith, hj) in
      rw
        (
          every-append is_read (map (pixel_at image j) is) (rows_of_pixels image is js),
          row-is_read j is inside hi,
        )
        (rows-is_read is js hi (ground (arith, hj)))

  supported-rows : (pixels : List Rgba) → supported image pixels ≡ ok pixels
  supported-rows [] = refl
  supported-rows (p ∷ pixels) = rw four refl

  -- On an image with four channels and all its bytes, the pixels around a position are got without an error, and all
  -- that is read of them is there, wherever the position is and however large the radius. If the position is on the
  -- image, there is one at least.
  pub pixels_with_radius-is_read :
      (position : Position) (radius : ℕ)
      → (pixels : List Rgba) × (pixels_with_radius position image radius ≡ ok pixels)
        × (every is_read pixels ≡ true)
        × ((m n : ℕ)
            → position.x ≡ pos m
            → position.y ≡ pos n
            → m < image.width
            → n < image.height
            → 0 < length pixels)
  unfolding pixels_with_radius
  pixels_with_radius-is_read position radius =
      let is = coordinates position.x radius image.width in
      let js = coordinates position.y radius image.height in
      (
        rows_of_pixels image is js,
        supported-rows (rows_of_pixels image is js),
        rows-is_read is js (every-coordinates position.x radius image.width)
            (every-coordinates position.y radius image.height),
        λ m n hx hy hm hn.
            rows_nonempty image is js
              (omega (
                arith,
                ap (λ x. length (coordinates x radius image.width)) hx,
                coordinates_nonempty m radius image.width hm,
              ))
              (omega (
                arith,
                ap (λ y. length (coordinates y radius image.height)) hy,
                coordinates_nonempty n radius image.height hn,
              )),
      )
