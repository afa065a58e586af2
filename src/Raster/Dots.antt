-- ===== src/Raster/Dots.antt =====
-- apis/interactive-map-feeder-api/src/v1/services/RasterService.ts: the bytes of one dot, and the numbers
-- that the loops over `dx` and `dy` run through.
use iot_miniservers.Prelude.{
  ℕ, zero, suc, ◌+◌, ◌*◌, ◌<◌, ◌≡◌, refl, ◌∙◌, Bool, ◌&&◌, some, List, [], ◌∷◌, any, replicate,
  length, get_elem?, leb, ltb, nat_eqb, arith, if◌then◌else◌,
}
use iot_miniservers.Prelude.Int.{ℤ, pos, negsuc, int_eqb}
use iot_miniservers.Raster.{Position, Rgba}
use iot_miniservers.Raster.Cities.{set, back, numbers, around, dot}

get_elem?-set :
    (xs : List ℕ) (i j v : ℕ)
    → i < length xs
    → get_elem? (set xs i v) j ≡ (if nat_eqb i j then some v else get_elem? xs j)
get_elem?-set [] i j v h = absurd (omega (arith, h))
get_elem?-set (x ∷ xs) zero zero v h = refl
get_elem?-set (x ∷ xs) zero (suc j) v h = ground arith
get_elem?-set (x ∷ xs) (suc i) zero v h = ground arith
get_elem?-set (x ∷ xs) (suc i) (suc j) v h = ground (arith, get_elem?-set xs i j v)

length-set : (xs : List ℕ) (i v : ℕ) → length (set xs i v) ≡ length xs
length-set [] i v = refl
length-set (x ∷ xs) zero v = refl
length-set (x ∷ xs) (suc i) v = omega (arith, length-set xs i v)

pub length-dot : (index : ℕ) (buffer : List ℕ) → length (dot index buffer) ≡ length buffer
length-dot index buffer =
    length-set _ (index + 3) 255
    ∙ length-set _ (index + 2) 0
    ∙ length-set _ (index + 1) 0
    ∙ length-set buffer index 255

get_elem?-dot :
    (index j : ℕ) (buffer : List ℕ)
    → index + 3 < length buffer
    → get_elem? (dot index buffer) j ≡ (
        if nat_eqb (index + 3) j
        then some 255
        else if nat_eqb (index + 2) j
        then some 0
        else if nat_eqb (index + 1) j
        then some 0
        else if nat_eqb index j
        then some 255
        else get_elem? buffer j)
get_elem?-dot index j buffer h = ground (
  arith,
  get_elem?-set buffer index j 255,
  get_elem?-set (set buffer index 255) (index + 1) j 0,
  get_elem?-set (set (set buffer index 255) (index + 1) 0) (index + 2) j 0,
  get_elem?-set (set (set (set buffer index 255) (index + 1) 0) (index + 2) 0) (index + 3) j 255,
  length-set buffer index 255,
  length-set (set buffer index 255) (index + 1) 0,
  length-set (set (set buffer index 255) (index + 1) 0) (index + 2) 0,
)

-- The numbers around `z`.
abbrev pub among : ℕ → List ℤ → Bool
among i zs = any (λ z. int_eqb z (pos i)) zs

abbrev reached : ℤ → ℕ → ℕ → Bool
reached (pos n) count i = leb n i && ltb i (n + count)
reached (negsuc n) count i = ltb (i + n + 1) count

among-numbers : (z : ℤ) (count i : ℕ) → among i (numbers z count) ≡ reached z count i
among-numbers (pos n) zero i = ground arith
among-numbers (negsuc n) zero i = ground arith
among-numbers (pos n) (suc count) i = ground (arith, among-numbers (pos (n + 1)) count i)
among-numbers (negsuc zero) (suc count) i = ground (arith, among-numbers (pos 0) count i)
among-numbers (negsuc (suc n)) (suc count) i = ground (arith, among-numbers (negsuc n) count i)

-- Within `offset` of `z`.
abbrev pub is_near : ℤ → ℕ → ℕ → Bool
is_near (pos n) offset i = leb n (i + offset) && leb i (n + offset)
is_near (negsuc n) offset i = ltb (i + n) offset

pub among-around : (z : ℤ) (offset i : ℕ) → among i (around z offset) ≡ is_near z offset i
among-around (pos n) offset i =
    ground (arith, among-numbers (back (pos n) offset) (2 * offset + 1) i)
among-around (negsuc n) offset i =
    ground (arith, among-numbers (back (negsuc n) offset) (2 * offset + 1) i)

abbrev pub red : Rgba
red = record { r = some 255; g = some 0; b = some 0; a = some 255 }

abbrev pub transparent : Rgba
transparent = record { r = some 0; g = some 0; b = some 0; a = some 0 }

abbrev pub four_at : List ℕ → ℕ → Rgba
four_at buffer k = record {
  r = get_elem? buffer k;
  g = get_elem? buffer (k + 1);
  b = get_elem? buffer (k + 2);
  a = get_elem? buffer (k + 3);
}

pub four_at-dot :
    (p q : ℕ) (buffer : List ℕ)
    → p * 4 + 3 < length buffer
    → four_at (dot (p * 4) buffer) (q * 4) ≡ (if nat_eqb p q then red else four_at buffer (q * 4))
four_at-dot p q buffer h = ground (
  arith,
  get_elem?-dot (p * 4) (q * 4) buffer,
  get_elem?-dot (p * 4) (q * 4 + 1) buffer,
  get_elem?-dot (p * 4) (q * 4 + 2) buffer,
  get_elem?-dot (p * 4) (q * 4 + 3) buffer,
)

index_lt : (x y i j width : ℕ) → x < width → y < j → y * width + x < j * width + i
index_lt x y i j width hx hy = grind arith

pub index-eq :
    (x y i j width : ℕ)
    → x < width
    → i < width
    → nat_eqb (y * width + x) (j * width + i) ≡ (nat_eqb x i && nat_eqb y j)
index-eq x y i j width hx hi = ground (arith, index_lt x y i j width, index_lt i j x y width)

pub length-replicate : (n v : ℕ) → length (replicate n v) ≡ n
length-replicate zero v = refl
length-replicate (suc n) v = omega (arith, length-replicate n v)

get_elem?-replicate : (n v k : ℕ) → k < n → get_elem? (replicate n v) k ≡ some v
get_elem?-replicate zero v k h = absurd (omega (arith, h))
get_elem?-replicate (suc n) v zero h = refl
get_elem?-replicate (suc n) v (suc k) h = get_elem?-replicate n v k (omega (arith, h))

pub four_at-replicate : (n k : ℕ) → k + 3 < n → four_at (replicate n 0) k ≡ transparent
four_at-replicate n k h = ground (
  arith,
  get_elem?-replicate n 0 k,
  get_elem?-replicate n 0 (k + 1),
  get_elem?-replicate n 0 (k + 2),
  get_elem?-replicate n 0 (k + 3),
)

-- Whether a dot that reaches `offset` from the position covers column `i` of row `j`.
abbrev pub covers : ℕ → ℕ → ℕ → Position → Bool
covers offset i j city = is_near city.x offset i && is_near city.y offset j
