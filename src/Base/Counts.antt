-- ===== src/Base/Counts.antt =====
-- How often a number stands in a list, and lists with the same items.
use Prim.Native.Nat.{ℕ, zero, suc, ◌+◌, ◌-◌, ◌<◌}
use mathlib.Core.Path.{◌≡◌, refl, ap, sym, ◌∙◌}
use mathlib.Core.Bool.{Bool, true, false}
use mathlib.Core.List.{List, [], ◌∷◌, ◌++◌, map}
use mathlib.Core.Option.{some}
use native.Mathlib.Omega.{arith}
use chorale.Base.Tests.{if◌then◌else◌, ltb, ◌==◌}
use chorale.Base.Lists.{length, take, drop, get_elem?, take-append-drop}

-- 1 for a test that holds.
abbrev pub bit : Bool → ℕ
bit true = 1
bit false = 0

abbrev pub count : ℕ → List ℕ → ℕ
count a [] = 0
count a (x ∷ xs) = bit (a == x) + count a xs

pub count-append :
    (k : ℕ) (front back : List ℕ) → count k (front ++ back) ≡ count k front + count k back
count-append k [] back = omega arith
count-append k (first ∷ front) back = omega (count-append k front back, arith)

pub count-take-drop :
    (a n : ℕ) (xs : List ℕ) → count a (take n xs) + count a (drop n xs) ≡ count a xs
count-take-drop a n xs =
    sym (count-append a (take n xs) (drop n xs)) ∙ ap (count a) (take-append-drop n xs)

-- The lists hold the same numbers, each as often.
abbrev pub SameItems : (one other : List ℕ) → Type 0
SameItems one other = (k : ℕ) → count k one ≡ count k other

erase_one : ℕ → List ℕ → List ℕ
erase_one a [] = []
erase_one a (x ∷ xs) = if a == x then xs else x ∷ erase_one a xs

count-erase_one : (b a : ℕ) (xs : List ℕ) → count b (erase_one a xs) ≡ count b xs - bit (b == a)
unfolding erase_one
count-erase_one b a [] = ground arith
count-erase_one b a (x ∷ xs) = ground (arith, count-erase_one b a xs)

count-map-erase_one :
    (f : ℕ → ℕ) (b a : ℕ) (xs : List ℕ)
    → 0 < count a xs
    → count b (map f xs) ≡ bit (b == f a) + count b (map f (erase_one a xs))
unfolding erase_one
count-map-erase_one f b a [] h = absurd (omega arith)
count-map-erase_one f b a (x ∷ xs) h = ground (arith, count-map-erase_one f b a xs)

no_items : (ys : List ℕ) → ((a : ℕ) → 0 ≡ count a ys) → ys ≡ []
no_items [] h = refl
no_items (y ∷ ys) h = absurd (ground (arith, h y))

-- A map keeps `SameItems`.
pub map-SameItems : (f : ℕ → ℕ) (xs ys : List ℕ) → SameItems xs ys → SameItems (map f xs) (map f ys)
map-SameItems f [] ys h b = rw (no_items ys h) refl
map-SameItems f (x ∷ xs) ys h b = omega (
  arith,
  count-map-erase_one f b x ys (ground (arith, h x)),
  map-SameItems f xs (erase_one x ys) (λ a. ground (arith, h a, count-erase_one a x ys)) b,
)

-- The numbers from `i`, `n` of them.
abbrev pub range_from : ℕ → ℕ → List ℕ
range_from i zero = []
range_from i (suc n) = i ∷ range_from (i + 1) n

pub count-range_from :
    (a i n : ℕ) → count a (range_from i n) ≡ (if ltb a i then 0 else if ltb a (i + n) then 1 else 0)
count-range_from a i zero = ground arith
count-range_from a i (suc n) = ground (arith, count-range_from a (i + 1) n)

pub get_elem?-count : (xs : List ℕ) (i : ℕ) {a : ℕ} → get_elem? xs i ≡ some a → 0 < count a xs
get_elem?-count [] i h = cc
get_elem?-count (x ∷ xs) zero h = ground arith
get_elem?-count (x ∷ xs) (suc i) h = omega (arith, get_elem?-count xs i h)

pub length-range_from : (i n : ℕ) → length (range_from i n) ≡ n
length-range_from i zero = refl
length-range_from i (suc n) = ap suc (length-range_from (i + 1) n)

length-erase_one :
    (a : ℕ) (xs : List ℕ) → 0 < count a xs → length xs ≡ suc (length (erase_one a xs))
unfolding erase_one
length-erase_one a [] h = absurd (omega arith)
length-erase_one a (x ∷ xs) h = ground (arith, length-erase_one a xs)

pub SameItems-length : (xs ys : List ℕ) → SameItems xs ys → length xs ≡ length ys
SameItems-length [] ys h = rw (no_items ys h) refl
SameItems-length (x ∷ xs) ys h = omega (
  arith,
  length-erase_one x ys (ground (arith, h x)),
  SameItems-length xs (erase_one x ys) (λ a. ground (arith, h a, count-erase_one a x ys)),
)

pub count-insert :
    (a pos x : ℕ) (xs : List ℕ)
    → count a (take pos xs ++ x ∷ drop pos xs) ≡ bit (a == x) + count a xs
count-insert a pos x xs =
    omega (arith, count-append a (take pos xs) (x ∷ drop pos xs), count-take-drop a pos xs)
