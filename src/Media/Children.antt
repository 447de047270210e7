-- ===== src/Media/Children.antt =====
-- libmediadb/schema.cpp: a list of the ids of children as a text, in an encoding like UTF-8 of up to 31 bits.
use chorale.Base.{
  ℕ, zero, suc, ◌+◌, ◌*◌, ◌/◌, ◌%◌, ◌^◌, ◌<◌, ◌≤◌, ◌≡◌, refl, ◌∙◌, ap, false, ◌||◌, Option, none,
  some, List, [], ◌∷◌, ◌++◌, Bytes, All, length, ltb, ◌==◌, if◌then◌else◌, ◌>>=◌, arith,
  append_assoc, Bool-cases, List-cases, inl, inr,
}

-- Six bits to a byte, the last `k` sixes of a number, before a text.
unfoldable pub sextets : ℕ → ℕ → Bytes → Bytes
sextets zero ch rest = rest
sextets (suc k) ch rest = sextets k (ch / 64) ((128 + ch % 64) ∷ rest)

-- `ch >> (6 * k)`
unfoldable pub shift : ℕ → ℕ → ℕ
shift zero ch = ch
shift (suc k) ch = shift k (ch / 64)

-- What `AppendUTF8` appends.
unfoldable pub append_utf8 : ℕ → Bytes
unfolding sextets shift
append_utf8 ch =
    if ch == 0
    then b'?' ∷ []
    else if ltb ch 0x80
    then ch ∷ []
    else if ltb ch 0x800
    then (0xC0 + shift 1 ch) ∷ sextets 1 ch []
    else if ltb ch 0x10000
    then (0xE0 + shift 2 ch) ∷ sextets 2 ch []
    else if ltb ch 0x200000
    then (0xF0 + shift 3 ch) ∷ sextets 3 ch []
    else if ltb ch 0x4000000
    then (0xF8 + shift 4 ch) ∷ sextets 4 ch []
    else if ltb ch 0x80000000
    then (0xFC + shift 5 ch) ∷ sextets 5 ch []
    else []

unfoldable pub append_all : List ℕ → Bytes
unfolding append_utf8
append_all [] = []
append_all (x ∷ xs) = append_utf8 x ++ append_all xs

unfoldable pub vector_to_children : List ℕ → Bytes
unfolding append_utf8 append_all
vector_to_children [] = []
vector_to_children (x ∷ xs) = append_utf8 (length (x ∷ xs) % 2 ^ 32) ++ append_all (x ∷ xs)

-- The bytes that continue a character; `none` is a read past the end of the text.
unfoldable pub continue : ℕ → ℕ → Bytes → Option (ℕ × Bytes)
continue zero ch p = some (ch, p)
continue (suc k) ch [] = none
continue (suc k) ch (c ∷ p) = continue k (ch * 64 + c % 64) p

-- The pointer is the text from there on, with its end mark.
unfoldable pub get_utf8_char : Bytes → Option (ℕ × Bytes)
unfolding continue
get_utf8_char [] = none
get_utf8_char (ch ∷ p) =
    if ch == 0
    then some (0, ch ∷ p)
    else if ltb ch 0x80
    then some (ch, p)
    else if ltb ch 0xC0
    then some (0, p)
    else if ltb ch 0xE0
    then continue 1 (ch % 32) p
    else if ltb ch 0xF0
    then continue 2 (ch % 16) p
    else if ltb ch 0xF8
    then continue 3 (ch % 8) p
    else if ltb ch 0xFC
    then continue 4 (ch % 4) p
    else if ltb ch 0xFE
    then continue 5 (ch % 2) p
    else some (0, p)

unfoldable pub get_children : ℕ → Bytes → Option (List ℕ)
unfolding get_utf8_char
get_children zero p = some []
get_children (suc n) p = do c ← get_utf8_char p; rest ← get_children n c.1; some (c.0 ∷ rest)

unfoldable pub children_from : Bytes → Option (List ℕ)
unfolding get_utf8_char get_children
children_from p = do
  n ← get_utf8_char p
  (if (n.0 == 0) || ltb 20000 n.0 then some [] else get_children n.0 n.1)

-- The text is followed by its end mark.
unfoldable pub children_to_vector : Bytes → Option (List ℕ)
unfolding children_from
children_to_vector [] = some []
children_to_vector (c ∷ s) = if c == 0 then some [] else children_from (c ∷ s ++ 0 ∷ [])

continue_last :
    (k ch : ℕ) (p : Bytes) → continue (suc k) ch p ≡ (do c ← continue k ch p; continue 1 c.0 c.1)
unfolding continue
continue_last zero ch [] = refl
continue_last zero ch (c ∷ p) = refl
continue_last (suc k) ch [] = refl
continue_last (suc k) ch (c ∷ p) = continue_last k (ch * 64 + c % 64) p

continue-sextets :
    (k ch : ℕ) (rest : Bytes) → continue k (shift k ch) (sextets k ch rest) ≡ some (ch, rest)
unfolding continue shift sextets
continue-sextets zero ch rest = refl
continue-sextets (suc k) ch rest =
    let whole : ch / 64 * 64 + (128 + ch % 64) % 64 ≡ ch = omega arith in
    continue_last k (shift k (ch / 64)) (sextets k (ch / 64) ((128 + ch % 64) ∷ rest))
    ∙ ap (λ (o : Option (ℕ × Bytes)). do c ← o; continue 1 c.0 c.1)
        (continue-sextets k (ch / 64) ((128 + ch % 64) ∷ rest))
    ∙ ap (λ n. some (n, rest)) whole

sextets-append : (k ch : ℕ) (p rest : Bytes) → sextets k ch p ++ rest ≡ sextets k ch (p ++ rest)
unfolding sextets
sextets-append zero ch p rest = refl
sextets-append (suc k) ch p rest = sextets-append k (ch / 64) ((128 + ch % 64) ∷ p) rest

-- What a branch of `AppendUTF8` wrote is read by the branch of `GetUTF8Char` for its first byte.
read_back :
    (k ch mask base : ℕ) (rest : Bytes)
    → (base + shift k ch) % mask ≡ shift k ch
    → continue k ((base + shift k ch) % mask) (sextets k ch [] ++ rest) ≡ some (ch, rest)
read_back k ch mask base rest lead =
    ap (λ n. continue k n (sextets k ch [] ++ rest)) lead
    ∙ ap (continue k (shift k ch)) (sextets-append k ch [] rest)
    ∙ continue-sextets k ch rest

get_utf8_char-append_utf8 :
    (ch : ℕ) (rest : Bytes)
    → 0 < ch
    → ch < 2 ^ 31
    → get_utf8_char (append_utf8 ch ++ rest) ≡ some (ch, rest)
unfolding get_utf8_char append_utf8 shift
get_utf8_char-append_utf8 ch rest positive small = elim (Bool-cases (ltb ch 0x80)) [
  | inl b1 ↦ ground (arith, b1)
  | inr c1 ↦ elim (Bool-cases (ltb ch 0x800)) [
    | inl b2 ↦
        let low : ch / 64 < 32 = ground (arith, b2) in
        let back = read_back 1 ch 32 0xC0 rest (omega arith) in ground (arith, c1, b2, back, low)
    | inr c2 ↦ elim (Bool-cases (ltb ch 0x10000)) [
      | inl b3 ↦
          let low : ch / 64 / 64 < 16 = ground (arith, b3) in
          let back = read_back 2 ch 16 0xE0 rest (omega arith) in
          ground (arith, c1, c2, b3, back, low)
      | inr c3 ↦ elim (Bool-cases (ltb ch 0x200000)) [
        | inl b4 ↦
            let low : ch / 64 / 64 / 64 < 8 = ground (arith, b4) in
            let back = read_back 3 ch 8 0xF0 rest (omega arith) in
            ground (arith, c1, c2, c3, b4, back, low)
        | inr c4 ↦ elim (Bool-cases (ltb ch 0x4000000)) [
          | inl b5 ↦
              let low : ch / 64 / 64 / 64 / 64 < 4 = ground (arith, b5) in
              let back = read_back 4 ch 4 0xF8 rest (omega arith) in
              ground (arith, c1, c2, c3, c4, b5, back, low)
          | inr c5 ↦
              let low : ch / 64 / 64 / 64 / 64 / 64 < 2 = omega arith in
              let back = read_back 5 ch 2 0xFC rest (omega arith) in
              ground (arith, c1, c2, c3, c4, c5, back, low, small)
        ]
      ]
    ]
  ]
]

-- A child's id as the encoding can hold it.
abbrev pub IsId : ℕ → Type 0
IsId x = (0 < x) × (x < 2 ^ 31)

get_children-append_all :
    (v : List ℕ) (rest : Bytes)
    → All IsId v
    → get_children (length v) (append_all v ++ rest) ≡ some v
unfolding get_children append_all
get_children-append_all [] rest h = refl
get_children-append_all (x ∷ v) rest ((positive, small), h) =
    let e = get_utf8_char-append_utf8 x (append_all v ++ rest) positive small in
    rw (append_assoc (append_utf8 x) (append_all v) rest, e, get_children-append_all v rest h) refl

append_utf8-head :
    (ch : ℕ)
    → 0 < ch
    → ch < 2 ^ 31
    → (c : ℕ) × (s : Bytes) × (append_utf8 ch ≡ c ∷ s) × ((c == 0) ≡ false)
unfolding get_utf8_char
append_utf8-head ch positive small =
    let e = get_utf8_char-append_utf8 ch (0 ∷ []) positive small in
    elim (List-cases (append_utf8 ch)) [
      | inl empty ↦ absurd (ground (arith, e, empty, positive))
      | inr (c, s, shape) ↦ elim (Bool-cases (c == 0)) [
        | inl zeroed ↦ absurd (ground (arith, e, shape, zeroed, positive))
        | inr real ↦ (c, s, shape, real)
      ]
    ]

children_from_lem :
    (p rest : Bytes) (n : ℕ) (v : List ℕ)
    → get_utf8_char p ≡ some (n, rest)
    → 0 < n
    → n ≤ 20000
    → get_children n rest ≡ some v
    → children_from p ≡ some v
unfolding children_from
children_from_lem p rest n v e positive short all = ground (arith, e, positive, short, all)

children_to_vector-some :
    (p s : Bytes) (c : ℕ)
    → p ≡ c ∷ s
    → (c == 0) ≡ false
    → children_to_vector p ≡ children_from (p ++ 0 ∷ [])
unfolding children_to_vector
children_to_vector-some p s c shape real = rw (shape, real) refl

-- A list of at most 20000 children, each above zero and below 2^31, comes back from its text.
pub children_to_vector-vector_to_children :
    (v : List ℕ)
    → length v ≤ 20000
    → All IsId v
    → children_to_vector (vector_to_children v) ≡ some v
unfolding children_to_vector vector_to_children
children_to_vector-vector_to_children [] short h = refl
children_to_vector-vector_to_children (x ∷ v) short h =
    let n = length (x ∷ v) in
    let size : n % 2 ^ 32 ≡ n = omega arith in
    let text = append_all (x ∷ v) in
    let (c, s, shape, real) = append_utf8-head n (omega arith) (omega arith) in
    let read : get_utf8_char (append_utf8 n ++ (text ++ 0 ∷ [])) ≡ some (n, text ++ 0 ∷ []) =
      get_utf8_char-append_utf8 n (text ++ 0 ∷ []) (omega arith) (omega arith) in
    let children = get_children-append_all (x ∷ v) (0 ∷ []) h in
    let back : children_from ((append_utf8 n ++ text) ++ 0 ∷ []) ≡ some (x ∷ v) =
      ap children_from (append_assoc (append_utf8 n) text (0 ∷ []))
      ∙ children_from_lem (append_utf8 n ++ (text ++ 0 ∷ [])) (text ++ 0 ∷ []) n (x ∷ v) read
          (omega arith) short children in
    ap (λ k. children_to_vector (append_utf8 k ++ text)) size
    ∙ children_to_vector-some (append_utf8 n ++ text) (s ++ text) c (ap (λ p. p ++ text) shape) real
    ∙ back
