-- ===== src/Text/HttpLines.antt =====
-- libutil/http_parser.cpp: the first line and the headers of an HTTP request or response. The line reader is a
-- function on its state; `tokens` is the tokenizer of Boost over blanks and tabs.
use chorale.Base.{
  ℕ, suc, ◌-◌, ◌%◌, ◌≡◌, refl, ap, ◌∙◌, false, ◌||◌, Option, none, some, List, [], ◌∷◌, ◌++◌, Bytes,
  All, index_of, length, take, drop, ◌==◌, if◌then◌else◌, u32,
}
use chorale.Stream.State.{Reply, failed, done, einval}
use chorale.Text.Scan.{scan_number, skip_spaces}

-- `atoi`, as an `unsigned int`.
unfoldable pub atoi : Bytes → ℕ
unfolding scan_number skip_spaces
atoi s = elim (skip_spaces s) [
  | [] ↦ 0
  | c ∷ p ↦
      if c == b'-'
      then (u32 - (scan_number 0 p).0 % u32) % u32
      else if c == b'+'
      then (scan_number 0 p).0 % u32
      else (scan_number 0 (c ∷ p)).0 % u32
]

-- The blanks and tabs at the start go.
unfoldable pub strip_blanks : Bytes → Bytes
strip_blanks [] = []
strip_blanks (c ∷ s) =
    let rest = strip_blanks s in if (c == b' ') || (c == b'\t') then rest else c ∷ s

-- A value of blanks alone is kept as it is.
unfoldable pub header_value : Bytes → Bytes
unfolding strip_blanks
header_value s = elim (strip_blanks s) [ [] ↦ s | c ∷ t ↦ c ∷ t ]

-- The key and the value of a header line with its colon at a place: both empty without a colon.
unfoldable pub parts_at : Bytes → Option ℕ → Bytes × Bytes
unfolding header_value
parts_at line none = ([], [])
parts_at line (some colon) = (take colon line, header_value (drop (suc colon) line))

unfoldable pub header_parts : Bytes → Bytes × Bytes
unfolding parts_at
header_parts line = parts_at line (index_of b':' line)

module _ {S : Type 0} (get_line : S → Option (Reply Bytes × S)) (tokens : Bytes → List Bytes) where
  -- The verb, the path and the version.
  unfoldable pub get_request_line : S → Option (Reply (Bytes × Bytes × Bytes) × S)
  get_request_line s = elim (get_line s) [
    | none ↦ none
    | some (failed rc, s') ↦ some (failed rc, s')
    | some (done line, s') ↦ elim (tokens line) [
      | verb ∷ path ∷ version ∷ _ ↦ some (done (verb, path, version), s')
      | _ ↦ some (failed einval, s')
    ]
  ]

  -- The version and the status.
  unfoldable pub get_response_line : S → Option (Reply (Bytes × ℕ) × S)
  unfolding atoi
  get_response_line s = elim (get_line s) [
    | none ↦ none
    | some (failed rc, s') ↦ some (failed rc, s')
    | some (done line, s') ↦ elim (tokens line) [
      | version ∷ status ∷ _ ↦ some (done (version, atoi status), s')
      | _ ↦ some (failed einval, s')
    ]
  ]

unfoldable pub get_header_line :
    {S : Type 0} → (S → Option (Reply Bytes × S)) → S → Option (Reply (Bytes × Bytes) × S)
unfolding header_parts
get_header_line get_line s = elim (get_line s) [
  | none ↦ none
  | some (failed rc, s') ↦ some (failed rc, s')
  | some (done line, s') ↦ some (done (header_parts line), s')
]

index_of-colon :
    (key rest : Bytes)
    → All (λ c. (c == b':') ≡ false) key
    → index_of b':' (key ++ b':' ∷ rest) ≡ some (length key)
unfolding index_of
index_of-colon [] rest h = refl
index_of-colon (c ∷ key) rest h = rw (index_of, h.0, index_of-colon key rest h.1) refl

take-key : (key rest : Bytes) → take (length key) (key ++ rest) ≡ key
take-key [] rest = refl
take-key (c ∷ key) rest = ap (◌∷◌ c) (take-key key rest)

drop-key : (key : Bytes) (c : ℕ) (rest : Bytes) → drop (suc (length key)) (key ++ c ∷ rest) ≡ rest
drop-key [] c rest = refl
drop-key (d ∷ key) c rest = drop-key key c rest

value_after_blank :
    (v : ℕ) (value : Bytes)
    → ((v == b' ') || (v == b'\t')) ≡ false
    → header_value (b' ' ∷ v ∷ value) ≡ v ∷ value
unfolding header_value strip_blanks
value_after_blank v value k = rw (header_value, strip_blanks, k) refl

written_parts :
    (line key text value : Bytes) (n : ℕ)
    → take n line ≡ key
    → drop (suc n) line ≡ text
    → header_value text ≡ value
    → parts_at line (some n) ≡ (key, value)
unfolding parts_at
written_parts line key text value n d e f = rw (d, e, f) refl

-- A header line written as a key without a colon, a colon, a blank, and a value that starts with neither blank
-- nor tab, is read back as that key and value.
pub header_parts-written :
    (key value : Bytes) (v : ℕ)
    → All (λ c. (c == b':') ≡ false) key
    → ((v == b' ') || (v == b'\t')) ≡ false
    → header_parts (key ++ b':' ∷ b' ' ∷ v ∷ value) ≡ (key, v ∷ value)
unfolding header_parts
header_parts-written key value v h k =
    let line = key ++ b':' ∷ b' ' ∷ v ∷ value in
    ap (parts_at line) (index_of-colon key (b' ' ∷ v ∷ value) h)
    ∙ written_parts line key (b' ' ∷ v ∷ value) (v ∷ value) (length key)
        (take-key key (b':' ∷ b' ' ∷ v ∷ value)) (drop-key key b':' (b' ' ∷ v ∷ value))
        (value_after_blank v value k)
