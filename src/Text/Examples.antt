-- ===== src/Text/Examples.antt =====
-- The text conversions on concrete inputs: the tests of the source's own `main`, and each theorem applied where
-- its hypotheses hold.
use chorale.Base.{
  ℕ, ◌≡◌, refl, some, List, [], ◌∷◌, ◌++◌, arith, Bytes, codes, All, inl, inr, c_str, index_of,
}
use chorale.Text.Xml.{
  xml_escape, xml_unescape, entity_text, xml_unescape_from, xml_unescape-xml_escape,
  xml_escape-IsSafe, IsSafe,
}
use chorale.Base.{true, get_elem?, ◌↔◌, ◌⊎◌, same_text}
use chorale.Text.Paths.{
  make_relative_path, drop_common, add_parents, split, is_empty, make_absolute_path, go_up,
  get_dir_name, last_index_of, get_extension, extension_dot, is_in_root, is_slash,
}
use chorale.Text.PathLaws.{relative_paths-total, is_in_root_iff}
use chorale.Text.Scan.{
  scanf64, scanf64_from, scan_number, skip_spaces, after_llu, scanf64-total, Scanned,
}
use chorale.Text.UrlText.{is_space}
use chorale.Text.HttpLines.{header_parts, header_parts-written}
use chorale.Text.Quote.{quote_escape, quote_unescape, quote_unescape-quote_escape}
use chorale.Text.UrlText.{url_escape, url_unescape, url_unescape-url_escape}
use chorale.Text.FileUrl.{path_to_url, url_to_path, url_to_path-path_to_url}
use chorale.Text.Utf8.{
  utf8_to_utf16, utf16_to_utf8, utf8_to_utf32, utf32_to_utf8, get_char8, put_char8, put_char16,
}
use chorale.Text.Utf8.Decode.{get_char8-canonical}
use chorale.Text.Utf8.Convert.{utf8-utf16, conversions-total, written}

xml_test : xml_unescape (codes "&amp;quot;hi&amp;quot;") ≡ some (codes "&quot;hi&quot;")
unfolding xml_unescape xml_unescape_from index_of c_str entity_text
xml_test = refl

quote_test : quote_unescape (codes "f\\") ≡ codes "f"
unfolding quote_unescape c_str
quote_test = refl

url_test : url_escape (codes "808 State") ≡ codes "808%20State"
unfolding url_escape
url_test = refl

path_test : path_to_url (codes "/who?.mp3") ≡ codes "file:///who%3F.mp3"
unfolding path_to_url
path_test = refl

utf8_test :
    utf8_to_utf16 (0xE6 ∷ 0xB2 ∷ 0xB3 ∷ 0xE8 ∷ 0xB1 ∷ 0x9A ∷ []) ≡ some (0x6CB3 ∷ 0x8C5A ∷ [])
unfolding utf8_to_utf16
utf8_test = refl

xml_unescape-xml_escape_example : xml_unescape (xml_escape (codes "X<&>Y")) ≡ some (codes "X<&>Y")
xml_unescape-xml_escape_example = xml_unescape-xml_escape (codes "X<&>Y")

xml_escape-IsSafe_example : All IsSafe (xml_escape (codes "\"<"))
xml_escape-IsSafe_example = xml_escape-IsSafe (codes "\"<")

quote_unescape-quote_escape_example : quote_unescape (quote_escape (codes "f\"\\")) ≡ codes "f\"\\"
unfolding c_str
quote_unescape-quote_escape_example = quote_unescape-quote_escape (codes "f\"\\")

url_unescape-url_escape_example :
    url_unescape (url_escape (0 ∷ 200 ∷ b'%' ∷ [])) ≡ 0 ∷ 200 ∷ b'%' ∷ []
url_unescape-url_escape_example = url_unescape-url_escape (0 ∷ 200 ∷ b'%' ∷ []) (omega arith)

url_to_path-path_to_url_example : url_to_path (path_to_url (codes "/a b")) ≡ codes "/a b"
url_to_path-path_to_url_example = url_to_path-path_to_url (codes "a b") (omega arith)

get_char8-canonical_example :
    ◌≡◌ {A = Bytes}
      (0xC3 ∷ 0xA9 ∷ 65 ∷ [])
      (put_char8 (get_char8 (0xC3 ∷ 0xA9 ∷ 65 ∷ [])).0 ++ (get_char8 (0xC3 ∷ 0xA9 ∷ 65 ∷ [])).1)
unfolding get_char8
get_char8-canonical_example =
    get_char8-canonical 0xC3 (0xA9 ∷ 65 ∷ []) (omega arith) (omega arith) (omega arith)

-- A byte, an e with an accent, a Chinese character and one outside the basic plane.
abbrev four_sizes : List ℕ
four_sizes = 65 ∷ 0xE9 ∷ 0x6CB3 ∷ 0x1F600 ∷ []

utf8-utf16_example :
    (utf8_to_utf16 (written put_char8 four_sizes) ≡ some (written put_char16 four_sizes))
    × (utf16_to_utf8 (written put_char16 four_sizes) ≡ some (written put_char8 four_sizes))
utf8-utf16_example = utf8-utf16 four_sizes (
  ((omega arith, omega arith, omega arith), (omega arith, inl (omega arith))),
  (
    ((omega arith, omega arith, omega arith), (omega arith, inl (omega arith))),
    (
      ((omega arith, omega arith, omega arith), (omega arith, inl (omega arith))),
      (((omega arith, omega arith, omega arith), (omega arith, inr (omega arith))), tt),
    ),
  ),
)

conversions-total_example :
    ((out : List ℕ) × (utf8_to_utf16 (0x80 ∷ 0xF0 ∷ []) ≡ some out))
    × ((out : List ℕ) × (utf8_to_utf32 (0x80 ∷ 0xF0 ∷ []) ≡ some out))
    × ((out : List ℕ) × (utf16_to_utf8 (0x80 ∷ 0xF0 ∷ []) ≡ some out))
    × ((out : List ℕ) × (utf32_to_utf8 (0x80 ∷ 0xF0 ∷ []) ≡ some out))
conversions-total_example = conversions-total (0x80 ∷ 0xF0 ∷ [])

relative_test : make_relative_path (codes "/foo/woo") (codes "/bar") ≡ some (codes "../bar")
unfolding make_relative_path drop_common add_parents split is_empty same_text
relative_test = refl

absolute_test : make_absolute_path (codes "/foo/woo") (codes "../bar") ≡ some (codes "/bar")
unfolding make_absolute_path go_up get_dir_name last_index_of split same_text c_str
absolute_test = refl

extension_test : get_extension (codes "foo.bar/txt") ≡ []
unfolding get_extension extension_dot last_index_of
extension_test = refl

scan_test :
    scanf64 3 (codes "bytes 0-10/21") (codes "bytes %llu-%llu/%llu") ≡ some (3, 0 ∷ 10 ∷ 21 ∷ [])
unfolding scanf64 scanf64_from scan_number skip_spaces after_llu is_space c_str
scan_test = refl

scanf64-total_example :
    (r : ℕ × List ℕ) × (scanf64 1 (codes "x1") (codes "x%llu") ≡ some r) × Scanned 1 r
scanf64-total_example = scanf64-total 1 (codes "x1") (codes "x%llu")

relative_paths-total_example :
    ((r : Bytes) × (make_relative_path (codes "/a/b") (codes "/a/c") ≡ some r))
    × ((r : Bytes) × (make_absolute_path (codes "/a/b") (codes "/a/c") ≡ some r))
relative_paths-total_example = relative_paths-total (codes "/a/b") (codes "/a/c")

is_in_root_iff_example : (is_in_root (some (codes "/zootle")) (some (codes "/zootleb")) ≡ true) ↔ (
    (rest : Bytes) × (codes "/zootleb" ≡ codes "/zootle" ++ rest)
    × ((rest ≡ []) ⊎ (is_slash (get_elem? rest 0) ≡ true)))
unfolding is_slash
is_in_root_iff_example = is_in_root_iff (codes "/zootle") (codes "/zootleb") refl refl

header_parts-written_example : header_parts (codes "Range: bytes") ≡ (codes "Range", codes "bytes")
header_parts-written_example =
    header_parts-written (codes "Range") (codes "ytes") b'b'
      (refl, (refl, (refl, (refl, (refl, tt))))) refl
