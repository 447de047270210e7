-- ===== src/Sax/Ending.antt =====
-- libutil/xml.cpp: `SaxParser::Parse` returns while more may come and the buffer is not full, and where it does not return at the end of the input.
use chorale.Base.{
  ℕ, zero, suc, ◌+◌, ◌<◌, ◌≤◌, ◌≡◌, refl, ◌∙◌, ap, Bool, true, false, ◌&&◌, none, some, [], ◌∷◌,
  ◌++◌, Bytes, codes, c_str, same_text, index_of, length, length-c_str, length-drop, take, drop,
  ltb, ◌==◌, if◌then◌else◌, arith, Bool-cases, List-cases, inl, inr, subst,
}
use chorale.Base.{Gives}
use chorale.Text.Xml.{xml_unescape-total}
use chorale.Sax.Parser.{
  on_content, State, content, cdata, tag, seek_gt, in_tag, in_attr, attr_seekeq, attr_seekvalue,
  in_quotedvalue, in_value, Sax, bufsize, Turn, goes_on, waits, tell, use_up, byte_at, strcspn,
  last_index, blanks, can_wait, parse_content, cdata_start, after_tag, parse_tag, turn, parse,
  turns,
}
use chorale.Sax.Progress.{
  rank, weigh, IsOpen, Progress, strcspn_le, use_up-Progress, name-Progress, parse_content-Progress,
  parse_cdata-Progress, parse_seek_gt-Progress, parse_in_tag-Progress, parse_in_attr-Progress,
  parse_attr_seekeq-Progress, parse_attr_seekvalue-Progress, parse_in_quotedvalue-Progress,
  parse_in_value-Progress,
}

first_kept : (s : Bytes) → (byte_at 0 s == b'/') ≡ true → 0 < length (c_str s)
unfolding c_str
first_kept [] h = absurd (ground (arith, h))
first_kept (d ∷ s) h = elim (Bool-cases (d == 0)) [
  | inl zeroed ↦ absurd (ground (arith, h, zeroed))
  | inr real ↦ ground (arith, real)
]

-- The length of a tag's name, with its slash.
tag_fits :
    (s stops : Bytes)
    → strcspn (drop (if byte_at 0 s == b'/' then 1 else 0) (c_str s)) stops
        + (if byte_at 0 s == b'/' then 1 else 0)
      ≤ length s
tag_fits s stops = elim (Bool-cases (byte_at 0 s == b'/')) [
  | inl end ↦ rw end (
      omega (
        arith,
        strcspn_le (drop 1 (c_str s)) stops,
        length-drop 1 (c_str s),
        first_kept s end,
        length-c_str s,
      ))
  | inr begin ↦ rw begin (omega (arith, strcspn_le (c_str s) stops, length-c_str s))
]

after_tag-kept :
    (end : Bool) (name : Bytes) (c : ℕ) (p : Sax)
    → ((after_tag end name c p).buffer ≡ p.buffer)
      × ((after_tag end name c p).eof ≡ p.eof)
      × (rank (after_tag end name c p).state ≤ 4)
unfolding rank
after_tag-kept true name c p = ground arith
after_tag-kept false name c p = ground arith

module _ (p : Sax) (opened : IsOpen p) (some_left : 0 < length p.buffer) where
  parse_tag-Progress : Gives (parse_tag p) (Progress p)
  unfolding parse_tag rank
  parse_tag-Progress =
      elim (Bool-cases
        (same_text (take (length cdata_start) p.buffer) (take (length p.buffer) cdata_start))) [
          | inl starts ↦ elim (Bool-cases (ltb (length p.buffer) (length cdata_start))) [
            | inl short ↦ (waits p, ground (arith, starts, short), _)
            | inr long ↦
                let (t, h, better) =
                  use_up-Progress p p 8 cdata opened (ground (arith, long)) refl refl
                    (omega arith) in
                (t, ground (arith, starts, long, h), better)
          ]
          | inr plain ↦
              let end = byte_at 0 p.buffer == b'/' in
              let skip : ℕ = if end then 1 else 0 in
              let taglen = strcspn (drop skip (c_str p.buffer)) (blanks ++ codes "/>") + skip in
              elim (Bool-cases ((taglen == length p.buffer) && can_wait p)) [
                | inl wait ↦ (waits p, ground (arith, plain, wait), _)
                | inr go ↦
                    let q = after_tag end (take taglen p.buffer) (byte_at taglen p.buffer) p in
                    let kept =
                      after_tag-kept end (take taglen p.buffer) (byte_at taglen p.buffer) p in
                    let (t, h, better) =
                      name-Progress p opened some_left taglen q
                        (tag_fits p.buffer (blanks ++ codes "/>")) go kept.0 kept.1 kept.2 in
                    (t, ground (arith, plain, go, h), better)
              ]
        ]

  turn-Progress : (st : State) → p.state ≡ st → Gives (turn st p) (Progress p)
  unfolding turn
  turn-Progress content e = parse_content-Progress p opened some_left
  turn-Progress cdata e = parse_cdata-Progress p opened some_left
  turn-Progress tag e = parse_tag-Progress
  turn-Progress seek_gt e = parse_seek_gt-Progress p opened some_left
  turn-Progress in_tag e = parse_in_tag-Progress p opened some_left e
  turn-Progress in_attr e = parse_in_attr-Progress p opened some_left
  turn-Progress attr_seekeq e = parse_attr_seekeq-Progress p opened some_left e
  turn-Progress attr_seekvalue e = parse_attr_seekvalue-Progress p opened some_left e
  turn-Progress in_quotedvalue e = parse_in_quotedvalue-Progress p opened some_left
  turn-Progress in_value e = parse_in_value-Progress p opened some_left e

after_turn :
    (n : ℕ) (p : Sax) (c : ℕ) (rest : Bytes) (t : Turn)
    → p.buffer ≡ c ∷ rest
    → turn p.state p ≡ some t
    → ((q : Sax) → t ≡ goes_on q → (r : Sax) × (parse n q ≡ some r))
    → (r : Sax) × (parse (suc n) p ≡ some r)
unfolding parse
after_turn n p c rest (goes_on q) filled h later =
    let (r, e) = later q refl in (r, ground (arith, filled, h, e))
after_turn n p c rest (waits q) filled h later = (q, ground (arith, filled, h))

-- While more may come and the buffer is not full, `Parse` returns: its loop ends, and it reads nothing past the buffer.
pub parse-total :
    (n : ℕ) (p : Sax)
    → p.eof ≡ false
    → length p.buffer < bufsize
    → weigh p < n
    → (q : Sax) × (parse n p ≡ some q)
unfolding parse
parse-total zero p more room enough = absurd (omega arith)
parse-total (suc n) p more room enough = elim (List-cases p.buffer) [
  | inl empty ↦ (p, ground (arith, empty))
  | inr (c, rest, filled) ↦
      let some_left : 0 < length p.buffer = ground (arith, filled) in
      let (t, h, better) = turn-Progress p (more, room) some_left p.state refl in
      after_turn n p c rest t filled h (λ q same.
        let lower : Progress p (goes_on q) = subst (Progress p) same better in
        parse-total n q lower.1.0 lower.1.1 (omega (arith, lower.0, enough)))
]

ampersand_first : (s : Bytes) → last_index b'&' (c_str s) ≡ some 0 → 0 < length s
unfolding last_index c_str
ampersand_first [] h = cc
ampersand_first (c ∷ s) h = omega arith

-- At the end of the input and outside tags, where the bytes buffered, up to a first zero byte, have no tag, no semicolon and
-- one ampersand, which stands first, they are never used up: after any number of turns the loop of `Parse` goes on, without a read past the buffer, with the same bytes still
-- buffered, which are not empty; so it does not end.
pub parse-endless :
    (n : ℕ) (p : Sax)
    → p.eof ≡ true
    → p.state ≡ content
    → index_of b'<' (c_str p.buffer) ≡ none
    → last_index b'&' (c_str p.buffer) ≡ some 0
    → last_index b';' (c_str p.buffer) ≡ none
    → (q : Sax) × (turns n p ≡ some (goes_on q))
      × (q.buffer ≡ p.buffer)
      × (0 < length q.buffer)
      × (parse n p ≡ none)
unfolding parse turns turn parse_content use_up last_index c_str
parse-endless zero p over st no_tag start no_end =
    (p, refl, refl, ampersand_first p.buffer start, refl)
parse-endless (suc n) p over st no_tag start no_end = elim (List-cases p.buffer) [
  | inl empty ↦ absurd (ground (arith, start, empty))
  | inr (c, rest, filled) ↦
      let (unesc, e) = xml_unescape-total [] in
      let q = tell (on_content unesc) p in
      let (r, again, kept, some_left, endless) = parse-endless n q over st no_tag start no_end in
      let same : turn p.state p ≡ some (goes_on q) =
        ap (λ s. turn s p) st ∙ ground (arith, over, no_tag, start, no_end, e) in
      (r, ground (arith, same, again), kept, some_left, ground (arith, filled, same, endless))
]
