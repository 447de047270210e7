-- ===== src/Sax/Progress.antt =====
-- libutil/xml.cpp: while more may come and the buffer is not full, each turn of the loop of `SaxParser::Parse` waits or comes
-- nearer to the loop's end.
use chorale.Base.{
  ℕ, zero, suc, ◌+◌, ◌-◌, ◌*◌, ◌<◌, ◌≤◌, ◌≡◌, refl, ◌∙◌, ap, true, false, ◌&&◌, Option, none, some,
  [], ◌∷◌, ◌++◌, Bytes, codes, c_str, index_of, length, length-c_str, length-drop, take, drop, ltb,
  ◌==◌, if◌then◌else◌, ◌>>=◌, arith, Bool-cases, Option-cases, inl, inr,
}
use chorale.Base.{Gives}
use chorale.Text.Xml.{xml_unescape-total}
use chorale.Sax.Parser.{
  on_content, on_attribute, on_end, State, content, tag, seek_gt, in_tag, in_attr, attr_seekeq,
  attr_seekvalue, in_quotedvalue, in_value, Sax, bufsize, Turn, goes_on, waits, tell, use_up, enter,
  byte_at, strcspn, strspn, last_index, blanks, can_wait, parse_content, parse_cdata, parse_seek_gt,
  past_blanks, in_tag_at, attr_seekeq_at, attr_seekvalue_at, parse_in_tag, after_attr,
  parse_in_attr, parse_attr_seekeq, parse_attr_seekvalue, parse_in_quotedvalue, parse_in_value,
}

-- States in which a turn may use up nothing stand above the state that it leads to.
unfoldable pub rank : State → ℕ
rank attr_seekvalue = 4
rank in_value = 3
rank attr_seekeq = 3
rank in_tag = 2
rank _ = 0

abbrev pub weigh : Sax → ℕ
weigh p = 8 * length p.buffer + rank p.state

-- More may come, and there is room for it.
abbrev pub IsOpen : Sax → Type 0
IsOpen p = (p.eof ≡ false) × (length p.buffer < bufsize)

abbrev pub Progress : Sax → Turn → Type 0
Progress p (goes_on q) = (weigh q < weigh p) × IsOpen q
Progress p (waits q) = Unit

use_up_fine :
    (n : ℕ) (p : Sax)
    → n ≤ length p.buffer
    → use_up n p ≡ some (record p { buffer = drop n p.buffer })
unfolding use_up
use_up_fine n p h = ground (arith, h)

index_of_lt : (c : ℕ) (s : Bytes) {k : ℕ} → index_of c s ≡ some k → k < length s
unfolding index_of
index_of_lt c [] h = cc
index_of_lt c (d ∷ s) h = elim (Bool-cases (d == c)) [
  | inl here ↦ ground (arith, h, here)
  | inr other ↦ elim (Option-cases (index_of c s)) [
    | inl absent ↦ absurd (ground (arith, h, other, absent))
    | inr (j, there) ↦ ground (arith, h, other, there, index_of_lt c s there)
  ]
]

pub strcspn_le : (s stops : Bytes) → strcspn s stops ≤ length s
unfolding strcspn
strcspn_le [] stops = omega arith
strcspn_le (c ∷ s) stops = ground (arith, strcspn_le s stops)

strspn_le : (s skipped : Bytes) → strspn s skipped ≤ length s
unfolding strspn
strspn_le [] skipped = omega arith
strspn_le (c ∷ s) skipped = ground (arith, strspn_le s skipped)

last_index_lt : (c : ℕ) (s : Bytes) {k : ℕ} → last_index c s ≡ some k → k < length s
unfolding last_index
last_index_lt c [] h = cc
last_index_lt c (d ∷ s) h = elim (Option-cases (last_index c s)) [
  | inl absent ↦ ground (arith, h, absent)
  | inr (j, there) ↦ ground (arith, h, there, last_index_lt c s there)
]

-- A turn that uses up `n` bytes of `p` and goes on as `q` does but for the buffer.
pub use_up-Progress :
    (p q : Sax) (n : ℕ) (st : State)
    → IsOpen p
    → n ≤ length p.buffer
    → q.buffer ≡ p.buffer
    → q.eof ≡ p.eof
    → rank st < 8 * n + rank p.state
    → Gives (do r ← use_up n q; some (goes_on (enter st r))) (Progress p)
use_up-Progress p q n st (more, room) fits same open_end lower =
    let left : length (drop n q.buffer) ≡ length p.buffer - n =
      ground (arith, same, length-drop n p.buffer) in
    (
      goes_on (record q { buffer = drop n q.buffer; state = st }),
      ground (arith, use_up_fine n q (ground (arith, same, fits))),
      (omega (arith, left, lower, fits), (open_end ∙ more, omega (arith, left, room))),
    )

-- A turn that stays in the state of `q`.
stay-Progress :
    (p q : Sax) (n : ℕ)
    → IsOpen p
    → n ≤ length p.buffer
    → q.buffer ≡ p.buffer
    → q.eof ≡ p.eof
    → rank q.state < 8 * n + rank p.state
    → Gives (do r ← use_up n q; some (goes_on r)) (Progress p)
stay-Progress p q n (more, room) fits same open_end lower =
    let left : length (drop n q.buffer) ≡ length p.buffer - n =
      ground (arith, same, length-drop n p.buffer) in
    (
      goes_on (record q { buffer = drop n q.buffer }),
      ground (arith, use_up_fine n q (ground (arith, same, fits))),
      (omega (arith, left, lower, fits), (open_end ∙ more, omega (arith, left, room))),
    )

-- A turn that drops all that is buffered.
emptied-Progress :
    (p q : Sax)
    → IsOpen p
    → 0 < length p.buffer
    → q.eof ≡ p.eof
    → q.state ≡ p.state
    → Progress p (goes_on (record q { buffer = [] }))
emptied-Progress p q (more, room) some_left open_end same =
    let level : rank q.state ≡ rank p.state = ap rank same in
    (omega (arith, level, some_left), (open_end ∙ more, omega arith))

module _ (p : Sax) (opened : IsOpen p) (some_left : 0 < length p.buffer) where
  in_text : (c : ℕ) {k : ℕ} → index_of c (c_str p.buffer) ≡ some k → k < length p.buffer
  in_text c e = let h = index_of_lt c (c_str p.buffer) e in omega (arith, h, length-c_str p.buffer)

  abbrev told : Bytes → Sax
  told text = record (tell (on_content text) p) { buffer = [] }

  -- The text without a mark is told as it is.
  told-Progress :
      (text : Bytes) → Progress p (goes_on (record (tell (on_content text) p) { buffer = [] }))
  told-Progress text = emptied-Progress p (tell (on_content text) p) opened some_left refl refl

  pub parse_content-Progress : Gives (parse_content p) (Progress p)
  unfolding parse_content rank
  parse_content-Progress =
      let text = c_str p.buffer in
      elim (Option-cases (index_of b'<' text)) [
        | inr (lt, found) ↦
            let (unesc, e) = xml_unescape-total (take lt text) in
            let q = if lt == 0 then p else tell (on_content unesc) p in
            let (t, h, better) =
              use_up-Progress p q (lt + 1) tag opened (omega (arith, in_text b'<' found))
                (ground arith) (ground arith) (omega arith) in
            (t, ground (arith, found, e, h), better)
        | inl absent ↦ elim (Option-cases (last_index b'&' text)) [
          | inl plain ↦
              let (unesc, e) = xml_unescape-total text in
              (goes_on (told unesc), ground (arith, absent, plain, e), told-Progress unesc)
          | inr (amp, there) ↦
              elim (Bool-cases
                (elim (last_index b';' text) [ none ↦ true | some semi ↦ ltb semi amp ])) [
                  | inl part ↦
                      let (unesc, e) = xml_unescape-total (take amp text) in
                      let fits = last_index_lt b'&' text there in
                      let used =
                        use_up_fine amp (tell (on_content unesc) p)
                          (omega (arith, fits, length-c_str p.buffer)) in
                      (
                        waits (record (tell (on_content unesc) p) { buffer = drop amp p.buffer }),
                        ground (arith, absent, there, part, e, used, opened.0),
                        _,
                      )
                  | inr whole ↦
                      let (unesc, e) = xml_unescape-total text in
                      (
                        goes_on (told unesc),
                        ground (arith, absent, there, whole, e),
                        told-Progress unesc,
                      )
                ]
        ]
      ]

  pub parse_cdata-Progress : Gives (parse_cdata p) (Progress p)
  unfolding parse_cdata rank
  parse_cdata-Progress = elim (Option-cases (index_of b']' (c_str p.buffer))) [
    | inl absent ↦
        (goes_on (told (c_str p.buffer)), ground (arith, absent), told-Progress (c_str p.buffer))
    | inr (suc ket, found) ↦
        let q = tell (on_content (take (suc ket) (c_str p.buffer))) p in
        let (t, h, better) =
          stay-Progress p q (suc ket) opened (omega (arith, in_text b']' found)) refl refl
            (omega arith) in
        (t, ground (arith, found, h), better)
    | inr (zero, found) ↦ elim (Bool-cases (ltb (length p.buffer) 3)) [
      | inl short ↦ (waits p, ground (arith, found, short), _)
      | inr long ↦
          elim (Bool-cases ((byte_at 1 p.buffer == b']') && (byte_at 2 p.buffer == b'>'))) [
            | inl end ↦
                let (t, h, better) =
                  use_up-Progress p p 3 content opened (ground (arith, long)) refl refl
                    (omega arith) in
                (t, ground (arith, found, long, end, h), better)
            | inr other ↦
                let q = tell (on_content (codes "]")) p in
                let (t, h, better) =
                  stay-Progress p q 1 opened (omega arith) refl refl (omega arith) in
                (t, ground (arith, found, long, other, h), better)
          ]
    ]
  ]

  pub parse_seek_gt-Progress : Gives (parse_seek_gt p) (Progress p)
  unfolding parse_seek_gt rank
  parse_seek_gt-Progress = elim (Option-cases (index_of b'>' (c_str p.buffer))) [
    | inl absent ↦ (waits p, ground (arith, absent, opened.0, opened.1), _)
    | inr (gt, found) ↦
        let (t, h, better) =
          use_up-Progress p p (gt + 1) content opened (omega (arith, in_text b'>' found)) refl refl
            (omega arith) in
        (t, ground (arith, found, h), better)
  ]

  pub parse_in_quotedvalue-Progress : Gives (parse_in_quotedvalue p) (Progress p)
  unfolding parse_in_quotedvalue rank
  parse_in_quotedvalue-Progress = elim (Option-cases (index_of b'"' (c_str p.buffer))) [
    | inl absent ↦ (waits p, ground (arith, absent, opened.0, opened.1), _)
    | inr (quote, found) ↦
        let (value, e) = xml_unescape-total (take quote p.buffer) in
        let (t, h, better) =
          use_up-Progress p (tell (on_attribute p.attrname value) p) (quote + 1) in_tag opened
            (omega (arith, in_text b'"' found)) refl refl (omega arith) in
        (t, ground (arith, found, e, h), better)
  ]

  pub parse_in_value-Progress : p.state ≡ in_value → Gives (parse_in_value p) (Progress p)
  unfolding parse_in_value rank
  parse_in_value-Progress st =
      let valuelen = strcspn (c_str p.buffer) (blanks ++ codes "/>") in
      let fits = strcspn_le (c_str p.buffer) (blanks ++ codes "/>") in
      elim (Bool-cases ((valuelen == length p.buffer) && can_wait p)) [
        | inl wait ↦ (waits p, ground (arith, wait), _)
        | inr go ↦
            let (value, e) = xml_unescape-total (take valuelen p.buffer) in
            let level : rank p.state ≡ 3 = ap rank st in
            let (t, h, better) =
              use_up-Progress p (tell (on_attribute p.attrname value) p) valuelen in_tag opened
                (omega (arith, fits, length-c_str p.buffer)) refl refl (omega (arith, level)) in
            (t, ground (arith, go, e, h), better)
      ]

  -- Where a state looks past the blanks, there are some left, or a byte that is none.
  past_blanks-Progress :
      (next : ℕ → Option Turn)
      → ((skip : ℕ) → skip < length p.buffer → Gives (next skip) (Progress p))
      → Gives (past_blanks next p) (Progress p)
  unfolding past_blanks
  past_blanks-Progress next all =
      let skip = strspn (c_str p.buffer) blanks in
      let fits = strspn_le (c_str p.buffer) blanks in
      elim (Bool-cases (skip == length p.buffer)) [
        | inl blank ↦ (
          goes_on (record p { buffer = [] }),
          ground (arith, blank),
          emptied-Progress p p opened some_left refl refl,
        )
        | inr other ↦
            let (t, h, better) = all skip (ground (arith, other, fits, length-c_str p.buffer)) in
            (t, ground (arith, other, h), better)
      ]

  pub parse_in_tag-Progress : p.state ≡ in_tag → Gives (parse_in_tag p) (Progress p)
  unfolding parse_in_tag in_tag_at rank
  parse_in_tag-Progress st =
      let level : rank p.state ≡ 2 = ap rank st in
      past_blanks-Progress (in_tag_at p) (λ skip fits.
        elim (Bool-cases (byte_at skip p.buffer == b'>')) [
          | inl closed ↦ rw closed (
              use_up-Progress p p skip seek_gt opened (omega arith) refl refl
                (omega (arith, level)))
          | inr c1 ↦ elim (Bool-cases (byte_at skip p.buffer == b'/')) [
            | inl end ↦
                rw (c1, end)
                  (stay-Progress p (tell (on_end p.tagname) p) (skip + 1) opened (omega arith) refl
                    refl (omega arith))
            | inr c2 ↦
                rw (c1, c2)
                  (use_up-Progress p p skip in_attr opened (omega arith) refl refl
                    (omega (arith, level)))
          ]
        ])

  pub parse_attr_seekeq-Progress : p.state ≡ attr_seekeq → Gives (parse_attr_seekeq p) (Progress p)
  unfolding parse_attr_seekeq attr_seekeq_at rank
  parse_attr_seekeq-Progress st =
      let level : rank p.state ≡ 3 = ap rank st in
      past_blanks-Progress (attr_seekeq_at p) (λ skip fits.
        elim (Bool-cases (byte_at skip p.buffer == b'=')) [
          | inl equals ↦ rw equals (
              use_up-Progress p p (skip + 1) attr_seekvalue opened (omega arith) refl refl
                (omega (arith, level)))
          | inr other ↦ rw other (
              use_up-Progress p (tell (on_attribute p.attrname []) p) skip in_tag opened
                (omega arith) refl refl (omega (arith, level)))
        ])

  pub parse_attr_seekvalue-Progress :
      p.state ≡ attr_seekvalue → Gives (parse_attr_seekvalue p) (Progress p)
  unfolding parse_attr_seekvalue attr_seekvalue_at rank
  parse_attr_seekvalue-Progress st =
      let level : rank p.state ≡ 4 = ap rank st in
      past_blanks-Progress (attr_seekvalue_at p) (λ skip fits.
        elim (Bool-cases (byte_at skip p.buffer == b'"')) [
          | inl quoted ↦ rw quoted (
              use_up-Progress p p (skip + 1) in_quotedvalue opened (omega arith) refl refl
                (omega (arith, level)))
          | inr plain ↦ rw plain (
              use_up-Progress p p skip in_value opened (omega arith) refl refl
                (omega (arith, level)))
        ])

  -- A name that ends in the buffer is used up with the byte behind it.
  pub name-Progress :
      (n : ℕ) (q : Sax)
      → n ≤ length p.buffer
      → ((n == length p.buffer) && can_wait p) ≡ false
      → q.buffer ≡ p.buffer
      → q.eof ≡ p.eof
      → rank q.state ≤ 4
      → Gives (do r ← use_up (n + 1) q; some (goes_on r)) (Progress p)
  name-Progress n q fits go same open_end low =
      stay-Progress p q (n + 1) opened (ground (arith, fits, go, opened.0, opened.1)) same open_end
        (omega (arith, low))

  pub parse_in_attr-Progress : Gives (parse_in_attr p) (Progress p)
  unfolding parse_in_attr rank
  parse_in_attr-Progress =
      let attrlen = strcspn (c_str p.buffer) (blanks ++ codes "=/>") in
      let fits = strcspn_le (c_str p.buffer) (blanks ++ codes "=/>") in
      elim (Bool-cases ((attrlen == length p.buffer) && can_wait p)) [
        | inl wait ↦ (waits p, ground (arith, wait), _)
        | inr go ↦
            let q = after_attr (take attrlen p.buffer) (byte_at attrlen p.buffer) p in
            let (t, h, better) =
              name-Progress attrlen q (omega (arith, fits, length-c_str p.buffer)) go (ground arith)
                (ground arith) (ground arith) in
            (t, ground (arith, go, h), better)
      ]
