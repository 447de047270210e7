-- ===== src/Sax/Parser.antt =====
-- libutil/xml.cpp: `SaxParser::Parse`, one turn of its loop at a time.
use chorale.Base.{
  ℕ, zero, suc, ◌+◌, ◌-◌, ◌*◌, Bool, true, false, not, ◌&&◌, Option, none, some, List, [], ◌∷◌,
  ◌++◌, Bytes, codes, c_str, same_text, index_of, length, take, drop, get_elem?, ltb, ◌==◌,
  if◌then◌else◌, ◌>>=◌,
}
use chorale.Text.Xml.{xml_unescape}

-- What the observer is told, in order.
pub data Event : Type 0 where
  on_content : Bytes → Event
  on_begin : Bytes → Event
  on_attribute : Bytes → Bytes → Event
  on_end : Bytes → Event

pub data State : Type 0 where
  content cdata tag seek_gt in_tag in_attr attr_seekeq attr_seekvalue in_quotedvalue in_value :
      State

-- `m_buffered` is the length of the buffer; behind it stands a zero byte.
pub record Sax : Type 0 where
  pub buffer : Bytes
  pub eof : Bool
  pub state : State
  pub tagname : Bytes
  pub attrname : Bytes
  pub events : List Event

-- BUFSIZE
abbrev pub bufsize : ℕ
bufsize = 1024

-- After a turn: the loop goes on, or `Parse` returns to wait for more.
pub data Turn : Type 0 where
  goes_on : Sax → Turn
  waits : Sax → Turn

abbrev pub tell : Event → Sax → Sax
tell e p = record p { events = p.events ++ e ∷ [] }

-- `memmove(m_buffer, m_buffer + n, ...); m_buffered -= n`; `none` where that wraps below zero.
unfoldable pub use_up : ℕ → Sax → Option Sax
use_up n p = if ltb (length p.buffer) n then none else some (record p { buffer = drop n p.buffer })

abbrev pub enter : State → Sax → Sax
enter st p = record p { state = st }

-- The byte at a place of the buffer, which ends with a zero byte.
abbrev pub byte_at : ℕ → Bytes → ℕ
byte_at n s = elim (get_elem? s n) [ none ↦ 0 | some c ↦ c ]

-- `strcspn` and `strspn`
unfoldable pub strcspn : Bytes → Bytes → ℕ
strcspn [] stops = 0
strcspn (c ∷ s) stops =
    let rest = strcspn s stops in elim (index_of c stops) [ none ↦ suc rest | some k ↦ 0 ]

unfoldable pub strspn : Bytes → Bytes → ℕ
strspn [] skipped = 0
strspn (c ∷ s) skipped =
    let rest = strspn s skipped in elim (index_of c skipped) [ none ↦ 0 | some k ↦ suc rest ]

-- `strrchr`
unfoldable pub last_index : ℕ → Bytes → Option ℕ
last_index c [] = none
last_index c (d ∷ s) = elim (last_index c s) [
  | some k ↦ some (suc k)
  | none ↦ if d == c then some 0 else none
]

abbrev pub blanks : Bytes
blanks = 32 ∷ 9 ∷ 10 ∷ 13 ∷ []

-- The condition under which a state waits for a byte that it has not found.
abbrev pub can_wait : Sax → Bool
can_wait p = not p.eof && ltb (length p.buffer) bufsize

unfoldable pub parse_content : Sax → Option Turn
unfolding c_str index_of last_index use_up
parse_content p =
    let text = c_str p.buffer in
    elim (index_of b'<' text) [
      | some lt ↦ do
        unesc ← xml_unescape (take lt text)
        q ← use_up (lt + 1) (if lt == 0 then p else tell (on_content unesc) p)
        some (goes_on (enter tag q))
      | none ↦ elim (last_index b'&' text) [
        | none ↦ do
          unesc ← xml_unescape text
          some (goes_on (record (tell (on_content unesc) p) { buffer = [] }))
        | some amp ↦
            if elim (last_index b';' text) [ none ↦ true | some semi ↦ ltb semi amp ]
            then (do
              unesc ← xml_unescape (take amp text)
              q ← use_up amp (tell (on_content unesc) p)
              some (if p.eof then goes_on q else waits q))
            else (do
              unesc ← xml_unescape text
              some (goes_on (record (tell (on_content unesc) p) { buffer = [] })))
      ]
    ]

unfoldable pub parse_cdata : Sax → Option Turn
unfolding c_str index_of use_up
parse_cdata p =
    let text = c_str p.buffer in
    elim (index_of b']' text) [
      | none ↦ some (goes_on (record (tell (on_content text) p) { buffer = [] }))
      | some (suc ket) ↦ do
        q ← use_up (suc ket) (tell (on_content (take (suc ket) text)) p)
        some (goes_on q)
      | some zero ↦
          if ltb (length p.buffer) 3
          then some (waits p)
          else if (byte_at 1 p.buffer == b']') && (byte_at 2 p.buffer == b'>')
          then (do q ← use_up 3 p; some (goes_on (enter content q)))
          else (do q ← use_up 1 (tell (on_content (codes "]")) p); some (goes_on q))
    ]

abbrev pub cdata_start : Bytes
cdata_start = codes "![CDATA["

-- The state behind the name of a tag, by the byte that ends it.
abbrev pub after_tag : Bool → Bytes → ℕ → Sax → Sax
after_tag true name c p =
    enter (if c == b'>' then content else seek_gt) (tell (on_end (drop 1 name)) p)
after_tag false name c p =
    let q = record (tell (on_begin name) p) { tagname = name } in
    if c == b'/'
    then enter seek_gt (tell (on_end name) q)
    else enter (if c == b'>' then content else in_tag) q

unfoldable pub parse_tag : Sax → Option Turn
unfolding c_str same_text strcspn use_up
parse_tag p =
    if same_text (take (length cdata_start) p.buffer) (take (length p.buffer) cdata_start)
    then (if ltb (length p.buffer) (length cdata_start)
        then some (waits p)
        else (do q ← use_up (length cdata_start) p; some (goes_on (enter cdata q))))
    else let end = byte_at 0 p.buffer == b'/' in
      let skip = if end then 1 else 0 in
      let taglen = strcspn (drop skip (c_str p.buffer)) (blanks ++ codes "/>") + skip in
      if (taglen == length p.buffer) && can_wait p then some (waits p) else (do
        q ← use_up (taglen + 1) (after_tag end (take taglen p.buffer) (byte_at taglen p.buffer) p)
        some (goes_on q))

unfoldable pub parse_seek_gt : Sax → Option Turn
unfolding c_str index_of use_up
parse_seek_gt p = elim (index_of b'>' (c_str p.buffer)) [
  | none ↦ some (if can_wait p then waits p else goes_on (record p { buffer = [] }))
  | some gt ↦ do q ← use_up (gt + 1) p; some (goes_on (enter content q))
]

-- A state that passes over blanks: `next` gets their number.
unfoldable pub past_blanks : (ℕ → Option Turn) → Sax → Option Turn
unfolding c_str strspn
past_blanks next p =
    if strspn (c_str p.buffer) blanks == length p.buffer
    then some (goes_on (record p { buffer = [] }))
    else next (strspn (c_str p.buffer) blanks)

unfoldable pub in_tag_at : Sax → ℕ → Option Turn
unfolding use_up
in_tag_at p skip =
    if byte_at skip p.buffer == b'>'
    then (do q ← use_up skip p; some (goes_on (enter seek_gt q)))
    else if byte_at skip p.buffer == b'/'
    then (do q ← use_up (skip + 1) (tell (on_end p.tagname) p); some (goes_on q))
    else (do q ← use_up skip p; some (goes_on (enter in_attr q)))

unfoldable pub parse_in_tag : Sax → Option Turn
unfolding past_blanks in_tag_at
parse_in_tag p = past_blanks (in_tag_at p) p

-- The state behind the name of an attribute, by the byte that ends it.
abbrev pub after_attr : Bytes → ℕ → Sax → Sax
after_attr name c p =
    let q = record p { attrname = name } in
    if c == b'='
    then enter attr_seekvalue q
    else if c == b'>'
    then enter content (tell (on_attribute name []) q)
    else if c == b'/'
    then enter seek_gt (tell (on_end p.tagname) (tell (on_attribute name []) q))
    else enter attr_seekeq q

unfoldable pub parse_in_attr : Sax → Option Turn
unfolding c_str strcspn use_up
parse_in_attr p =
    let attrlen = strcspn (c_str p.buffer) (blanks ++ codes "=/>") in
    if (attrlen == length p.buffer) && can_wait p then some (waits p) else (do
      q ← use_up (attrlen + 1) (after_attr (take attrlen p.buffer) (byte_at attrlen p.buffer) p)
      some (goes_on q))

unfoldable pub attr_seekeq_at : Sax → ℕ → Option Turn
unfolding use_up
attr_seekeq_at p skip =
    if byte_at skip p.buffer == b'='
    then (do q ← use_up (skip + 1) p; some (goes_on (enter attr_seekvalue q)))
    else (do q ← use_up skip (tell (on_attribute p.attrname []) p); some (goes_on (enter in_tag q)))

unfoldable pub parse_attr_seekeq : Sax → Option Turn
unfolding past_blanks attr_seekeq_at
parse_attr_seekeq p = past_blanks (attr_seekeq_at p) p

unfoldable pub attr_seekvalue_at : Sax → ℕ → Option Turn
unfolding use_up
attr_seekvalue_at p skip =
    if byte_at skip p.buffer == b'"'
    then (do q ← use_up (skip + 1) p; some (goes_on (enter in_quotedvalue q)))
    else (do q ← use_up skip p; some (goes_on (enter in_value q)))

unfoldable pub parse_attr_seekvalue : Sax → Option Turn
unfolding past_blanks attr_seekvalue_at
parse_attr_seekvalue p = past_blanks (attr_seekvalue_at p) p

unfoldable pub parse_in_quotedvalue : Sax → Option Turn
unfolding c_str index_of use_up
parse_in_quotedvalue p = elim (index_of b'"' (c_str p.buffer)) [
  | none ↦ some (if can_wait p then waits p else goes_on (record p { buffer = [] }))
  | some quote ↦ do
    value ← xml_unescape (take quote p.buffer)
    q ← use_up (quote + 1) (tell (on_attribute p.attrname value) p)
    some (goes_on (enter in_tag q))
]

unfoldable pub parse_in_value : Sax → Option Turn
unfolding c_str strcspn use_up
parse_in_value p =
    let valuelen = strcspn (c_str p.buffer) (blanks ++ codes "/>") in
    if (valuelen == length p.buffer) && can_wait p then some (waits p) else (do
      value ← xml_unescape (take valuelen p.buffer)
      q ← use_up valuelen (tell (on_attribute p.attrname value) p)
      some (goes_on (enter in_tag q)))

-- One turn of the loop, in a state.
unfoldable pub turn : State → Sax → Option Turn
unfolding parse_content parse_cdata parse_tag parse_seek_gt parse_in_tag parse_in_attr
    parse_attr_seekeq parse_attr_seekvalue parse_in_quotedvalue parse_in_value
turn content p = parse_content p
turn cdata p = parse_cdata p
turn tag p = parse_tag p
turn seek_gt p = parse_seek_gt p
turn in_tag p = parse_in_tag p
turn in_attr p = parse_in_attr p
turn attr_seekeq p = parse_attr_seekeq p
turn attr_seekvalue p = parse_attr_seekvalue p
turn in_quotedvalue p = parse_in_quotedvalue p
turn in_value p = parse_in_value p

-- `Parse()`: turns while anything is buffered. `none` is a read past the buffer, or a loop out of rounds.
unfoldable pub parse : ℕ → Sax → Option Sax
unfolding turn
parse zero p = none
parse (suc n) p = elim p.buffer [
  | [] ↦ some p
  | c ∷ rest ↦ do t ← turn p.state p; elim t [ goes_on q ↦ parse n q | waits q ↦ some q ]
]

-- The first rounds of the loop, as many as the first argument says: where it stands after them, or that it waits. `none` is
-- a read past the buffer.
unfoldable pub turns : ℕ → Sax → Option Turn
unfolding turn
turns zero p = some (goes_on p)
turns (suc n) p = do t ← turn p.state p; elim t [ goes_on q ↦ turns n q | waits q ↦ some (waits q) ]

-- `WriteAll`: the first argument counts the rounds. A round of `Parse` takes at most eight turns for each byte.
unfoldable pub sax_write_all : ℕ → Bytes → Sax → Option Sax
unfolding parse
sax_write_all zero buffer p = none
sax_write_all (suc n) [] p = some p
sax_write_all (suc n) (c ∷ s) p = do
  q ←
      parse (8 * bufsize + 5)
        (record p { buffer = p.buffer ++ take (bufsize - length p.buffer) (c ∷ s) })
  sax_write_all n (drop (bufsize - length p.buffer) (c ∷ s)) q

-- `SaxParser`'s constructor.
abbrev pub new_sax : Sax
new_sax = record {
  buffer = [];
  eof = false;
  state = content;
  tagname = [];
  attrname = [];
  events = [];
}
