-- ===== src/Sax/Examples.antt =====
-- The parser of XML on concrete inputs, and each theorem applied where its hypotheses hold.
use chorale.Base.{
  ◌<◌, length, ◌≡◌, refl, true, Option, none, some, List, [], ◌∷◌, codes, c_str, same_text,
  index_of, arith,
}
use chorale.Text.Xml.{xml_unescape, xml_unescape_from, entity_text}
use chorale.Sax.Parser.{
  Event, on_content, on_begin, on_attribute, on_end, tag, Sax, use_up, strcspn, strspn, last_index,
  parse_content, parse_cdata, parse_tag, parse_seek_gt, past_blanks, in_tag_at, parse_in_tag,
  parse_in_attr, attr_seekeq_at, parse_attr_seekeq, attr_seekvalue_at, parse_attr_seekvalue,
  parse_in_quotedvalue, parse_in_value, turn, turns, goes_on, parse, sax_write_all, new_sax,
}
use chorale.Sax.Progress.{rank}
use chorale.Sax.Ending.{parse-total, parse-endless}

abbrev told : Option Sax → List Event
told none = []
told (some p) = p.events

document_test :
    told (
      sax_write_all 2
        (codes "<wpl><foo name = wurdle><bar name = \"p&amp;g\"/></foo></wpl>")
        new_sax)
    ≡ on_begin (codes "wpl")
      ∷ on_begin (codes "foo")
      ∷ on_attribute (codes "name") (codes "wurdle")
      ∷ on_begin (codes "bar")
      ∷ on_attribute (codes "name") (codes "p&g")
      ∷ on_end (codes "bar")
      ∷ on_end (codes "foo")
      ∷ on_end (codes "wpl")
      ∷ []
unfolding sax_write_all parse turn parse_content parse_cdata parse_tag parse_seek_gt past_blanks
    in_tag_at parse_in_tag parse_in_attr attr_seekeq_at parse_attr_seekeq attr_seekvalue_at
    parse_attr_seekvalue parse_in_quotedvalue parse_in_value use_up strcspn strspn last_index c_str
    same_text index_of xml_unescape xml_unescape_from entity_text
document_test = refl

cdata_test :
    told (sax_write_all 2 (codes "<wpl><![CDATA[X&Y]]></wpl>") new_sax)
    ≡ on_begin (codes "wpl") ∷ on_content (codes "X&Y") ∷ on_end (codes "wpl") ∷ []
unfolding sax_write_all parse turn parse_content parse_cdata parse_tag parse_seek_gt past_blanks
    in_tag_at parse_in_tag parse_in_attr attr_seekeq_at parse_attr_seekeq attr_seekvalue_at
    parse_attr_seekvalue parse_in_quotedvalue parse_in_value use_up strcspn strspn last_index c_str
    same_text index_of xml_unescape xml_unescape_from entity_text
cdata_test = refl

-- An input that ends within the name of a tag: the buffer's length wraps below zero.
name_at_end_test : parse 9 (record new_sax { buffer = codes "foo"; eof = true; state = tag }) ≡ none
unfolding parse turn parse_content parse_cdata parse_tag parse_seek_gt past_blanks in_tag_at
    parse_in_tag parse_in_attr attr_seekeq_at parse_attr_seekeq attr_seekvalue_at
    parse_attr_seekvalue parse_in_quotedvalue parse_in_value use_up strcspn strspn last_index c_str
    same_text index_of xml_unescape xml_unescape_from entity_text
name_at_end_test = refl

abbrev half_tag : Sax
half_tag = record new_sax { buffer = codes "X<foo na" }

parse-total_example : (q : Sax) × (parse 65 half_tag ≡ some q)
unfolding rank
parse-total_example = parse-total 65 half_tag refl (omega arith) (omega arith)

abbrev half_entity : Sax
half_entity = record new_sax { buffer = codes "&amp"; eof = true }

parse-endless_example :
    (q : Sax) × (turns 1000 half_entity ≡ some (goes_on q))
    × (q.buffer ≡ half_entity.buffer)
    × (0 < length q.buffer)
    × (parse 1000 half_entity ≡ none)
unfolding index_of last_index c_str
parse-endless_example = parse-endless 1000 half_entity refl refl refl refl refl
