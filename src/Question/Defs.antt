-- ===== src/Question/Defs.antt =====
-- The struct `Question` with its types and classes, its parser, and the body of the loop of `to_bytes`
-- that writes one. `QueryType` and `QueryClass` keep the source's variants with a prefix.
use Prim.Native.Nat.{bit_and, bit_or}
use ddns.Prelude.{ℕ, Bool, List, Option, none, some, ◌==◌, if◌then◌else◌}
use ddns.Bytes.{ByteIo, IResult, ok, err, error, alt, ◌>>=◌}
use ddns.Name.{Name, NameCompression, be_name, put_name}

pub data QueryType : Type 0 where
  query_a query_aaaa query_cname query_txt query_srv query_ptr : QueryType
  query_e query_e6 query_ee query_ee6 : QueryType

pub data QueryClass : Type 0 where
  query_in query_cs query_ch query_hs query_any : QueryClass

pub record Question : Type 0 where
  pub name : Name
  pub prefer_unicast : Bool
  pub qtype : QueryType
  pub qclass : QueryClass

unfoldable pub query_type_of_u16 : ℕ → Option QueryType
query_type_of_u16 value =
    if value == 1
    then some query_a
    else if value == 28
    then some query_aaaa
    else if value == 5
    then some query_cname
    else if value == 16
    then some query_txt
    else if value == 33
    then some query_srv
    else if value == 12
    then some query_ptr
    else if value == 266
    then some query_e
    else if value == 267
    then some query_e6
    else if value == 268
    then some query_ee
    else if value == 269
    then some query_ee6
    else none

unfoldable pub query_type_to_u16 : QueryType → ℕ
query_type_to_u16 query_a = 1
query_type_to_u16 query_aaaa = 28
query_type_to_u16 query_cname = 5
query_type_to_u16 query_txt = 16
query_type_to_u16 query_srv = 33
query_type_to_u16 query_ptr = 12
query_type_to_u16 query_e = 266
query_type_to_u16 query_e6 = 267
query_type_to_u16 query_ee = 268
query_type_to_u16 query_ee6 = 269

unfoldable pub query_class_to_u16 : QueryClass → ℕ
query_class_to_u16 query_in = 1
query_class_to_u16 query_cs = 2
query_class_to_u16 query_ch = 3
query_class_to_u16 query_hs = 4
query_class_to_u16 query_any = 255

unfoldable pub query_class_of_u16 : ℕ → Option QueryClass
query_class_of_u16 value =
    if value == 1
    then some query_in
    else if value == 2
    then some query_cs
    else if value == 3
    then some query_ch
    else if value == 4
    then some query_hs
    else if value == 255
    then some query_any
    else none

-- The highest bit of a class word.
abbrev pub class_word : Bool → ℕ → ℕ
class_word flag class = if flag then bit_or class 0x8000 else class

-- The tests of `be_question` on the two words that it has read, and the question.
unfoldable pub question_of : List ℕ → Name → ℕ → ℕ → IResult Question
question_of remain name qtype qclass = elim (query_type_of_u16 qtype) [
  | none ↦ err (error remain alt)
  | some qtype ↦ elim (query_class_of_u16 (bit_and qclass 0x7fff)) [
    | none ↦ err (error remain alt)
    | some class ↦ ok (
      remain,
      record {
        name = name;
        prefer_unicast = bit_and qclass 0x8000 == 0x8000;
        qtype = qtype;
        qclass = class;
      },
    )
  ]
]

module _ (io : ByteIo) where
  unfoldable pub be_question : List ℕ → List ℕ → IResult Question
  be_question input origin = do
    (remain, name) ← be_name io input origin
    (remain, qtype) ← io.be_u16 remain
    (remain, qclass) ← io.be_u16 remain
    question_of remain name qtype qclass

  unfoldable pub put_question : List ℕ → Question → NameCompression → List ℕ × NameCompression
  put_question buf question ctx =
      let (buf, ctx, _) = put_name io buf question.name ctx in
      let buf = io.put_u16 buf (query_type_to_u16 question.qtype) in
      let class = class_word question.prefer_unicast (query_class_to_u16 question.qclass) in
      (io.put_u16 buf class, ctx)
