-- ===== src/Question/RoundTrip.antt =====
-- What `put_question` appends, and that `be_question` reads the question back from it.
use Prim.Native.Nat.{bit_and}
use ddns.Prelude.{ℕ, ◌<◌, ◌≤◌, ◌^◌, ◌≡◌, refl, arith, Bool, true, false, some, ◌==◌}
use ddns.Prelude.{List, ◌++◌, append_assoc, length, length-append}
use ddns.Bytes.{ok, be_bytes, length-be_bytes, read_be-be_bytes}
use ddns.Bytes.Standard.{standard}
use ddns.Name.{NameCompression}
use ddns.Name.Text.{IsName}
use ddns.Name.Table.{IsTable, IsTable-append}
use ddns.Name.Pure.{name_bytes, put_name-bytes, name_bytes-NameReads}
use ddns.Question.Defs.{
  QueryType, query_a, query_aaaa, query_cname, query_txt, query_srv, query_ptr, query_e, query_e6,
  query_ee, query_ee6, QueryClass, query_in, query_cs, query_ch, query_hs, query_any, Question,
  query_type_of_u16, query_type_to_u16, query_class_of_u16, query_class_to_u16, class_word,
  question_of, be_question, put_question,
}

abbrev pub type_word : Question → ℕ
type_word q = query_type_to_u16 q.qtype

abbrev pub class_of : Question → ℕ
class_of q = class_word q.prefer_unicast (query_class_to_u16 q.qclass)

-- The bytes of a question behind `n` bytes, and the new table.
unfoldable pub question_bytes : ℕ → Question → NameCompression → List ℕ × NameCompression
question_bytes n q ctx =
    let (bytes, table) = name_bytes n q.name ctx in
    (bytes ++ (be_bytes 2 (type_word q) ++ be_bytes 2 (class_of q)), table)

pub put_question-bytes :
    (buf : List ℕ) (q : Question) (ctx : NameCompression)
    → put_question standard buf q ctx
      ≡ (let (bytes, table) = question_bytes (length buf) q ctx in (buf ++ bytes, table))
unfolding put_question question_bytes
put_question-bytes buf q ctx = rw (put_question, put_name-bytes buf q.name ctx) (simp append_assoc)

type_back :
    (t : QueryType)
    → (query_type_of_u16 (query_type_to_u16 t) ≡ some t) × (query_type_to_u16 t < 256 ^ 2)
unfolding query_type_of_u16 query_type_to_u16
type_back query_a = (refl, omega arith)
type_back query_aaaa = (refl, omega arith)
type_back query_cname = (refl, omega arith)
type_back query_txt = (refl, omega arith)
type_back query_srv = (refl, omega arith)
type_back query_ptr = (refl, omega arith)
type_back query_e = (refl, omega arith)
type_back query_e6 = (refl, omega arith)
type_back query_ee = (refl, omega arith)
type_back query_ee6 = (refl, omega arith)

-- The class and its flag come back from the word.
abbrev ClassBack : Bool → QueryClass → Type 0
ClassBack flag class =
    let word = class_word flag (query_class_to_u16 class) in
    (query_class_of_u16 (bit_and word 0x7fff) ≡ some class)
    × ((bit_and word 0x8000 == 0x8000) ≡ flag)
    × (word < 256 ^ 2)

class_back : (flag : Bool) (class : QueryClass) → ClassBack flag class
unfolding query_class_of_u16 query_class_to_u16
class_back true query_in = (refl, refl, omega arith)
class_back true query_cs = (refl, refl, omega arith)
class_back true query_ch = (refl, refl, omega arith)
class_back true query_hs = (refl, refl, omega arith)
class_back true query_any = (refl, refl, omega arith)
class_back false query_in = (refl, refl, omega arith)
class_back false query_cs = (refl, refl, omega arith)
class_back false query_ch = (refl, refl, omega arith)
class_back false query_hs = (refl, refl, omega arith)
class_back false query_any = (refl, refl, omega arith)

pub question_bytes-IsTable :
    (buf : List ℕ) (q : Question) (ctx : NameCompression)
    → IsName q.name
    → IsTable buf ctx
    → (let (bytes, table) = question_bytes (length buf) q ctx in IsTable (buf ++ bytes) table)
unfolding question_bytes
question_bytes-IsTable buf q ctx named true_of =
    let n = name_bytes-NameReads buf q.name ctx named true_of in
    rw (← append_assoc buf (name_bytes (length buf) q.name ctx).0 _)
      (IsTable-append _ _ n.true_table)

question_of-words :
    (q : Question) (remain : List ℕ)
    → question_of remain q.name (type_word q) (class_of q) ≡ ok (remain, q)
unfolding question_of
question_of-words q remain =
    let (class_reads, flag_reads, _) = class_back q.prefer_unicast q.qclass in
    rw (question_of, (type_back q.qtype).0, class_reads, flag_reads)

pub be_question-bytes :
    (buf : List ℕ) (q : Question) (ctx : NameCompression)
    → IsName q.name
    → IsTable buf ctx
    → (after more : List ℕ)
    → (let (bytes, table) = question_bytes (length buf) q ctx in
        be_question standard (bytes ++ after) (buf ++ (bytes ++ more)) ≡ ok (after, q))
unfolding question_bytes be_question
be_question-bytes buf q ctx named true_of after more =
    let n = name_bytes-NameReads buf q.name ctx named true_of in
    let (_, _, class_fits) = class_back q.prefer_unicast q.qclass in
    simp append_assoc (
      rw (
        n.reads _ _,
        read_be-be_bytes 2 (type_word q) _ (type_back q.qtype).1,
        read_be-be_bytes 2 (class_of q) after class_fits,
        question_of-words q after,
      ))

pub question_bytes_size :
    (buf : List ℕ) (q : Question) (ctx : NameCompression)
    → IsName q.name
    → IsTable buf ctx
    → 5 ≤ length (question_bytes (length buf) q ctx).0
unfolding question_bytes
question_bytes_size buf q ctx named true_of =
    let n = name_bytes-NameReads buf q.name ctx named true_of in
    let words = be_bytes 2 (type_word q) ++ be_bytes 2 (class_of q) in
    omega (
      arith,
      length-append (name_bytes (length buf) q.name ctx).0 words,
      length-append (be_bytes 2 (type_word q)) (be_bytes 2 (class_of q)),
      length-be_bytes 2 (type_word q),
      length-be_bytes 2 (class_of q),
      n.some_bytes,
    )
