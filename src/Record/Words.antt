-- ===== src/Record/Words.antt =====
-- The type and class words of a record, and the last tests of `be_record` on them.
use Prim.Native.Nat.{bit_and}
use ddns.Prelude.{ℕ, ◌<◌, ◌^◌, ◌≡◌, refl, arith, Bool, true, false}
use ddns.Prelude.{List, [], some, ◌==◌}
use ddns.Bytes.{ok}
use ddns.Question.Defs.{class_word}
use ddns.Record.Defs.{
  RecordType, type_a, type_ns, type_aaaa, type_cname, type_txt, type_srv, type_ptr, type_e, Class,
  class_in, class_cs, class_ch, class_hs, ResourceRecord, type_of_u16, type_to_u16, class_of_u16,
  class_to_u16, record_of,
}

abbrev pub type_word : ResourceRecord → ℕ
type_word r = type_to_u16 r.typ

abbrev pub class_of : ResourceRecord → ℕ
class_of r = class_word r.multicast_unique (class_to_u16 r.cls)

pub type_back :
    (t : RecordType) → (type_of_u16 (type_to_u16 t) ≡ some t) × (type_to_u16 t < 256 ^ 2)
unfolding type_of_u16 type_to_u16
type_back type_a = (refl, omega arith)
type_back type_ns = (refl, omega arith)
type_back type_aaaa = (refl, omega arith)
type_back type_cname = (refl, omega arith)
type_back type_txt = (refl, omega arith)
type_back type_srv = (refl, omega arith)
type_back type_ptr = (refl, omega arith)
type_back type_e = (refl, omega arith)

-- The class and its flag come back from the word.
abbrev pub ClassBack : Bool → Class → Type 0
ClassBack flag class =
    let word = class_word flag (class_to_u16 class) in
    (class_of_u16 (bit_and word 0x7fff) ≡ some class)
    × ((bit_and word 0x8000 == 0x8000) ≡ flag)
    × (word < 256 ^ 2)

pub class_back : (flag : Bool) (class : Class) → ClassBack flag class
unfolding class_of_u16 class_to_u16
class_back true class_in = (refl, refl, omega arith)
class_back true class_cs = (refl, refl, omega arith)
class_back true class_ch = (refl, refl, omega arith)
class_back true class_hs = (refl, refl, omega arith)
class_back false class_in = (refl, refl, omega arith)
class_back false class_cs = (refl, refl, omega arith)
class_back false class_ch = (refl, refl, omega arith)
class_back false class_hs = (refl, refl, omega arith)

pub record_of-words :
    (r : ResourceRecord) (remain : List ℕ) (rdlen : ℕ)
    → record_of remain [] r.name r.typ (class_of r) r.ttl rdlen r.rdata ≡ ok (remain, r)
unfolding record_of
record_of-words r remain rdlen =
    let (class_reads, flag_reads, _) = class_back r.multicast_unique r.cls in
    rw (record_of, class_reads, flag_reads)
