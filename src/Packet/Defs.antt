-- ===== src/Packet/Defs.antt =====
-- The struct `Packet` with its constructors, `to_bytes`, `be_packet`, `validate_section_counts` and the
-- loop `parse`. A `usize` has 64 bits; a `+=` on a count keeps 16. The hosts of an answer are taken in
-- the order in which the map is iterated. A `none` of the printer is the panic of `put_varint`.
use ddns.Prelude.{ℕ, zero, suc, ◌+◌, ◌*◌, ◌%◌, ◌^◌, Bool, List, [], ◌∷◌, ◌++◌}
use ddns.Prelude.{Option, none, some, length, ltb, if◌then◌else◌}
use ddns.Bytes.{ByteIo, IResult, ok, err, error, failure, verify, ◌>>=◌}
use ddns.Name.{Name, NameCompression}
use ddns.Header.{Header, header_default, be_header, put_header}
use ddns.Question.Defs.{Question, QueryType, QueryClass, be_question, put_question}
use ddns.Record.Defs.{ResourceRecord, be_record, put_record}

pub record Packet : Type 0 where
  pub header : Header
  pub questions : List Question
  pub answers : List ResourceRecord
  pub nameservers : List ResourceRecord
  pub additional : List ResourceRecord

-- `checked_mul` and `checked_add` on a `usize`.
abbrev pub checked : ℕ → Option ℕ
checked n = if ltb n (2 ^ 64) then some n else none

abbrev pub and_then : Option ℕ → (ℕ → Option ℕ) → Option ℕ
and_then none f = none
and_then (some n) f = f n

abbrev pub min_question_wire_len : ℕ
min_question_wire_len = 5

abbrev pub min_resource_record_wire_len : ℕ
min_resource_record_wire_len = 11

unfoldable pub minimum_wire_len : Header → Option ℕ
minimum_wire_len header =
    let question_bytes = checked (header.questions_count * min_question_wire_len) in
    let record_count =
      and_then (checked (header.answers_count + header.nameservers_count))
        (λ count. checked (count + header.additional_count)) in
    and_then question_bytes (λ question_bytes.
      and_then (and_then record_count (λ count. checked (count * min_resource_record_wire_len)))
        (λ record_bytes. checked (question_bytes + record_bytes)))

unfoldable pub validate_section_counts : List ℕ → Header → IResult {0} Unit
validate_section_counts input header = elim (minimum_wire_len header) [
  | none ↦ err (failure input verify)
  | some least ↦ if ltb (length input) least then err (failure input verify) else ok (input, tt)
]

-- `parse`: an `Error` is skipped from where it was raised, and anything else ends the section.
unfoldable pub parse :
    {T : Type 0} → (List ℕ → List ℕ → IResult T) → ℕ → List ℕ → List ℕ → List ℕ × List T
parse parser zero input original = (input, [])
parse parser (suc count) input original = elim (parser input original) [
  | ok (new_input, item) ↦
      let (rest, items) = parse parser count new_input original in (rest, item ∷ items)
  | err (error remaining _) ↦ parse parser count remaining original
  | err _ ↦ (input, [])
]

module _ (io : ByteIo) where
  unfoldable pub be_packet : (ℕ → Option ℕ) → List ℕ → IResult Packet
  be_packet try_sequence input = do
    (remain, header) ← be_header io input
    (remain, _) ← validate_section_counts remain header
    let (remain, questions) = parse (be_question io) header.questions_count remain input
    let (remain, answers) = parse (be_record io try_sequence) header.answers_count remain input
    let (remain, nameservers) =
        parse (be_record io try_sequence) header.nameservers_count remain input
    let (remain, additional) =
        parse (be_record io try_sequence) header.additional_count remain input
    ok (
      remain,
      record {
        header = header;
        questions = questions;
        answers = answers;
        nameservers = nameservers;
        additional = additional;
      },
    )

  unfoldable pub put_questions : List ℕ → List Question → NameCompression → List ℕ × NameCompression
  put_questions buf [] ctx = (buf, ctx)
  put_questions buf (question ∷ questions) ctx =
      let (buf, ctx) = put_question io buf question ctx in put_questions buf questions ctx

  unfoldable pub put_records :
      List ℕ → List ResourceRecord → NameCompression → Option (List ℕ × NameCompression)
  put_records buf [] ctx = some (buf, ctx)
  put_records buf (r ∷ records) ctx = elim (put_record io buf r ctx) [
    | none ↦ none
    | some (buf, ctx) ↦ put_records buf records ctx
  ]

  -- One section behind another.
  unfoldable pub then_records :
      Option (List ℕ × NameCompression) → List ResourceRecord → Option (List ℕ × NameCompression)
  then_records none records = none
  then_records (some (buf, ctx)) records = put_records buf records ctx

  unfoldable pub to_bytes : Packet → Option (List ℕ)
  to_bytes packet =
      let buf = put_header io [] packet.header in
      let (buf, ctx) = put_questions buf packet.questions [] in
      let answers = put_records buf packet.answers ctx in
      let nameservers = then_records answers packet.nameservers in
      elim (then_records nameservers packet.additional) [ none ↦ none | some (buf, ctx) ↦ some buf ]

unfoldable pub packet_default : Packet
packet_default = record {
  header = header_default;
  questions = [];
  answers = [];
  nameservers = [];
  additional = [];
}

unfoldable pub add_question : Packet → Name → QueryType → QueryClass → Bool → Packet
add_question packet qname qtype qclass prefer_unicast =
    let question : Question = record {
      name = qname;
      prefer_unicast = prefer_unicast;
      qtype = qtype;
      qclass = qclass;
    } in
    record packet {
      header = record (packet.header) {
        questions_count = (packet.header.questions_count + 1) % 2 ^ 16;
      };
      questions = packet.questions ++ (question ∷ []);
    }
