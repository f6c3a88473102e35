-- ===== src/Packet/Sections.antt =====
-- What makes a message well formed, and the sections of such a message one by one.
use ddns.Prelude.{ℕ, ◌+◌, ◌*◌, ◌≤◌, ◌≡◌, arith, List, [], ◌∷◌, ◌++◌, All}
use ddns.Prelude.{append_assoc, append-nil, length, length-append, Option, some}
use ddns.Bytes.{ok}
use ddns.Bytes.Standard.{standard}
use ddns.Name.{NameCompression}
use ddns.Name.Text.{IsName}
use ddns.Name.Table.{IsTable}
use ddns.Header.{Header, IsHeader}
use ddns.Question.Defs.{Question, be_question}
use ddns.Question.RoundTrip.{
  question_bytes, put_question-bytes, be_question-bytes, question_bytes-IsTable,
  question_bytes_size,
}
use ddns.Record.Defs.{ResourceRecord, be_record}
use ddns.Record.RoundTrip.{
  IsRecord, record_bytes, put_record-bytes, be_record-bytes, record_bytes-IsTable,
  record_bytes_size,
}
use ddns.Packet.Defs.{Packet, put_questions, put_records, validate_section_counts, minimum_wire_len}
use ddns.Packet.Section.{section_bytes, Reads}

pub question-Reads :
    (q : Question) → IsName q.name → Reads (be_question standard) question_bytes 5 q
question-Reads q named = record {
  size = λ buf ctx table. question_bytes_size buf q ctx named table;
  true_table = λ buf ctx table. question_bytes-IsTable buf q ctx named table;
  reads = λ buf ctx table. be_question-bytes buf q ctx named table;
}

pub record-Reads :
    (try_sequence : ℕ → Option ℕ) (r : ResourceRecord)
    → IsRecord try_sequence r
    → Reads (be_record standard try_sequence) record_bytes 11 r
record-Reads try_sequence r valid = record {
  size = λ buf ctx table. record_bytes_size buf r ctx valid table;
  true_table = λ buf ctx table. record_bytes-IsTable buf r ctx valid table;
  reads = λ buf ctx table. be_record-bytes buf r ctx valid table;
}

pub put_questions-bytes :
    (buf : List ℕ) (qs : List Question) (ctx : NameCompression)
    → put_questions standard buf qs ctx ≡ (
        let (bytes, table) = section_bytes question_bytes (length buf) qs ctx in
        (buf ++ bytes, table))
unfolding put_questions section_bytes
put_questions-bytes buf [] ctx = rw (append-nil buf)
put_questions-bytes buf (q ∷ qs) ctx =
    let bytes = (question_bytes (length buf) q ctx).0 in
    rw
      (
        put_questions,
        put_question-bytes buf q ctx,
        put_questions-bytes (buf ++ bytes) qs (question_bytes (length buf) q ctx).1,
        length-append buf bytes,
      )
      (simp append_assoc)

module _ (try_sequence : ℕ → Option ℕ) where
  pub put_records-bytes :
      (buf : List ℕ) (rs : List ResourceRecord) (ctx : NameCompression)
      → All (IsRecord try_sequence) rs
      → IsTable buf ctx
      → put_records standard buf rs ctx ≡ (
          let (bytes, table) = section_bytes record_bytes (length buf) rs ctx in
          some (buf ++ bytes, table))
  unfolding put_records section_bytes
  put_records-bytes buf [] ctx h table = rw (append-nil buf)
  put_records-bytes buf (r ∷ rs) ctx (h, hs) table =
      let bytes = (record_bytes (length buf) r ctx).0 in
      rw
        (
          put_records,
          put_record-bytes buf r ctx h table,
          put_records-bytes (buf ++ bytes) rs (record_bytes (length buf) r ctx).1 hs
              (record_bytes-IsTable buf r ctx h table),
          length-append buf bytes,
        )
        (simp append_assoc)

-- A message whose header fits and counts what is there, and whose questions and records can be written.
pub record IsPacket (try_sequence : ℕ → Option ℕ) (p : Packet) : Type 0 where
  pub header_fits : IsHeader p.header
  pub questions_counted : p.header.questions_count ≡ length p.questions
  pub answers_counted : p.header.answers_count ≡ length p.answers
  pub nameservers_counted : p.header.nameservers_count ≡ length p.nameservers
  pub additional_counted : p.header.additional_count ≡ length p.additional
  pub questions_named : All (λ q. IsName q.name) p.questions
  pub answers_fit : All (IsRecord try_sequence) p.answers
  pub nameservers_fit : All (IsRecord try_sequence) p.nameservers
  pub additional_fit : All (IsRecord try_sequence) p.additional

pub All-map :
    {T : Type 0} {P Q : T → Type 0} → ((x : T) → P x → Q x) → (xs : List T) → All P xs → All Q xs
All-map f [] h = tt
All-map f (x ∷ xs) (h, hs) = (f x h, All-map f xs hs)

pub counts_enough :
    (h : Header) (input : List ℕ)
    → IsHeader h
    → h.questions_count * 5
        + (h.answers_count * 11 + (h.nameservers_count * 11 + h.additional_count * 11))
      ≤ length input
    → validate_section_counts input h ≡ ok (input, tt)
unfolding validate_section_counts minimum_wire_len
counts_enough h input valid enough =
    let a = valid.questions_fit in
    let b = valid.answers_fit in
    let c = valid.nameservers_fit in let d = valid.additional_fit in ground arith
