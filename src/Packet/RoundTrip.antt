-- ===== src/Packet/RoundTrip.antt =====
-- `to_bytes` against `be_packet`.
use ddns.Prelude.{ℕ, ◌+◌, ◌*◌, ◌≤◌, ◌≡◌, arith, List, [], ◌++◌, All}
use ddns.Prelude.{append_assoc, append-nil, length, length-append, Option, some}
use ddns.Bytes.{ByteIo, IsByteIo, ok}
use ddns.Bytes.Standard.{standard, of_standard}
use ddns.Name.{NameCompression}
use ddns.Name.Table.{IsTable, IsTable-nil}
use ddns.Header.RoundTrip.{wire, put_header-standard, be_header-wire}
use ddns.Question.Defs.{be_question}
use ddns.Question.RoundTrip.{question_bytes}
use ddns.Record.Defs.{ResourceRecord, be_record}
use ddns.Record.RoundTrip.{IsRecord, record_bytes}
use ddns.Packet.Defs.{Packet, then_records, parse, to_bytes, be_packet}
use ddns.Packet.Section.{section_bytes, SectionReads, section_bytes-SectionReads}
use ddns.Packet.Sections.{
  question-Reads, record-Reads, put_questions-bytes, put_records-bytes, IsPacket, All-map,
  counts_enough,
}

module _ (try_sequence : ℕ → Option ℕ) (p : Packet) (valid : IsPacket try_sequence p) where
  head : List ℕ
  head = wire p.header

  questions : List ℕ × NameCompression
  questions = section_bytes question_bytes (length head) p.questions []

  -- A section of records behind a buffer.
  records : List ℕ → List ResourceRecord → NameCompression → List ℕ × NameCompression
  records buf rs ctx = section_bytes record_bytes (length buf) rs ctx

  answers : List ℕ × NameCompression
  answers = records (head ++ questions.0) p.answers questions.1

  nameservers : List ℕ × NameCompression
  nameservers = records (head ++ questions.0 ++ answers.0) p.nameservers answers.1

  additional : List ℕ × NameCompression
  additional =
      records (head ++ questions.0 ++ answers.0 ++ nameservers.0) p.additional nameservers.1

  questions_read : SectionReads (be_question standard) question_bytes 5 head p.questions questions
  unfolding questions
  questions_read =
      section_bytes-SectionReads (be_question standard) question_bytes 5 head p.questions []
        (All-map question-Reads p.questions valid.questions_named) (IsTable-nil head)

  records_read :
      (buf : List ℕ) (rs : List ResourceRecord) (ctx : NameCompression)
      → All (IsRecord try_sequence) rs
      → IsTable buf ctx
      → SectionReads (be_record standard try_sequence) record_bytes 11 buf rs (records buf rs ctx)
  unfolding records
  records_read buf rs ctx h table =
      section_bytes-SectionReads (be_record standard try_sequence) record_bytes 11 buf rs ctx
        (All-map (record-Reads try_sequence) rs h) table

  answers_read :
      SectionReads
        (be_record standard try_sequence)
        record_bytes
        11
        (head ++ questions.0)
        p.answers
        answers
  unfolding answers
  answers_read = records_read _ p.answers _ valid.answers_fit questions_read.true_table

  nameservers_read :
      SectionReads
        (be_record standard try_sequence)
        record_bytes
        11
        (head ++ questions.0 ++ answers.0)
        p.nameservers
        nameservers
  unfolding nameservers
  nameservers_read = records_read _ p.nameservers _ valid.nameservers_fit answers_read.true_table

  additional_read :
      SectionReads
        (be_record standard try_sequence)
        record_bytes
        11
        (head ++ questions.0 ++ answers.0 ++ nameservers.0)
        p.additional
        additional
  unfolding additional
  additional_read = records_read _ p.additional _ valid.additional_fit nameservers_read.true_table

  body : List ℕ
  body = questions.0 ++ (answers.0 ++ (nameservers.0 ++ additional.0))

  body_size :
      p.header.questions_count * 5
        + (p.header.answers_count * 11
            + (p.header.nameservers_count * 11 + p.header.additional_count * 11))
      ≤ length body
  unfolding body
  body_size =
      rw
        (
          valid.questions_counted, valid.answers_counted, valid.nameservers_counted,
          valid.additional_counted,
        )
        (omega (
          arith,
          length-append questions.0 (answers.0 ++ (nameservers.0 ++ additional.0)),
          length-append answers.0 (nameservers.0 ++ additional.0),
          length-append nameservers.0 additional.0,
          questions_read.size,
          answers_read.size,
          nameservers_read.size,
          additional_read.size,
        ))

  to_bytes-standard : to_bytes standard p ≡ some (head ++ body)
  unfolding to_bytes then_records head body questions answers nameservers additional records
  to_bytes-standard =
      rw
        (
          to_bytes,
          put_header-standard [] p.header,
          put_questions-bytes (wire p.header) p.questions [],
          put_records-bytes try_sequence (head ++ questions.0) p.answers questions.1
              valid.answers_fit questions_read.true_table,
          put_records-bytes try_sequence (head ++ questions.0 ++ answers.0) p.nameservers answers.1
              valid.nameservers_fit answers_read.true_table,
          put_records-bytes try_sequence (head ++ questions.0 ++ answers.0 ++ nameservers.0)
              p.additional nameservers.1 valid.additional_fit nameservers_read.true_table,
        )
        (simp append_assoc)

  questions_parse :
      parse (be_question standard) p.header.questions_count body (head ++ body)
      ≡ (answers.0 ++ (nameservers.0 ++ additional.0), p.questions)
  unfolding body
  questions_parse = rw valid.questions_counted (questions_read.reads _ _)

  answers_parse :
      parse
        (be_record standard try_sequence)
        p.header.answers_count
        (answers.0 ++ (nameservers.0 ++ additional.0))
        (head ++ body)
      ≡ (nameservers.0 ++ additional.0, p.answers)
  unfolding body
  answers_parse =
      let read =
        answers_read.reads (nameservers.0 ++ additional.0) (nameservers.0 ++ additional.0) in
      rw valid.answers_counted (simp append_assoc at read)

  nameservers_parse :
      parse
        (be_record standard try_sequence)
        p.header.nameservers_count
        (nameservers.0 ++ additional.0)
        (head ++ body)
      ≡ (additional.0, p.nameservers)
  unfolding body
  nameservers_parse =
      let read = nameservers_read.reads additional.0 additional.0 in
      rw valid.nameservers_counted (simp append_assoc at read)

  additional_parse :
      parse (be_record standard try_sequence) p.header.additional_count additional.0 (head ++ body)
      ≡ ([], p.additional)
  unfolding body
  additional_parse =
      let read = additional_read.reads [] [] in
      rw valid.additional_counted (simp (append_assoc, append-nil) at read)

  be_packet-standard : be_packet standard try_sequence (head ++ body) ≡ ok ([], p)
  unfolding be_packet head
  be_packet-standard = rw (
    be_header-wire p.header body valid.header_fits,
    counts_enough p.header body valid.header_fits body_size,
    questions_parse,
    answers_parse,
    nameservers_parse,
    additional_parse,
  )

-- Through every byte interface that keeps its laws, `to_bytes` writes a message and `be_packet` reads the
-- same message from all of those bytes. The header counts what the sections hold, the names can be
-- written, the numbers fit their types, and the data of each record are of its type and fit the 16
-- bits of their length. In E records
-- the flow info and the scope of IPv6 addresses are 0.
pub be_packet-to_bytes :
    (io : ByteIo)
    → IsByteIo io
    → (try_sequence : ℕ → Option ℕ) (p : Packet) → IsPacket try_sequence p
    → (bs : List ℕ) × (to_bytes io p ≡ some bs) × (be_packet io try_sequence bs ≡ ok ([], p))
be_packet-to_bytes io laws try_sequence p valid =
    of_standard
      (λ io.
        (bs : List ℕ) × (to_bytes io p ≡ some bs) × (be_packet io try_sequence bs ≡ ok ([], p)))
      laws
      (
        head try_sequence p valid ++ body try_sequence p valid,
        to_bytes-standard try_sequence p valid,
        be_packet-standard try_sequence p valid,
      )
