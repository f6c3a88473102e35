-- ===== src/Header/Defs.antt =====
-- The struct `Header`, its default, its parser and its printer.
use ddns.Prelude.{ℕ, ◌^◌, ◌<◌, List}
use ddns.Bytes.{ByteIo, IResult, ok, ◌>>=◌}
use ddns.Header.FlagBits.{Flags, IsFlags, flags_of_bits, flags_to_bits, flags_new}

pub record Header : Type 0 where
  pub id : ℕ
  pub flags : Flags
  pub questions_count : ℕ
  pub answers_count : ℕ
  pub nameservers_count : ℕ
  pub additional_count : ℕ

-- The counts are `u16` in the code, and the flags what a `u16` holds.
pub record IsHeader (h : Header) : Type 0 where
  pub id_fits : h.id < 2 ^ 16
  pub flags_fit : IsFlags h.flags
  pub questions_fit : h.questions_count < 2 ^ 16
  pub answers_fit : h.answers_count < 2 ^ 16
  pub nameservers_fit : h.nameservers_count < 2 ^ 16
  pub additional_fit : h.additional_count < 2 ^ 16

unfoldable pub header_default : Header
header_default = record {
  id = 0;
  flags = flags_new;
  questions_count = 0;
  answers_count = 0;
  nameservers_count = 0;
  additional_count = 0;
}

module _ (io : ByteIo) where
  unfoldable pub be_header : List ℕ → IResult Header
  be_header input = do
    (remain, id) ← io.be_u16 input
    (remain, bits) ← io.be_u16 remain
    let flags = flags_of_bits bits
    (remain, questions) ← io.be_u16 remain
    (remain, answers) ← io.be_u16 remain
    (remain, nameservers) ← io.be_u16 remain
    (remain, additional) ← io.be_u16 remain
    ok (
      remain,
      record {
        id = id;
        flags = flags;
        questions_count = questions;
        answers_count = answers;
        nameservers_count = nameservers;
        additional_count = additional;
      },
    )

  unfoldable pub put_header : List ℕ → Header → List ℕ
  put_header buf header =
      let buf = io.put_u16 buf header.id in
      let buf = io.put_u16 buf (flags_to_bits header.flags) in
      let buf = io.put_u16 buf header.questions_count in
      let buf = io.put_u16 buf header.answers_count in
      let buf = io.put_u16 buf header.nameservers_count in io.put_u16 buf header.additional_count
