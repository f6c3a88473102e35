-- ===== src/Header/RoundTrip.antt =====
-- `put_header` against `be_header`, in both directions, and on input that is too short.
use ddns.Prelude.{ℕ, ◌≡◌, refl, List, ◌++◌, append_assoc, length}
use ddns.Bytes.{ByteIo, IsByteIo, ok, be_bytes, read_be-be_bytes}
use ddns.Bytes.Standard.{standard, of_standard}
use ddns.Header.FlagBits.{flags_to_bits, flags_of_bits-flags_to_bits}
use ddns.Header.Defs.{Header, IsHeader, be_header, put_header}

-- The six words of a header, in order.
unfoldable pub wire : Header → List ℕ
wire h =
    be_bytes 2 h.id
    ++ (be_bytes 2 (flags_to_bits h.flags)
        ++ (be_bytes 2 h.questions_count
            ++ (be_bytes 2 h.answers_count
                ++ (be_bytes 2 h.nameservers_count ++ be_bytes 2 h.additional_count))))

pub put_header-standard : (buf : List ℕ) (h : Header) → put_header standard buf h ≡ buf ++ wire h
unfolding put_header wire
put_header-standard buf h = simp append_assoc

pub be_header-wire :
    (h : Header) (rest : List ℕ) → IsHeader h → be_header standard (wire h ++ rest) ≡ ok (rest, h)
unfolding be_header wire
be_header-wire h rest valid =
    let (small, back) = flags_of_bits-flags_to_bits h.flags valid.flags_fit in
    simp append_assoc (
      rw (
        read_be-be_bytes 2 h.id _ valid.id_fits,
        read_be-be_bytes 2 (flags_to_bits h.flags) _ small,
        read_be-be_bytes 2 h.questions_count _ valid.questions_fit,
        read_be-be_bytes 2 h.answers_count _ valid.answers_fit,
        read_be-be_bytes 2 h.nameservers_count _ valid.nameservers_fit,
        read_be-be_bytes 2 h.additional_count _ valid.additional_fit,
        back,
      ))

pub length-wire : (h : Header) → length (wire h) ≡ 12
unfolding wire be_bytes
length-wire h = refl

abbrev Statement : List ℕ → List ℕ → Header → ByteIo → Type 0
Statement buf rest h io =
    (bs : List ℕ) × (put_header io buf h ≡ buf ++ bs)
    × (length bs ≡ 12)
    × (be_header io (bs ++ rest) ≡ ok (rest, h))

-- Through every byte interface that keeps its laws, `put_header` appends twelve bytes for a header
-- whose counts are 16-bit numbers and whose codes are what their enums can hold, and `be_header`
-- reads the same header back from them and leaves what follows.
pub be_header-put_header :
    (io : ByteIo)
    → IsByteIo io
    → (h : Header) (buf rest : List ℕ) → IsHeader h
    → (bs : List ℕ) × (put_header io buf h ≡ buf ++ bs)
      × (length bs ≡ 12)
      × (be_header io (bs ++ rest) ≡ ok (rest, h))
be_header-put_header io laws h buf rest valid =
    of_standard (Statement buf rest h) laws
      (wire h, put_header-standard buf h, length-wire h, be_header-wire h rest valid)
