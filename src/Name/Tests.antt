-- ===== src/Name/Tests.antt =====
-- Runs of the name functions on the messages of the unit tests, and the theorems at concrete inputs.
use ddns.Prelude.{ℕ, ◌≡◌, ◌≢◌, refl, arith, List, [], ◌∷◌, ◌++◌, length}
use ddns.Bytes.{ok, err, error, verify, stuck, be_bytes, read_be, read_take}
use ddns.Bytes.Standard.{standard, standard-IsByteIo}
use ddns.Utf8.{from_utf8_lossy, scan, ascii-IsUtf8}
use ddns.Name.Defs.{
  Name, NameCompression, join, name_eq, get_suffix_offset, remember_suffix, strip_dot, split_dot,
  labels_of, suffixes_of, put_labels, put_name, be_name_labels, be_name,
}
use ddns.Name.Fuel.{be_name-ne-stuck}
use ddns.Name.Table.{IsTable, IsTable-nil}
use ddns.Name.Text.{display, IsName}
use ddns.Name.RoundTrip.{be_name-put_name}

abbrev net : Name
net = b'n' ∷ b'e' ∷ b't' ∷ []

abbrev www : Name
www = b'w' ∷ b'w' ∷ b'w' ∷ []

-- www.net
abbrev pub www_net : Name
www_net = b'w' ∷ b'w' ∷ b'w' ∷ b'.' ∷ b'n' ∷ b'e' ∷ b't' ∷ []

-- net at offset 0, then a pointer to it at 5, then www with a pointer to the pointer.
abbrev chained : List ℕ
chained = 3 ∷ b'n' ∷ b'e' ∷ b't' ∷ 0 ∷ 0xc0 ∷ 0 ∷ 3 ∷ b'w' ∷ b'w' ∷ b'w' ∷ 0xc0 ∷ 5 ∷ []

reads_chained : be_name standard (3 ∷ b'w' ∷ b'w' ∷ b'w' ∷ 0xc0 ∷ 5 ∷ []) chained ≡ ok ([], www_net)
unfolding be_name be_name_labels join read_be read_take from_utf8_lossy scan
reads_chained = refl

-- Two pointers to one another.
abbrev cycle : List ℕ
cycle = 0xc0 ∷ 2 ∷ 0xc0 ∷ 0 ∷ []

cycle_fails : be_name standard cycle cycle ≡ err (error cycle verify)
unfolding be_name be_name_labels read_be read_take
cycle_fails = refl

-- The second name ends with a pointer into the first.
writes_pointer :
    (let (buf, ctx, _) = put_name standard [] www_net [] in (put_name standard buf net ctx).0)
    ≡ 3 ∷ b'w' ∷ b'w' ∷ b'w' ∷ 3 ∷ b'n' ∷ b'e' ∷ b't' ∷ 0 ∷ 0xc0 ∷ 4 ∷ []
unfolding put_name put_labels name_eq strip_dot split_dot labels_of suffixes_of be_bytes
    remember_suffix get_suffix_offset
writes_pointer = refl

be_name-ne-stuck_example : be_name standard cycle cycle ≢ err stuck
be_name-ne-stuck_example = be_name-ne-stuck standard standard-IsByteIo cycle cycle

pub www_net-IsName : IsName www_net
unfolding display join
www_net-IsName = record {
  labels = www ∷ net ∷ [];
  each = (
    record {
      filled = omega arith;
      short = omega arith;
      dotless = refl;
      text = ascii-IsUtf8 www (omega arith);
    },
    (
      record {
        filled = omega arith;
        short = omega arith;
        dotless = refl;
        text = ascii-IsUtf8 net (omega arith);
      },
      tt,
    ),
  );
  shown = refl;
}

be_name-put_name_example :
    (bytes : List ℕ) × (table : NameCompression) × (put_name standard (1 ∷ 2 ∷ []) www_net []
      ≡ ((1 ∷ 2 ∷ []) ++ bytes, table, length bytes))
    × IsTable ((1 ∷ 2 ∷ []) ++ bytes) table
    × ((after more : List ℕ)
        → be_name standard (bytes ++ after) ((1 ∷ 2 ∷ []) ++ (bytes ++ more)) ≡ ok (after, www_net))
be_name-put_name_example =
    be_name-put_name standard standard-IsByteIo (1 ∷ 2 ∷ []) www_net [] www_net-IsName
      (IsTable-nil (1 ∷ 2 ∷ []))
