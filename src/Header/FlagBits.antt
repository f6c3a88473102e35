-- ===== src/Header/FlagBits.antt =====
-- The bit field `Flags`, highest field first, with the enums `Opcode` and `ResponseCode`. The macro
-- `bitfield` writes the conversions; they are translated from the declaration's order and widths.
use ddns.Prelude.{
  ℕ, ◌+◌, ◌*◌, ◌/◌, ◌%◌, ◌^◌, ◌≤◌, ◌<◌, ◌≡◌, refl, ap, ◌∙◌, arith, Bool, true, false,
}
use ddns.Prelude.{◌==◌, if◌then◌else◌}

pub data Opcode : Type 0 where
  standard_query inverse_query server_status_request : Opcode
  reserved : ℕ → Opcode

unfoldable pub opcode_to_bits : Opcode → ℕ
opcode_to_bits standard_query = 0
opcode_to_bits inverse_query = 1
opcode_to_bits server_status_request = 2
opcode_to_bits (reserved value) = value

unfoldable pub opcode_of_bits : ℕ → Opcode
opcode_of_bits value =
    if value == 0
    then standard_query
    else if value == 1
    then inverse_query
    else if value == 2
    then server_status_request
    else reserved value

pub data ResponseCode : Type 0 where
  no_error format_error server_failure name_error not_implemented refused : ResponseCode
  reserved : ℕ → ResponseCode

unfoldable pub rcode_to_bits : ResponseCode → ℕ
rcode_to_bits no_error = 0
rcode_to_bits format_error = 1
rcode_to_bits server_failure = 2
rcode_to_bits name_error = 3
rcode_to_bits not_implemented = 4
rcode_to_bits refused = 5
rcode_to_bits (reserved value) = value

unfoldable pub rcode_of_bits : ℕ → ResponseCode
rcode_of_bits value =
    if value == 0
    then no_error
    else if value == 1
    then format_error
    else if value == 2
    then server_failure
    else if value == 3
    then name_error
    else if value == 4
    then not_implemented
    else if value == 5
    then refused
    else ResponseCode.reserved value

pub record Flags : Type 0 where
  pub query : Bool
  pub opcode : Opcode
  pub authoritative : Bool
  pub trun_cache : Bool
  pub recursion_desired : Bool
  pub recursion_available : Bool
  pub zero : Bool
  pub authenticated_data : Bool
  pub checking_disabled : Bool
  pub response_code : ResponseCode

abbrev pub bit : Bool → ℕ
bit true = 1
bit false = 0

abbrev pub is_set : ℕ → ℕ → Bool
is_set w k = w / 2 ^ k % 2 == 1

unfoldable pub flags_of_bits : ℕ → Flags
flags_of_bits w = record {
  query = is_set w 15;
  opcode = opcode_of_bits (w / 2 ^ 11 % 2 ^ 4);
  authoritative = is_set w 10;
  trun_cache = is_set w 9;
  recursion_desired = is_set w 8;
  recursion_available = is_set w 7;
  zero = is_set w 6;
  authenticated_data = is_set w 5;
  checking_disabled = is_set w 4;
  response_code = rcode_of_bits (w % 2 ^ 4);
}

unfoldable pub flags_to_bits : Flags → ℕ
flags_to_bits f =
    bit f.query * 2 ^ 15
    + opcode_to_bits f.opcode * 2 ^ 11
    + bit f.authoritative * 2 ^ 10
    + bit f.trun_cache * 2 ^ 9
    + bit f.recursion_desired * 2 ^ 8
    + bit f.recursion_available * 2 ^ 7
    + bit f.zero * 2 ^ 6
    + bit f.authenticated_data * 2 ^ 5
    + bit f.checking_disabled * 2 ^ 4
    + rcode_to_bits f.response_code

-- `Flags::new()`
unfoldable pub flags_new : Flags
unfolding flags_of_bits
flags_new = flags_of_bits 0

-- A reserved code is one of four bits that no other constructor stands for.
abbrev pub IsOpcode : Opcode → Type 0
IsOpcode (reserved value) = (3 ≤ value) × (value < 16)
IsOpcode _ = Unit

abbrev pub IsResponseCode : ResponseCode → Type 0
IsResponseCode (reserved value) = (6 ≤ value) × (value < 16)
IsResponseCode _ = Unit

abbrev pub IsFlags : Flags → Type 0
IsFlags f = IsOpcode f.opcode × IsResponseCode f.response_code

pub flags_new-IsFlags : IsFlags flags_new
unfolding flags_new flags_of_bits opcode_of_bits rcode_of_bits
flags_new-IsFlags = (tt, tt)

opcode-round :
    (o : Opcode) → IsOpcode o → (opcode_to_bits o < 16) × (opcode_of_bits (opcode_to_bits o) ≡ o)
unfolding opcode_of_bits opcode_to_bits
opcode-round (reserved value) h = ground arith
opcode-round _ h = (omega arith, refl)

rcode-round :
    (c : ResponseCode)
    → IsResponseCode c
    → (rcode_to_bits c < 16) × (rcode_of_bits (rcode_to_bits c) ≡ c)
unfolding rcode_of_bits rcode_to_bits
rcode-round (reserved value) h = ground arith
rcode-round _ h = (omega arith, refl)

bit-bound : (b : Bool) → (bit b < 2) × ((bit b == 1) ≡ b)
bit-bound true = (omega arith, refl)
bit-bound false = (omega arith, refl)

opcode_bits : (n : ℕ) → opcode_to_bits (opcode_of_bits n) ≡ n
unfolding opcode_of_bits opcode_to_bits
opcode_bits n = ground arith

rcode_bits : (n : ℕ) → rcode_to_bits (rcode_of_bits n) ≡ n
unfolding rcode_of_bits rcode_to_bits
rcode_bits n = ground arith

bit-is_set : (w k : ℕ) → bit (is_set w k) ≡ w / 2 ^ k % 2
bit-is_set w k = ground arith

-- Every word of 16 bits is the flags that it reads as.
pub flags_to_bits-flags_of_bits : (w : ℕ) → w < 2 ^ 16 → flags_to_bits (flags_of_bits w) ≡ w
unfolding flags_to_bits flags_of_bits
flags_to_bits-flags_of_bits w h = omega (
  arith,
  opcode_bits (w / 2 ^ 11 % 2 ^ 4),
  rcode_bits (w % 2 ^ 4),
  bit-is_set w 15,
  bit-is_set w 10,
  bit-is_set w 9,
  bit-is_set w 8,
  bit-is_set w 7,
  bit-is_set w 6,
  bit-is_set w 5,
  bit-is_set w 4,
)

is_set-bit : (w k : ℕ) (b : Bool) → w / 2 ^ k % 2 ≡ bit b → is_set w k ≡ b
is_set-bit w k b e = rw e (bit-bound b).1

-- The bounds of all fields, from which `omega` finds each of them in the word.
abbrev Fields : Flags → Type 0
Fields f =
    (bit f.query < 2)
    × (opcode_to_bits f.opcode < 16)
    × (bit f.authoritative < 2)
    × (bit f.trun_cache < 2)
    × (bit f.recursion_desired < 2)
    × (bit f.recursion_available < 2)
    × (bit f.zero < 2)
    × (bit f.authenticated_data < 2)
    × (bit f.checking_disabled < 2)
    × (rcode_to_bits f.response_code < 16)

flags-Fields : (f : Flags) → IsFlags f → Fields f
flags-Fields f (ho, hc) = (
  (bit-bound f.query).0,
  (opcode-round f.opcode ho).0,
  (bit-bound f.authoritative).0,
  (bit-bound f.trun_cache).0,
  (bit-bound f.recursion_desired).0,
  (bit-bound f.recursion_available).0,
  (bit-bound f.zero).0,
  (bit-bound f.authenticated_data).0,
  (bit-bound f.checking_disabled).0,
  (rcode-round f.response_code hc).0,
)

pub flags_of_bits-flags_to_bits :
    (f : Flags) → IsFlags f → (flags_to_bits f < 2 ^ 16) × (flags_of_bits (flags_to_bits f) ≡ f)
unfolding flags_to_bits flags_of_bits
flags_of_bits-flags_to_bits f (ho, hc) =
    let bounds = flags-Fields f (ho, hc) in
    let w : ℕ = flags_to_bits f in
    let op : w / 2 ^ 11 % 2 ^ 4 ≡ opcode_to_bits f.opcode = omega arith in
    let rc : w % 2 ^ 4 ≡ rcode_to_bits f.response_code = omega arith in
    (
      omega arith,
      λ i. record {
        query = is_set-bit w 15 f.query (omega arith) i;
        opcode = (ap opcode_of_bits op ∙ (opcode-round f.opcode ho).1) i;
        authoritative = is_set-bit w 10 f.authoritative (omega arith) i;
        trun_cache = is_set-bit w 9 f.trun_cache (omega arith) i;
        recursion_desired = is_set-bit w 8 f.recursion_desired (omega arith) i;
        recursion_available = is_set-bit w 7 f.recursion_available (omega arith) i;
        zero = is_set-bit w 6 f.zero (omega arith) i;
        authenticated_data = is_set-bit w 5 f.authenticated_data (omega arith) i;
        checking_disabled = is_set-bit w 4 f.checking_disabled (omega arith) i;
        response_code = (ap rcode_of_bits rc ∙ (rcode-round f.response_code hc).1) i;
      },
    )
