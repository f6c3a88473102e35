-- ===== src/Endpoint/Compat.antt =====
-- The parser of an E record by its length: `be_endpoint_addr_compat` and the fixed layouts of the
-- records from before the flags.
use ddns.Prelude.{ℕ, ◌≡◌, Bool, List, [], Option, none, some, ◌==◌, if◌then◌else◌, ◌||◌}
use ddns.Bytes.{ByteIo, IResult, ok, err, error, length_value, ◌>>=◌}
use ddns.Prelude.{Bool-cases, inl, inr}
use ddns.Endpoint.Defs.{EndpointAddr, SocketAddr, flag_family, flag_nat}
use ddns.Endpoint.Wire.{be_socket_addr_v4, be_socket_addr_v6, be_endpoint_addr, is_empty}
use Prim.Native.Nat.{bit_or}

abbrev legacy : ℕ → SocketAddr → EndpointAddr
legacy flags primary = record {
  flags = flags;
  sequence = none;
  load = none;
  signature = none;
  primary = primary;
  agent = none;
}

abbrev legacy_nat : ℕ → SocketAddr → SocketAddr → EndpointAddr
legacy_nat flags primary agent = record (legacy flags primary) { agent = some agent }

-- `legacy_lengths.contains(&rdlen)`
abbrev pub is_legacy : ℕ → Bool
is_legacy rdlen = (rdlen == 6) || (rdlen == 12) || (rdlen == 18) || (rdlen == 36)

module _ (io : ByteIo) where
  unfoldable pub be_legacy_endpoint_addr_by_length : List ℕ → ℕ → IResult EndpointAddr
  be_legacy_endpoint_addr_by_length input rdlen =
      let direct4 = (do (remain, addr) ← be_socket_addr_v4 io input; ok (remain, legacy 0 addr)) in
      let nat4 = (do
        (remain, primary) ← be_socket_addr_v4 io input
        (remain, agent) ← be_socket_addr_v4 io remain
        ok (remain, legacy_nat flag_nat primary agent)) in
      let direct6 = (do
        (remain, addr) ← be_socket_addr_v6 io input
        ok (remain, legacy flag_family addr)) in
      let nat6 = (do
        (remain, primary) ← be_socket_addr_v6 io input
        (remain, agent) ← be_socket_addr_v6 io remain
        ok (remain, legacy_nat (bit_or flag_family flag_nat) primary agent)) in
      if rdlen == 6
      then direct4
      else if rdlen == 12
      then nat4
      else if rdlen == 18
      then direct6
      else if rdlen == 36
      then nat6
      else err (error input length_value)

  module _ (try_sequence : ℕ → Option ℕ) where
    -- `if let Ok((remaining, endpoint)) = modern && remaining.is_empty()`
    prefer : IResult EndpointAddr → IResult EndpointAddr → IResult EndpointAddr
    prefer (ok (remaining, endpoint)) fallback =
        if is_empty remaining then ok (remaining, endpoint) else fallback
    prefer (err e) fallback = fallback

    unfoldable pub be_endpoint_addr_compat : List ℕ → ℕ → IResult EndpointAddr
    unfolding prefer
    be_endpoint_addr_compat input rdlen =
        if is_legacy rdlen
        then prefer (be_endpoint_addr io try_sequence input)
            (be_legacy_endpoint_addr_by_length input rdlen)
        else be_endpoint_addr io try_sequence input

    -- What the modern parser reads to the end is read the same at every length.
    pub be_endpoint_addr_compat_modern :
        (input : List ℕ) (rdlen : ℕ) (e : EndpointAddr)
        → be_endpoint_addr io try_sequence input ≡ ok ([], e)
        → be_endpoint_addr_compat input rdlen ≡ ok ([], e)
    unfolding be_endpoint_addr_compat prefer
    be_endpoint_addr_compat_modern input rdlen e read = elim (Bool-cases (is_legacy rdlen)) [
      | inl a ↦ rw (read, a)
      | inr a ↦ rw (read, a)
    ]
