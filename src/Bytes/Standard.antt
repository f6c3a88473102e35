-- ===== src/Bytes/Standard.antt =====
-- The interface met by its own laws: the readers and printers that `IsByteIo` names. Any other
-- implementation that keeps the laws is equal to this one, so what is proved here holds of it.
use ddns.Prelude.{◌≡◌, refl, sym, subst, ◌++◌}
use ddns.Bytes.{ByteIo, IsByteIo, be_bytes, read_be, read_take}

abbrev pub standard : ByteIo
standard = record {
  be_u8 = read_be 1;
  be_u16 = read_be 2;
  be_u32 = read_be 4;
  be_u128 = read_be 16;
  take = read_take;
  put_u8 = λ buf v. buf ++ be_bytes 1 v;
  put_u16 = λ buf v. buf ++ be_bytes 2 v;
  put_u32 = λ buf v. buf ++ be_bytes 4 v;
  put_u64 = λ buf v. buf ++ be_bytes 8 v;
  put_u128 = λ buf v. buf ++ be_bytes 16 v;
  put_slice = λ buf bs. buf ++ bs;
}

pub standard-IsByteIo : IsByteIo standard
standard-IsByteIo = record {
  be_u8_reads = λ s. refl;
  be_u16_reads = λ s. refl;
  be_u32_reads = λ s. refl;
  be_u128_reads = λ s. refl;
  take_reads = λ n s. refl;
  put_u8_appends = λ buf v. refl;
  put_u16_appends = λ buf v. refl;
  put_u32_appends = λ buf v. refl;
  put_u64_appends = λ buf v. refl;
  put_u128_appends = λ buf v. refl;
  put_slice_appends = λ buf bs. refl;
}

eq-standard : {io : ByteIo} → IsByteIo io → io ≡ standard
eq-standard h = λ i. record {
  be_u8 = λ s. h.be_u8_reads s i;
  be_u16 = λ s. h.be_u16_reads s i;
  be_u32 = λ s. h.be_u32_reads s i;
  be_u128 = λ s. h.be_u128_reads s i;
  take = λ n s. h.take_reads n s i;
  put_u8 = λ buf v. h.put_u8_appends buf v i;
  put_u16 = λ buf v. h.put_u16_appends buf v i;
  put_u32 = λ buf v. h.put_u32_appends buf v i;
  put_u64 = λ buf v. h.put_u64_appends buf v i;
  put_u128 = λ buf v. h.put_u128_appends buf v i;
  put_slice = λ buf bs. h.put_slice_appends buf bs i;
}

-- What holds of the standard interface holds of every one that keeps the laws.
pub of_standard {ℓ} : (P : ByteIo → Type ℓ) {io : ByteIo} → IsByteIo io → P standard → P io
of_standard P h p = subst P (sym (eq-standard h)) p
