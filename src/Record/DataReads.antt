-- ===== src/Record/DataReads.antt =====
-- What `be_rdata` reads from the data of a record, in the message that holds it.
use ddns.Prelude.{ℕ, ◌+◌, ◌<◌, ◌^◌, ◌≡◌, arith, List, [], ◌++◌, Option}
use ddns.Prelude.{append_assoc, append-nil, length, length-append, subst}
use ddns.Bytes.{ok, be_bytes, length-be_bytes, read_be-be_bytes, read_be_all, read_take_all}
use ddns.Bytes.Standard.{standard}
use ddns.Name.{Name, NameCompression, be_name}
use ddns.Name.Table.{IsTable, IsTable-append}
use ddns.Name.Pure.{name_bytes, NameReads, name_bytes-NameReads}
use ddns.Name.Size.{name_bytes_size}
use ddns.Endpoint.RoundTrip.{be_endpoint_addr-wire}
use ddns.Endpoint.Compat.{be_endpoint_addr_compat_modern}
use ddns.Record.Defs.{RecordType, type_srv, rdata_srv, Srv, RData, be_srv, be_rdata}
use ddns.Record.Data.{
  IsSrv, IsRData, is_a, is_aaaa, is_cname, is_ns, is_ptr, is_txt, is_srv, is_e, rdata_bytes, grown,
}

-- Bytes that a record's length field can hold and that are read as the data.
pub record RDataReads (try_sequence : ℕ → Option ℕ) (buf : List ℕ) (typ : RecordType)
    (rdata : RData) (written : List ℕ × NameCompression) : Type 0 where
  pub short : length written.0 < 2 ^ 16
  pub true_table : IsTable (buf ++ written.0) written.1
  pub reads :
      (more : List ℕ)
      → be_rdata standard try_sequence written.0 (buf ++ (written.0 ++ more)) typ (length written.0)
        ≡ ok ([], rdata)

-- A name alone, up to the end of its slice.
whole_name :
    {buf bytes : List ℕ} {name : Name} {table : NameCompression}
    → NameReads buf name bytes table
    → (more : List ℕ) → be_name standard bytes (buf ++ (bytes ++ more)) ≡ ok ([], name)
whole_name {buf} {bytes} {name} n more =
    subst (λ input. be_name standard input (buf ++ (bytes ++ more)) ≡ ok ([], name))
      (append-nil bytes) (n.reads [] more)

module _ {try_sequence : ℕ → Option ℕ} (buf : List ℕ) (ctx : NameCompression)
    (table : IsTable buf ctx) where
  srv-RDataReads :
      (srv : Srv)
      → IsSrv srv
      → RDataReads try_sequence buf type_srv
          (rdata_srv srv)
          (rdata_bytes (length buf) (rdata_srv srv) ctx)
  unfolding rdata_bytes be_rdata be_srv
  srv-RDataReads srv h =
      let p = be_bytes 2 srv.priority in
      let w = be_bytes 2 srv.weight in
      let o = be_bytes 2 srv.port in
      let nb = (name_bytes (length buf + 6) srv.target ctx).0 in
      let t = (name_bytes (length buf + 6) srv.target ctx).1 in
      let start : IsTable (buf ++ p ++ w ++ o) ctx =
        IsTable-append ctx o (IsTable-append ctx w (IsTable-append ctx p table)) in
      let n : NameReads (buf ++ p ++ w ++ o) srv.target nb t =
        subst
          (λ k.
            NameReads (buf ++ p ++ w ++ o) srv.target (name_bytes k srv.target ctx).0
              (name_bytes k srv.target ctx).1)
          (grown buf srv.priority srv.weight srv.port)
          (name_bytes-NameReads (buf ++ p ++ w ++ o) srv.target ctx h.named start) in
      let shape : (more : List ℕ)
          → (buf ++ p ++ w ++ o) ++ more ≡ buf ++ (p ++ (w ++ (o ++ more))) =
        λ more. simp append_assoc in
      record {
        short = omega (
          arith,
          length-append p (w ++ (o ++ nb)),
          length-append w (o ++ nb),
          length-append o nb,
          length-be_bytes 2 srv.priority,
          length-be_bytes 2 srv.weight,
          length-be_bytes 2 srv.port,
          name_bytes_size (length buf + 6) srv.target ctx h.named,
          h.short,
        );
        true_table = subst (λ b. IsTable b t) (shape nb) n.true_table;
        reads = λ more.
            let back : be_name standard nb (buf ++ (p ++ (w ++ (o ++ (nb ++ more)))))
                ≡ ok ([], srv.target) =
              subst (λ b. be_name standard nb b ≡ ok ([], srv.target)) (shape (nb ++ more))
                (whole_name n more) in
            rw
              (
                read_be-be_bytes 2 srv.priority _ h.priority_fits,
                read_be-be_bytes 2 srv.weight _ h.weight_fits,
                read_be-be_bytes 2 srv.port _ h.port_fits,
              )
              (simp (append_assoc, back));
      }

  pub rdata_bytes-RDataReads :
      (typ : RecordType) (rdata : RData)
      → IsRData try_sequence typ rdata
      → RDataReads try_sequence buf typ rdata (rdata_bytes (length buf) rdata ctx)
  unfolding rdata_bytes be_rdata
  rdata_bytes-RDataReads _ _ (is_a ip h) = record {
    short = omega (arith, length-be_bytes 4 ip);
    true_table = IsTable-append ctx _ table;
    reads = λ more. rw (read_be_all 4 ip h);
  }
  rdata_bytes-RDataReads _ _ (is_aaaa ip h) = record {
    short = omega (arith, length-be_bytes 16 ip);
    true_table = IsTable-append ctx _ table;
    reads = λ more. rw (read_be_all 16 ip h);
  }
  rdata_bytes-RDataReads _ _ (is_cname name h short) = record {
    short = omega (arith, name_bytes_size (length buf) name ctx h);
    true_table = (name_bytes-NameReads buf name ctx h table).true_table;
    reads = λ more. rw (whole_name (name_bytes-NameReads buf name ctx h table) more);
  }
  rdata_bytes-RDataReads _ _ (is_ns name h short) = record {
    short = omega (arith, name_bytes_size (length buf) name ctx h);
    true_table = (name_bytes-NameReads buf name ctx h table).true_table;
    reads = λ more. rw (whole_name (name_bytes-NameReads buf name ctx h table) more);
  }
  rdata_bytes-RDataReads _ _ (is_ptr name h short) = record {
    short = omega (arith, name_bytes_size (length buf) name ctx h);
    true_table = (name_bytes-NameReads buf name ctx h table).true_table;
    reads = λ more. rw (whole_name (name_bytes-NameReads buf name ctx h table) more);
  }
  rdata_bytes-RDataReads _ _ (is_txt txt h) = record {
    short = h;
    true_table = IsTable-append ctx _ table;
    reads = λ more. rw (read_take_all txt);
  }
  rdata_bytes-RDataReads _ _ (is_srv srv h) = srv-RDataReads srv h
  rdata_bytes-RDataReads _ _ (is_e endpoint h short) = record {
    short = short;
    true_table = IsTable-append ctx _ table;
    reads = λ more. rw (
        be_endpoint_addr_compat_modern standard try_sequence _ _ endpoint
          (be_endpoint_addr-wire try_sequence endpoint h));
  }
