-- ===== src/Record/Data.antt =====
-- The data of a resource record: its bytes behind a buffer, and what `be_rdata` reads from them in the
-- message.
use ddns.Prelude.{ℕ, ◌+◌, ◌<◌, ◌^◌, ◌≡◌, refl, arith, List, ◌++◌, Option, some}
use ddns.Prelude.{append_assoc, length, length-append}
use ddns.Bytes.{be_bytes, length-be_bytes}
use ddns.Bytes.Standard.{standard}
use ddns.Name.{Name, NameCompression}
use ddns.Name.Text.{IsName}
use ddns.Name.Pure.{name_bytes, put_name-bytes}
use ddns.Endpoint.Defs.{EndpointAddr}
use ddns.Endpoint.Base.{IsEndpoint, wire}
use ddns.Endpoint.RoundTrip.{put_endpoint_addr-standard}
use ddns.Record.Defs.{
  RecordType, type_a, type_ns, type_aaaa, type_cname, type_txt, type_srv, type_ptr, type_e, Srv,
  RData, rdata_a, rdata_aaaa, rdata_cname, rdata_txt, rdata_srv, rdata_ptr, rdata_e, put_srv,
  put_rdata,
}

-- The numbers of a service record fit their types, and its bytes their length.
pub record IsSrv (srv : Srv) : Type 0 where
  pub priority_fits : srv.priority < 2 ^ 16
  pub weight_fits : srv.weight < 2 ^ 16
  pub port_fits : srv.port < 2 ^ 16
  pub named : IsName srv.target
  pub short : length srv.target + 8 < 2 ^ 16

-- Data of a type, that fits and whose bytes fit their length.
pub data IsRData (try_sequence : ℕ → Option ℕ) : RecordType → RData → Type 0 where
  is_a : (ip : ℕ) → ip < 2 ^ 32 → IsRData try_sequence type_a (rdata_a ip)
  is_aaaa : (ip : ℕ) → ip < 2 ^ 128 → IsRData try_sequence type_aaaa (rdata_aaaa ip)
  is_cname :
      (name : Name)
      → IsName name
      → length name + 2 < 2 ^ 16
      → IsRData try_sequence type_cname (rdata_cname name)
  is_ns :
      (name : Name)
      → IsName name
      → length name + 2 < 2 ^ 16
      → IsRData try_sequence type_ns (rdata_cname name)
  is_ptr :
      (name : Name)
      → IsName name
      → length name + 2 < 2 ^ 16
      → IsRData try_sequence type_ptr (rdata_ptr name)
  is_txt : (txt : List ℕ) → length txt < 2 ^ 16 → IsRData try_sequence type_txt (rdata_txt txt)
  is_srv : (srv : Srv) → IsSrv srv → IsRData try_sequence type_srv (rdata_srv srv)
  is_e :
      (endpoint : EndpointAddr)
      → IsEndpoint try_sequence endpoint
      → length (wire endpoint) < 2 ^ 16
      → IsRData try_sequence type_e (rdata_e endpoint)

-- The bytes of the data behind `n` bytes, and the new table.
unfoldable pub rdata_bytes : ℕ → RData → NameCompression → List ℕ × NameCompression
rdata_bytes n (rdata_a ip) ctx = (be_bytes 4 ip, ctx)
rdata_bytes n (rdata_aaaa ip) ctx = (be_bytes 16 ip, ctx)
rdata_bytes n (rdata_cname name) ctx = name_bytes n name ctx
rdata_bytes n (rdata_txt txt) ctx = (txt, ctx)
rdata_bytes n (rdata_srv srv) ctx =
    let (bytes, table) = name_bytes (n + 6) srv.target ctx in
    (be_bytes 2 srv.priority ++ (be_bytes 2 srv.weight ++ (be_bytes 2 srv.port ++ bytes)), table)
rdata_bytes n (rdata_ptr name) ctx = name_bytes n name ctx
rdata_bytes n (rdata_e endpoint) ctx = (wire endpoint, ctx)

pub grown :
    (buf : List ℕ) (a b c : ℕ)
    → length (buf ++ be_bytes 2 a ++ be_bytes 2 b ++ be_bytes 2 c) ≡ length buf + 6
grown buf a b c = omega (
  arith,
  length-append (buf ++ be_bytes 2 a ++ be_bytes 2 b) (be_bytes 2 c),
  length-append (buf ++ be_bytes 2 a) (be_bytes 2 b),
  length-append buf (be_bytes 2 a),
  length-be_bytes 2 a,
  length-be_bytes 2 b,
  length-be_bytes 2 c,
)

module _ {try_sequence : ℕ → Option ℕ} where
  pub put_rdata-bytes :
      (buf : List ℕ) (typ : RecordType) (rdata : RData) (ctx : NameCompression)
      → IsRData try_sequence typ rdata
      → put_rdata standard buf rdata ctx
        ≡ (let (bytes, table) = rdata_bytes (length buf) rdata ctx in some (buf ++ bytes, table))
  unfolding put_rdata rdata_bytes put_srv
  put_rdata-bytes buf _ _ ctx (is_a ip h) = refl
  put_rdata-bytes buf _ _ ctx (is_aaaa ip h) = refl
  put_rdata-bytes buf _ _ ctx (is_cname name h short) = rw (put_name-bytes buf name ctx)
  put_rdata-bytes buf _ _ ctx (is_ns name h short) = rw (put_name-bytes buf name ctx)
  put_rdata-bytes buf _ _ ctx (is_ptr name h short) = rw (put_name-bytes buf name ctx)
  put_rdata-bytes buf _ _ ctx (is_txt txt h) = refl
  put_rdata-bytes buf _ _ ctx (is_srv srv h) =
      rw
        (
          put_name-bytes
              (buf ++ be_bytes 2 srv.priority ++ be_bytes 2 srv.weight ++ be_bytes 2 srv.port)
              srv.target ctx,
          grown buf srv.priority srv.weight srv.port,
        )
        (simp append_assoc)
  put_rdata-bytes buf _ _ ctx (is_e endpoint h short) =
      rw (put_rdata, put_endpoint_addr-standard try_sequence endpoint h buf)
