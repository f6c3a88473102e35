-- ===== src/Record/Defs.antt =====
-- The struct `ResourceRecord` with its types, classes and data, `be_record`, `be_rdata` and
-- `put_record`. The variants of the enums keep the source's names with a prefix; `Ptr` and `Txt` are
-- what they wrap, and an IP address is its number. A `none` of the printer is the panic of `put_varint`.
use Prim.Native.Nat.{bit_and}
use ddns.Prelude.{ℕ, ◌+◌, ◌-◌, ◌/◌, ◌%◌, ◌^◌, Bool, List, Option, none, some}
use ddns.Prelude.{length, set, drop, ltb, ◌==◌, if◌then◌else◌}
use ddns.Bytes.{ByteIo, IResult, ok, err, incomplete, error, alt, eof, ◌>>=◌}
use ddns.Name.{Name, NameCompression, be_name, put_name}
use ddns.Endpoint.Defs.{EndpointAddr}
use ddns.Endpoint.Wire.{put_endpoint_addr, is_empty}
use ddns.Endpoint.Compat.{be_endpoint_addr_compat}
use ddns.Question.Defs.{class_word}

pub data RecordType : Type 0 where
  type_a type_ns type_aaaa type_cname type_txt type_srv type_ptr type_e : RecordType

pub data Class : Type 0 where
  class_in class_cs class_ch class_hs : Class

pub record Srv : Type 0 where
  pub priority : ℕ
  pub weight : ℕ
  pub port : ℕ
  pub target : Name

pub data RData : Type 0 where
  rdata_a : ℕ → RData
  rdata_aaaa : ℕ → RData
  rdata_cname : Name → RData
  rdata_txt : List ℕ → RData
  rdata_srv : Srv → RData
  rdata_ptr : Name → RData
  rdata_e : EndpointAddr → RData

pub record ResourceRecord : Type 0 where
  pub name : Name
  pub typ : RecordType
  pub multicast_unique : Bool
  pub cls : Class
  pub ttl : ℕ
  pub rdata : RData

unfoldable pub type_of_u16 : ℕ → Option RecordType
type_of_u16 value =
    if value == 1
    then some type_a
    else if value == 2
    then some type_ns
    else if value == 28
    then some type_aaaa
    else if value == 5
    then some type_cname
    else if value == 16
    then some type_txt
    else if value == 33
    then some type_srv
    else if value == 12
    then some type_ptr
    else if value == 266
    then some type_e
    else if value == 267
    then some type_e
    else if value == 268
    then some type_e
    else if value == 269
    then some type_e
    else none

unfoldable pub type_to_u16 : RecordType → ℕ
type_to_u16 type_a = 1
type_to_u16 type_ns = 2
type_to_u16 type_aaaa = 28
type_to_u16 type_cname = 5
type_to_u16 type_txt = 16
type_to_u16 type_srv = 33
type_to_u16 type_ptr = 12
type_to_u16 type_e = 266

unfoldable pub class_of_u16 : ℕ → Option Class
class_of_u16 value =
    let value = bit_and value 0x7fff in
    if value == 1
    then some class_in
    else if value == 2
    then some class_cs
    else if value == 3
    then some class_ch
    else if value == 4
    then some class_hs
    else none

unfoldable pub class_to_u16 : Class → ℕ
class_to_u16 class_in = 1
class_to_u16 class_cs = 2
class_to_u16 class_ch = 3
class_to_u16 class_hs = 4

-- The bound checks of `be_record` before it skips: RDATA that is not all there.
unfoldable pub skip : List ℕ → ℕ → IResult ResourceRecord
skip remain rdlen =
    if ltb (length remain) rdlen
    then err (incomplete (rdlen - length remain))
    else err (error (drop rdlen remain) alt)

-- The tests of `be_record` behind the data: all of RDATA is read, and the class is known.
unfoldable pub record_of :
    List ℕ → List ℕ → Name → RecordType → ℕ → ℕ → ℕ → RData → IResult ResourceRecord
record_of remain_after_rdata rdata_remain name typ cls ttl rdlen rdata =
    if is_empty rdata_remain
    then elim (class_of_u16 (bit_and cls 0x7fff)) [
      | none ↦ skip remain_after_rdata rdlen
      | some class ↦ ok (
        remain_after_rdata,
        record {
          name = name;
          typ = typ;
          multicast_unique = bit_and cls 0x8000 == 0x8000;
          cls = class;
          ttl = ttl;
          rdata = rdata;
        },
      )
    ]
    else err (error remain_after_rdata eof)

module _ (io : ByteIo) where
  unfoldable pub be_srv : List ℕ → List ℕ → IResult Srv
  be_srv input origin = do
    (remain, priority) ← io.be_u16 input
    (remain, weight) ← io.be_u16 remain
    (remain, port) ← io.be_u16 remain
    (remain, target) ← be_name io remain origin
    ok (remain, record { priority = priority; weight = weight; port = port; target = target })

  module _ (try_sequence : ℕ → Option ℕ) where
    unfoldable pub be_rdata : List ℕ → List ℕ → RecordType → ℕ → IResult RData
    be_rdata input origin type_a rdlen = do (remain, ip) ← io.be_u32 input; ok (remain, rdata_a ip)
    be_rdata input origin type_aaaa rdlen = do
      (remain, ip) ← io.be_u128 input
      ok (remain, rdata_aaaa ip)
    be_rdata input origin type_cname rdlen = do
      (remain, name) ← be_name io input origin
      ok (remain, rdata_cname name)
    be_rdata input origin type_txt rdlen = do
      (remain, txt) ← io.take rdlen input
      ok (remain, rdata_txt txt)
    be_rdata input origin type_srv rdlen = do
      (remain, srv) ← be_srv input origin
      ok (remain, rdata_srv srv)
    be_rdata input origin type_ptr rdlen = do
      (remain, ptr) ← be_name io input origin
      ok (remain, rdata_ptr ptr)
    be_rdata input origin type_ns rdlen = do
      (remain, name) ← be_name io input origin
      ok (remain, rdata_cname name)
    be_rdata input origin type_e rdlen = do
      (remain, endpoint) ← be_endpoint_addr_compat io try_sequence input rdlen
      ok (remain, rdata_e endpoint)

    -- From the length of RDATA on, for a known type.
    unfoldable pub be_known :
        List ℕ → List ℕ → Name → RecordType → ℕ → ℕ → ℕ → IResult ResourceRecord
    be_known remain origin name typ cls ttl rdlen =
        let read = (do
          (remain_after_rdata, rdata_bytes) ← io.take rdlen remain
          (rdata_remain, rdata) ← be_rdata rdata_bytes origin typ rdlen
          record_of remain_after_rdata rdata_remain name typ cls ttl rdlen rdata) in
        if ltb (length remain) rdlen then err (incomplete (rdlen - length remain)) else read

    unfoldable pub be_record : List ℕ → List ℕ → IResult ResourceRecord
    be_record input origin = do
      (remain, name) ← be_name io input origin
      (remain, typ) ← io.be_u16 remain
      (remain, cls) ← io.be_u16 remain
      (remain, ttl) ← io.be_u32 remain
      (remain, rdlen) ← io.be_u16 remain
      elim (type_of_u16 typ) [
        | none ↦ skip remain rdlen
        | some typ ↦ be_known remain origin name typ cls ttl rdlen
      ]

  unfoldable pub put_srv : List ℕ → Srv → NameCompression → List ℕ × NameCompression
  put_srv buf srv ctx =
      let buf = io.put_u16 buf srv.priority in
      let buf = io.put_u16 buf srv.weight in
      let buf = io.put_u16 buf srv.port in
      let (buf, ctx, _) = put_name io buf srv.target ctx in (buf, ctx)

  abbrev pub put_only_name : List ℕ → Name → NameCompression → List ℕ × NameCompression
  put_only_name buf name ctx = let (buf, ctx, _) = put_name io buf name ctx in (buf, ctx)

  -- The octets of an address are its number in network order.
  unfoldable pub put_rdata : List ℕ → RData → NameCompression → Option (List ℕ × NameCompression)
  put_rdata buf (rdata_a ip) ctx = some (io.put_u32 buf ip, ctx)
  put_rdata buf (rdata_aaaa ip) ctx = some (io.put_u128 buf ip, ctx)
  put_rdata buf (rdata_cname name) ctx = some (put_only_name buf name ctx)
  put_rdata buf (rdata_txt txt) ctx = some (io.put_slice buf txt, ctx)
  put_rdata buf (rdata_srv srv) ctx = some (put_srv buf srv ctx)
  put_rdata buf (rdata_ptr ptr) ctx = some (put_only_name buf ptr ctx)
  put_rdata buf (rdata_e endpoint) ctx = elim (put_endpoint_addr io buf endpoint) [
    | none ↦ none
    | some buf ↦ some (buf, ctx)
  ]

  -- RDATA and its length, which is written once RDATA is there.
  unfoldable pub put_sized : List ℕ → RData → NameCompression → Option (List ℕ × NameCompression)
  put_sized buf rdata ctx =
      let rdlen_pos = length buf in
      let buf = io.put_u16 buf 0 in
      let rdata_start = length buf in
      elim (put_rdata buf rdata ctx) [
        | none ↦ none
        | some (buf, ctx) ↦
            let rdlen = (length buf - rdata_start) % 2 ^ 16 in
            some (set (set buf rdlen_pos (rdlen / 2 ^ 8)) (rdlen_pos + 1) (rdlen % 2 ^ 8), ctx)
      ]

  unfoldable pub put_record :
      List ℕ → ResourceRecord → NameCompression → Option (List ℕ × NameCompression)
  put_record buf r ctx =
      let (buf, ctx, _) = put_name io buf r.name ctx in
      let buf = io.put_u16 buf (type_to_u16 r.typ) in
      let buf = io.put_u16 buf (class_word r.multicast_unique (class_to_u16 r.cls)) in
      let buf = io.put_u32 buf r.ttl in put_sized buf r.rdata ctx
