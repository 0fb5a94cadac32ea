-- ===== src/Packet/Repr.antt =====
-- `pkt_code_to_str` of src/packet_implem.c and `pkt_repr` of src/util.c: texts for the log.
use Prim.Native.String.{String}
use lossless_transport.Common.{
  ℕ, ◌+◌, ◌^◌, ◌<◌, ◌≤◌, Bool, Option, none, some, ◌++◌, ◌==◌, if◌then◌else◌, length, length-append,
  arith, Outcome, returns, aborts, Text, codes, decimal, signed_decimal, length-decimal,
  length-signed_decimal, htons-lt, htonl-lt,
}
use lossless_transport.Packet.{
  Pkt, Status, pkt_ok, e_type, e_tr, e_length, e_crc, e_window, e_seqnum, e_nomem, e_noheader,
  e_unconsistent, ptype_data, ptype_ack, ptype_nack, get_type, get_tr, get_window, get_seqnum,
  get_timestamp, get_length,
}
use lossless_transport.Packet.Fields.{IsWellFormed}

-- `pkt_code_to_str`; its default is for numbers that are no status.
unfoldable pub code_to_str : Status → String
code_to_str pkt_ok = "PKT_OK"
code_to_str e_type = "E_TYPE"
code_to_str e_tr = "E_TR"
code_to_str e_length = "E_LENGTH"
code_to_str e_crc = "E_CRC"
code_to_str e_window = "E_WINDOW"
code_to_str e_seqnum = "E_SEQNUM"
code_to_str e_nomem = "E_NOMEM"
code_to_str e_noheader = "E_NOHEADER"
code_to_str e_unconsistent = "E_UNCONSISTENT"

-- The size of `pkt_fmt_buf`.
abbrev pub buffer_size : ℕ
buffer_size = 1024

-- The name of the type, by the `switch` of `pkt_repr`.
unfoldable pub type_name : Pkt → Text
type_name p =
    if get_type p == ptype_ack
    then codes "ACK"
    else if get_type p == ptype_data
    then codes "DATA"
    else if get_type p == ptype_nack
    then codes "NACK"
    else codes "UNKNOWN"

-- What `sprintf` writes, without the NUL at its end.
unfoldable pub formatted : Pkt → Text
formatted p =
    codes "{Type="
    ++ (type_name p
        ++ (codes ", TR="
            ++ (decimal (get_tr p)
                ++ (codes ", Win="
                    ++ (decimal (get_window p)
                        ++ (codes ", Seq="
                            ++ (decimal (get_seqnum p)
                                ++ (codes ", Time="
                                    ++ (signed_decimal (get_timestamp p)
                                        ++ (codes ", Len="
                                            ++ (decimal (get_length p) ++ codes "}")))))))))))

-- `pkt_repr`; `none` is NULL, and the first argument says whether `sprintf` succeeds.
unfoldable pub repr : Bool → Option Pkt → Outcome Text
repr printed none = returns (codes "(nil)")
repr printed (some p) = if printed then returns (formatted p) else aborts

length-type_name : (p : Pkt) → length (type_name p) ≤ 7
unfolding type_name
length-type_name p = ground arith

get_length-lt : (p : Pkt) → get_length p < 2 ^ 16
unfolding get_length
get_length-lt p = ground (arith, htons-lt p.length)

get_timestamp-lt : (p : Pkt) → get_timestamp p < 2 ^ 32
unfolding get_timestamp
get_timestamp-lt p = htonl-lt p.timestamp

-- The text of a packet whose fields fit their C types, with the NUL at its end, fits the buffer
-- that `pkt_repr` prints it to.
pub repr-fits : (p : Pkt) → IsWellFormed p → length (formatted p) + 1 ≤ buffer_size
unfolding formatted get_tr get_window get_seqnum
repr-fits p v =
    let t = length-type_name p in
    let a = length-decimal 0 p.tr (omega arith) in
    let b = length-decimal 1 p.window (omega arith) in
    let c = length-decimal 2 p.seqnum (omega arith) in
    let d = length-signed_decimal (get_timestamp p) (get_timestamp-lt p) in
    let e = length-decimal 4 (get_length p) (omega (arith, get_length-lt p)) in
    omega (arith, length-append {0}, t, a, b, c, d, e)
