-- ===== src/Tlv.antt =====
-- The wire format: integers in a packet (clientlib/tlvhelper.c), type-length-value entries
-- (clientlib/generic_tlv_min.c), and the two frames that carry integers (clientlib/seqnoframe.c and
-- clientlib/intframe.c).
pub mod Bytes
pub mod Roundtrip
pub mod Untouched
pub mod Generic
pub mod Valid
pub mod Search
pub mod Frames
pub mod Marshal
pub mod Integers
