-- ===== src/EnrollCode/Examples.antt =====
-- A code with a token, a fingerprint and an installer's address, the other endpoints left out.
use geneza.Base.{◌≡◌, some, [], bytes, arith}
use geneza.EnrollCode.{Fields, encode, decode}
use geneza.EnrollCode.RoundTrip.{IsRecord, decode-encode}

abbrev fields : Fields
fields = record {
  token = bytes "gz-1f";
  root_fp = bytes "sha256:0a";
  http = bytes "https://c";
  runtime = [];
  grpc = [];
}

fields-IsRecord : IsRecord fields
fields-IsRecord = ground arith

decode-encode_example : decode (encode fields) ≡ some fields
decode-encode_example = decode-encode fields fields-IsRecord
