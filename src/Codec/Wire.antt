-- ===== src/Codec/Wire.antt =====
-- One frame on the wire: four length bytes, then the type byte and the payload.
use ferrotunnel.Base.{
  ℕ, ◌+◌, ◌≤◌, ◌≡◌, refl, arith, [], ◌++◌, length, drop, take-append, drop-append, length-append,
  length_laws, append_assoc,
}
use ferrotunnel.Base.Words.{u32_at, put_u32, be32_digits, IsU32}
use ferrotunnel.Frame.{Bytes, max_frame_size_limit}
use ferrotunnel.Codec.{TunnelCodec, decode, decode_payload}
use ferrotunnel.Codec.External.{Bincode}

abbrev pub wire : Bytes → Bytes
wire payload = put_u32 [] (length payload) ++ payload

-- A codec as its constructors make it, and a payload that it may send.
abbrev pub IsCodec : TunnelCodec → Type 0
IsCodec c = c.max_frame_size ≤ max_frame_size_limit

abbrev pub IsPayload : TunnelCodec → Bytes → Type 0
IsPayload c payload = (1 ≤ length payload) × (length payload ≤ c.max_frame_size)

pub length-put_u32 : (n : ℕ) → length (put_u32 [] n) ≡ 4
unfolding put_u32
length-put_u32 n = refl

pub u32_at-put_u32 : (n : ℕ) (rest : Bytes) → IsU32 n → u32_at (put_u32 [] n ++ rest) 0 ≡ n
unfolding put_u32 u32_at
u32_at-put_u32 n rest h = be32_digits n h

pub length-wire : (payload : Bytes) → length (wire payload) ≡ 4 + length payload
length-wire payload = grind (length_laws, length-put_u32 (length payload))

pub u32_at-wire :
    (payload rest : Bytes)
    → IsU32 (length payload)
    → u32_at (wire payload ++ rest) 0 ≡ length payload
u32_at-wire payload rest h = rw append_assoc (u32_at-put_u32 (length payload) (payload ++ rest) h)

drop_header : (payload : Bytes) → drop 4 (wire payload) ≡ payload
unfolding put_u32
drop_header payload = refl

-- A whole frame at the front of the buffer is taken off it, and its payload is decoded.
pub decode-wire :
    (b : Bincode) (c : TunnelCodec) (payload rest : Bytes)
    → IsCodec c
    → IsPayload c payload
    → decode b c (wire payload ++ rest) ≡ (decode_payload b c payload, rest)
unfolding decode
decode-wire b c payload rest hc hp = ground (
  arith,
  u32_at-wire payload rest (omega arith),
  length-append (wire payload) rest,
  length-wire payload,
  take-append (4 + length payload) (wire payload) rest,
  drop-append (4 + length payload) (wire payload) rest,
  drop_header payload,
)
