-- ===== src/Codec/Scan.antt =====
-- `TunnelCodec::decode_data_frames_zerocopy` of ferrotunnel-protocol/src/codec.rs: the data frames of a
-- buffer, without copies and without the control frames. The loop takes fuel; every round that goes on
-- moves the offset, so the buffer's length and one more round are enough. The bytes from the offset on
-- are `here`.
use ferrotunnel.Base.{
  ℕ, zero, suc, ◌+◌, ◌≤◌, ◌<◌, ◌≡◌, refl, sym, ap, ◌∙◌, arith, List, [], ◌∷◌, ◌++◌, length, take,
  drop, get_or, Option, none, some, Bool, ltb, eqb, ◌||◌, ◌&&◌, if◌then◌else◌, Result, ok, err,
  length-append, append_assoc, append-nil, drop-append, drop-drop, take-append, get_or-append,
}
use ferrotunnel.Base.Words.{u32_at, put_u32, IsU32}
use ferrotunnel.Frame.{Bytes, Frame, data_frame, ZeroCopyFrame, data_view}
use ferrotunnel.Codec.{
  TunnelCodec, CodecError, invalid_length, payload_too_short, header_size, frame_type_data,
  frame_type_control, has_eos, decode, decode_payload, decode_data,
}
use ferrotunnel.Codec.External.{Bincode}
use ferrotunnel.Codec.Wire.{IsCodec, IsPayload, wire, u32_at-wire, length-wire}
use ferrotunnel.Codec.RoundTrip.{encode-Encoded, frame_type_of}
use ferrotunnel.Codec.Batch.{Encodes, decode_batch, decode_batch-Encodes}
use ferrotunnel.Codec.Progress.{u32_at-append, decode_payload-ne-none}

-- The result, and `out`.
abbrev pub Scanned : Type 0
Scanned = Result CodecError ℕ × List ZeroCopyFrame

module _ (c : TunnelCodec) (buf : Bytes) where
  unfoldable pub scan_loop : ℕ → ℕ → List ZeroCopyFrame → Option Scanned
  scan_loop zero offset out = none
  scan_loop (suc fuel) offset out =
      let here = drop offset buf in
      let len = u32_at here 0 in
      let total_size = 4 + len in
      let is_data = eqb (get_or here 4 0) frame_type_data in
      let frame =
        data_view (u32_at here 5) (drop 10 (take total_size here)) (has_eos (get_or here 9 0)) in
      let rest =
        scan_loop fuel (offset + total_size) (if is_data then out ++ frame ∷ [] else out) in
      if ltb (length buf) (offset + header_size)
      then some (ok offset, out)
      else if eqb len 0 || ltb c.max_frame_size len
      then some (err (invalid_length len), out)
      else if ltb (length buf) (offset + total_size)
      then some (ok offset, out)
      else if is_data && ltb len 6
      then some (err payload_too_short, out)
      else rest

  unfoldable pub decode_data_frames_zerocopy : List ZeroCopyFrame → Option Scanned
  decode_data_frames_zerocopy out = scan_loop (suc (length buf)) 0 out

-- The data frames among some frames.
abbrev pub data_views : List Frame → List ZeroCopyFrame
data_views [] = []
data_views (data_frame stream_id bytes fin ∷ frames) =
    data_view stream_id bytes fin ∷ data_views frames
data_views (_ ∷ frames) = data_views frames

-- What the scan reads of a whole frame at the front of a buffer.
wire_reads :
    (frame_type : ℕ) (body more : Bytes)
    → IsU32 (suc (length body))
    → let here = wire (frame_type ∷ body) ++ more in
      (u32_at here 0 ≡ suc (length body))
      × (get_or here 4 0 ≡ frame_type)
      × (u32_at here 5 ≡ u32_at (body ++ more) 0)
      × (drop 10 (take (4 + suc (length body)) here) ≡ drop 5 body)
      × (get_or here 9 0 ≡ get_or (body ++ more) 4 0)
      × (drop (4 + suc (length body)) here ≡ more)
unfolding put_u32 u32_at
wire_reads frame_type body more h =
    let frame = wire (frame_type ∷ body) in
    let size : 4 + suc (length body) ≡ length frame = omega arith in
    (
      omega (arith, u32_at-wire (frame_type ∷ body) more (omega arith)),
      refl,
      refl,
      ap (drop 10) (take-append (4 + suc (length body)) frame more size),
      refl,
      drop-append (4 + suc (length body)) frame more size,
    )

data_fields :
    (b : Bincode) (c : TunnelCodec) (id : ℕ) (bytes body : Bytes) (fin : Bool)
    → decode_payload b c (frame_type_data ∷ body) ≡ ok (some (data_frame id bytes fin))
    → (5 ≤ length body)
      × (data_view id bytes fin
          ≡ data_view (u32_at body 0) (drop 5 body) (has_eos (get_or body 4 0)))
unfolding decode_payload decode_data
data_fields b c id bytes body fin h = ground arith

module _ (b : Bincode) (c : TunnelCodec) (buf : Bytes) where
  -- A round of the loop at a whole frame.
  module _ (k offset : ℕ) (out : List ZeroCopyFrame) (frame_type : ℕ) (body more : Bytes)
      (hc : IsCodec c) (he : drop offset buf ≡ wire (frame_type ∷ body) ++ more)
      (hl : offset + (5 + length body) ≤ length buf) (hm : 1 + length body ≤ c.max_frame_size) where
    scan_data :
        frame_type ≡ frame_type_data
        → 5 ≤ length body
        → scan_loop c buf (suc k) offset out
          ≡ scan_loop c buf k
              (offset + (4 + suc (length body)))
              (out ++ data_view (u32_at body 0) (drop 5 body) (has_eos (get_or body 4 0)) ∷ [])
    unfolding scan_loop
    scan_data ht long = ground (
      arith,
      he,
      wire_reads frame_type body more (omega arith),
      u32_at-append body more,
      get_or-append body more 4 0,
    )

    scan_control :
        frame_type ≡ frame_type_control
        → scan_loop c buf (suc k) offset out
          ≡ scan_loop c buf k (offset + (4 + suc (length body))) out
    unfolding scan_loop
    scan_control ht = ground (arith, he, wire_reads frame_type body more (omega arith))

  scan_frame :
      (k offset : ℕ) (out : List ZeroCopyFrame) (f : Frame) (payload more : Bytes)
      → IsCodec c
      → drop offset buf ≡ wire payload ++ more
      → offset + (4 + length payload) ≤ length buf
      → IsPayload c payload
      → get_or payload 0 0 ≡ frame_type_of f
      → decode_payload b c payload ≡ ok (some f)
      → scan_loop c buf (suc k) offset out
        ≡ scan_loop c buf k (offset + (4 + length payload)) (out ++ data_views (f ∷ []))
  scan_frame k offset out f [] more hc he hl hp ht hd = absurd (omega arith)
  scan_frame k offset out (data_frame id bytes fin) (t ∷ body) more hc he hl hp ht hd =
      let (long, same) =
        data_fields b c id bytes body fin (ap (λ u. decode_payload b c (u ∷ body)) (sym ht) ∙ hd) in
      rw same (scan_data k offset out t body more hc he (omega arith) (omega arith) ht long)
  scan_frame k offset out f (t ∷ body) more hc he hl hp ht hd =
      rw (append-nil out)
        (scan_control k offset out t body more hc he (omega arith) (omega arith) ht)

  -- The scan stops where `decode` waits.
  scan_tail :
      (k offset : ℕ) (out : List ZeroCopyFrame) (tail : Bytes)
      → drop offset buf ≡ tail
      → offset + length tail ≡ length buf
      → decode b c tail ≡ (ok none, tail)
      → scan_loop c buf (suc k) offset out ≡ some (ok offset, out)
  unfolding scan_loop decode
  scan_tail k offset out tail he hl hd =
      ground (arith, he, decode_payload-ne-none b c (drop 4 (take (4 + u32_at tail 0) tail)))

  data_views-cons :
      (f : Frame) (fs : List Frame) → data_views (f ∷ fs) ≡ data_views (f ∷ []) ++ data_views fs
  data_views-cons (data_frame id bytes fin) fs = refl
  data_views-cons f fs = refl

  scan_loop-Encodes :
      (k offset : ℕ) (fs : List Frame) (bytes tail : Bytes) (out : List ZeroCopyFrame)
      → length (bytes ++ tail) < k
      → IsCodec c
      → drop offset buf ≡ bytes ++ tail
      → offset + length (bytes ++ tail) ≡ length buf
      → Encodes b c fs bytes
      → decode b c tail ≡ (ok none, tail)
      → scan_loop c buf k offset out ≡ some (ok (offset + length bytes), out ++ data_views fs)
  scan_loop-Encodes zero offset fs bytes tail out hk hc he hl h ht = absurd (omega arith)
  scan_loop-Encodes (suc k) offset [] bytes tail out hk hc he hl h ht =
      ground (arith, scan_tail k offset out tail, append-nil out)
  scan_loop-Encodes (suc k) offset (f ∷ fs) bytes tail out hk hc he hl
        (one, more, split, hs, enc, rest) ht =
      let w = encode-Encoded b c f [] one hc hs enc in
      let step = 4 + length w.payload in
      let whole : bytes ++ tail ≡ wire w.payload ++ (more ++ tail) =
        ap (λ front. front ++ tail) (split ∙ ap (λ front. front ++ more) w.written)
        ∙ append_assoc (wire w.payload) more tail in
      let sizes = length-append (wire w.payload) (more ++ tail) in
      let size = length-wire w.payload in
      let total : length (bytes ++ tail) ≡ step + length (more ++ tail) =
        omega (arith, ap length whole, sizes, size) in
      let next : drop (offset + step) buf ≡ more ++ tail =
        sym (drop-drop offset step buf)
        ∙ ap (drop step) (he ∙ whole)
        ∙ drop-append step (wire w.payload) (more ++ tail) (sym size) in
      let views_f = data_views (f ∷ []) in
      let regroup : (out ++ views_f) ++ data_views fs ≡ out ++ data_views (f ∷ fs) =
        append_assoc out views_f (data_views fs)
        ∙ ap (λ views. out ++ views) (sym (data_views-cons f fs)) in
      let consumed : offset + step + length more ≡ offset + length bytes =
        omega (arith, ap length split, ap length w.written, size, length-append one more) in
      scan_frame k offset out f w.payload (more ++ tail) hc (he ∙ whole) (omega (arith, total))
        w.fits w.typed w.decodes
      ∙ scan_loop-Encodes k (offset + step) fs more tail (out ++ views_f) (omega (arith, total)) hc
          next (omega (arith, total)) rest ht
      ∙ ap (λ n. some (ok n, (out ++ views_f) ++ data_views fs)) consumed
      ∙ ap (λ views. some (ok (offset + length bytes), views)) regroup

-- On frames that `encode` wrote, with the beginning of another behind them, the scan finds exactly the
-- data frames, in order and with their payloads, and consumes the frames' bytes: it sees what
-- `decode_batch` does, less the control frames. The codec is within the frame ceiling, and the frames
-- are ones that their receiver accepts.
pub decode_data_frames_zerocopy-Encodes :
    (b : Bincode) (c : TunnelCodec) (fs : List Frame) (bytes tail : Bytes)
    (out : List ZeroCopyFrame)
    → IsCodec c
    → Encodes b c fs bytes
    → decode b c tail ≡ (ok none, tail)
    → (decode_data_frames_zerocopy c (bytes ++ tail) out
        ≡ some (ok (length bytes), out ++ data_views fs))
      × (decode_batch b c (bytes ++ tail) [] ≡ some (ok (length bytes), tail, fs))
unfolding decode_data_frames_zerocopy
decode_data_frames_zerocopy-Encodes b c fs bytes tail out hc h ht = (
  scan_loop-Encodes b c (bytes ++ tail) (suc (length (bytes ++ tail))) 0 fs bytes tail out
        (omega arith) hc refl (omega arith) h ht
      ∙ ap (λ n. some (ok n, out ++ data_views fs)) (omega arith),
  decode_batch-Encodes b c fs bytes tail [] hc h ht,
)
