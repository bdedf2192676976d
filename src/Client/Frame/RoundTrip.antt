-- ===== src/Client/Frame/RoundTrip.antt =====
-- A frame that is built as `bc_ipc_header_t` says, read by the daemon.
use boardcommd.Base.{
  ℕ, ◌+◌, ◌<◌, ◌≤◌, ◌≡◌, refl, sym, ap, ◌∙◌, ◌++◌, Bytes, ◌==◌, ltb, leb, length, length-append,
  take, drop, cstr_of_no_nul, arith, append_assoc, append-nil, [], true, false, ◌||◌, take-append,
  drop-append, IsText, u16_mod, u32_mod,
}
use boardcommd.Types.{done}
use boardcommd.Ipc.{
  IpcHeader, ipc_header_size, ipc_magic, ipc_version, put_ipc_header, length-put_ipc_header,
}
use boardcommd.Client.Frame.{get_ipc_header, request_of, parse_frame, next_frame}

-- A header as the client library and the daemon fill it in, for texts that fit.
pub record IsRequest (h : IpcHeader) (channel topic payload : Bytes) : Type 0 where
  pub magic_is : h.magic ≡ ipc_magic
  pub version_is : h.version ≡ ipc_version
  pub type_fits : h.type < u16_mod
  pub dst_fits : h.dst_node < u32_mod
  pub qos_fits : h.qos < u16_mod
  pub flags_fit : h.flags < u16_mod
  pub seq_fits : h.seq < u32_mod
  pub channel_is : h.channel_len ≡ length channel
  pub topic_is : h.topic_len ≡ length topic
  pub payload_is : h.payload_len ≡ length payload
  pub channel_text : IsText 32 channel
  pub topic_text : IsText 64 topic
  pub topic_some : 0 < length topic
  pub payload_fits : length payload ≤ 1400

pub get_ipc_header-put_ipc_header :
    (h : IpcHeader) (channel topic payload rest : Bytes)
    → IsRequest h channel topic payload
    → get_ipc_header (put_ipc_header h ++ rest) ≡ h
unfolding get_ipc_header put_ipc_header
get_ipc_header-put_ipc_header h channel topic payload rest v =
    ground (arith, v, v.channel_text.fits, v.topic_text.fits)

pub get_ipc_header-put_ipc_header_only :
    (h : IpcHeader) (channel topic payload : Bytes)
    → IsRequest h channel topic payload
    → get_ipc_header (put_ipc_header h) ≡ h
get_ipc_header-put_ipc_header_only h channel topic payload v =
    ap get_ipc_header (sym (append-nil (put_ipc_header h)))
    ∙ get_ipc_header-put_ipc_header h channel topic payload [] v

-- the bytes of a request
abbrev pub frame_of : IpcHeader → Bytes → Bytes → Bytes → Bytes
frame_of h channel topic payload = put_ipc_header h ++ (channel ++ (topic ++ payload))

pub frame_of-append :
    (h : IpcHeader) (channel topic payload rest : Bytes)
    → frame_of h channel topic payload ++ rest
      ≡ put_ipc_header h ++ (channel ++ (topic ++ (payload ++ rest)))
frame_of-append h channel topic payload rest =
    append_assoc (put_ipc_header h) _ rest
    ∙ ap (λ x. put_ipc_header h ++ x)
        (append_assoc channel _ rest ∙ ap (λ x. channel ++ x) (append_assoc topic payload rest))

pub length-frame_of :
    (h : IpcHeader) (channel topic payload : Bytes)
    → length (frame_of h channel topic payload)
      ≡ 28 + length channel + length topic + length payload
length-frame_of h channel topic payload = omega (
  arith,
  length-append (put_ipc_header h) (channel ++ (topic ++ payload)),
  length-append channel (topic ++ payload),
  length-append topic payload,
  length-put_ipc_header h,
)

request_of_lem :
    (h : IpcHeader) (channel topic payload rest : Bytes)
    → IsRequest h channel topic payload
    → request_of h (channel ++ (topic ++ (payload ++ rest)))
      ≡ record { header = h; channel = channel; topic = topic; payload = payload }
request_of_lem h channel topic payload rest v =
    let c : take h.channel_len (channel ++ (topic ++ (payload ++ rest))) ≡ channel =
      take-append channel _ h.channel_len v.channel_is in
    let d : drop h.channel_len (channel ++ (topic ++ (payload ++ rest)))
        ≡ topic ++ (payload ++ rest) =
      drop-append channel _ h.channel_len v.channel_is in
    let e : take h.topic_len (topic ++ (payload ++ rest)) ≡ topic =
      take-append topic _ h.topic_len v.topic_is in
    let n : h.channel_len + h.topic_len ≡ length (channel ++ topic) =
      omega (arith, v, length-append channel topic) in
    let f : drop (h.channel_len + h.topic_len) (channel ++ (topic ++ (payload ++ rest)))
        ≡ payload ++ rest =
      rw (sym (append_assoc channel topic (payload ++ rest)))
        (drop-append (channel ++ topic) _ _ n) in
    let g : take h.payload_len (payload ++ rest) ≡ payload =
      take-append payload rest h.payload_len v.payload_is in
    rw
      (
        c,
        d,
        e,
        f,
        g,
        cstr_of_no_nul channel v.channel_text.no_nul,
        cstr_of_no_nul topic v.topic_text.no_nul,
      )
      refl

length-frame :
    (h : IpcHeader) (channel topic payload rest : Bytes)
    → length (put_ipc_header h ++ (channel ++ (topic ++ (payload ++ rest))))
      ≡ 28 + length channel + length topic + length payload + length rest
length-frame h channel topic payload rest = omega (
  arith,
  length-append (put_ipc_header h) (channel ++ (topic ++ (payload ++ rest))),
  length-append channel (topic ++ (payload ++ rest)),
  length-append topic (payload ++ rest),
  length-append payload rest,
  length-put_ipc_header h,
)

pub header_size_lem : (version : ℕ) → version ≡ ipc_version → ipc_header_size version ≡ 28
unfolding ipc_header_size
header_size_lem version e = rw (e) refl

parse_lem :
    (h : IpcHeader) (channel topic payload bs : Bytes)
    → IsRequest h channel topic payload
    → get_ipc_header bs ≡ h
    → 28 + length channel + length topic + length payload ≤ length bs
    → parse_frame bs ≡ done (request_of h (drop 28 bs))
unfolding parse_frame
parse_lem h channel topic payload bs v g n =
    let size = header_size_lem h.version v.version_is in
    let c = v.channel_text.fits in
    let t = v.topic_text.fits in
    let t1 : ltb (length bs) 16 ≡ false = ground arith in
    let t2 : (h.magic == ipc_magic) ≡ true = ground (arith, v) in
    let t3 : ltb (length bs) 28 ≡ false = ground arith in
    let t4 : leb 32 h.channel_len
          || ((h.topic_len == 0) || (leb 64 h.topic_len || ltb 1400 h.payload_len))
        ≡ false =
      ground (arith, v) in
    let t5 : ltb (length bs) (28 + h.channel_len + h.topic_len + h.payload_len) ≡ false =
      ground (arith, v) in
    rw (g, size, t1, t2, t3, t4, t5) refl

next_lem :
    (h : IpcHeader) (channel topic payload bs : Bytes)
    → IsRequest h channel topic payload
    → get_ipc_header bs ≡ h
    → 28 + length channel + length topic + length payload ≤ length bs
    → next_frame bs ≡ done (28 + length channel + length topic + length payload)
unfolding next_frame
next_lem h channel topic payload bs v g n =
    let size = header_size_lem h.version v.version_is in
    let c = v.channel_text.fits in
    let t = v.topic_text.fits in
    let e : 28 + h.channel_len + h.topic_len + h.payload_len
        ≡ 28 + length channel + length topic + length payload =
      omega (arith, v) in
    let t1 : ltb (length bs) 16 ≡ false = ground arith in
    let t2 : (h.magic == ipc_magic) ≡ true = ground (arith, v) in
    let t3 : ltb 1524 (28 + length channel + length topic + length payload) ≡ false =
      ground (arith, v) in
    let t4 : ltb (length bs) (28 + length channel + length topic + length payload) ≡ false =
      ground arith in
    rw (g, size, e, t1, t2, t3, t4) refl

-- A request that is laid out as bc_ipc_header_t says, with texts that fit, is read by the daemon,
-- whatever bytes follow it: `process_one_message` finds its length, and `process_frame_buffer` its
-- header, channel, topic and payload.
pub parse_frame-put_ipc_header :
    (h : IpcHeader) (channel topic payload rest : Bytes)
    → IsRequest h channel topic payload
    → let bytes = put_ipc_header h ++ (channel ++ (topic ++ (payload ++ rest))) in
      (parse_frame bytes
        ≡ done (record { header = h; channel = channel; topic = topic; payload = payload }))
      × (next_frame bytes ≡ done (28 + length channel + length topic + length payload))
parse_frame-put_ipc_header h channel topic payload rest v =
    let n = length-frame h channel topic payload rest in
    let g =
      get_ipc_header-put_ipc_header h channel topic payload
        (channel ++ (topic ++ (payload ++ rest))) v in
    let d : drop 28 (put_ipc_header h ++ (channel ++ (topic ++ (payload ++ rest))))
        ≡ channel ++ (topic ++ (payload ++ rest)) =
      drop-append (put_ipc_header h) _ 28 (sym (length-put_ipc_header h)) in
    let r = request_of_lem h channel topic payload rest v in
    let m : 28 + length channel + length topic + length payload
        ≤ length (put_ipc_header h ++ (channel ++ (topic ++ (payload ++ rest)))) =
      omega (arith, n) in
    (
      parse_lem h channel topic payload _ v g m ∙ ap done (ap (request_of h) d ∙ r),
      next_lem h channel topic payload _ v g m,
    )

-- the same for the bytes of one request with others behind them
pub parse_frame-frame_of :
    (h : IpcHeader) (channel topic payload rest : Bytes)
    → IsRequest h channel topic payload
    → (parse_frame (frame_of h channel topic payload ++ rest)
        ≡ done (record { header = h; channel = channel; topic = topic; payload = payload }))
      × (next_frame (frame_of h channel topic payload ++ rest)
          ≡ done (length (frame_of h channel topic payload)))
parse_frame-frame_of h channel topic payload rest v =
    let same = frame_of-append h channel topic payload rest in
    let (parsed, next) = parse_frame-put_ipc_header h channel topic payload rest v in
    (
      ap parse_frame same ∙ parsed,
      ap next_frame same ∙ (next ∙ ap done (sym (length-frame_of h channel topic payload))),
    )
