-- ===== src/Api/Build.antt =====
-- A frame of the client library, read by the daemon.
use boardcommd.Base.{
  ℕ, ◌+◌, ◌<◌, ◌≤◌, ◌≡◌, refl, ◌++◌, Bytes, ◌==◌, ltb, leb, length, take_all, arith, false, IsText,
  Option, some, u16_mod, u32_mod,
}
use boardcommd.Types.{Message, done}
use boardcommd.Ipc.{put_ipc_header}
use boardcommd.Client.Frame.{Request, parse_frame, next_frame}
use boardcommd.Client.Frame.RoundTrip.{IsRequest, parse_frame-frame_of}
use boardcommd.Client.Dispatch.{published}
use boardcommd.Api.{Opts, opts_of, text_of, header_of, build_ipc_frame, frame_cap}

-- What a caller may pass: texts that the arrays can hold, a payload of at most 1400 bytes, and
-- options of their C types.
pub record IsCall (type : ℕ) (channel : Option Bytes) (topic payload : Bytes) (opts : Option Opts)
    : Type 0 where
  pub type_fits : type < u16_mod
  pub channel_text : IsText 32 (text_of channel)
  pub topic_text : IsText 64 topic
  pub topic_some : 0 < length topic
  pub payload_fits : length payload ≤ 1400
  pub dst_fits : (opts_of opts).dst_node < u32_mod
  pub qos_fits : (opts_of opts).qos < u16_mod
  pub flags_fit : (opts_of opts).flags < u16_mod

-- the frame for a call
abbrev pub call_frame : ℕ → Option Bytes → Bytes → Bytes → Option Opts → Bytes
call_frame type channel topic payload opts =
    put_ipc_header (header_of type (text_of channel) topic (length payload) (opts_of opts))
    ++ (text_of channel ++ (topic ++ payload))

pub build_lem :
    (type : ℕ) (channel : Option Bytes) (topic payload : Bytes) (opts : Option Opts)
    → IsCall type channel topic payload opts
    → build_ipc_frame frame_cap type channel (some topic) payload opts
      ≡ done (call_frame type channel topic payload opts)
unfolding build_ipc_frame
build_lem type channel topic payload opts v =
    let c = v.channel_text.fits in
    let t = v.topic_text.fits in
    let t1 : (length topic == 0) ≡ false = ground (arith, v.topic_some) in
    let t2 : ltb 1400 (length payload) ≡ false = ground (arith, v.payload_fits) in
    let t3 : leb 64 (length topic) ≡ false = ground arith in
    let t4 : leb 32 (length (text_of channel)) ≡ false = ground arith in
    let t5 : ltb frame_cap (28 + length (text_of channel) + length topic + length payload) ≡ false =
      ground (arith, v.payload_fits) in
    rw (t1, t2, t3, t4, t5) refl

pub header_of-IsRequest :
    (type : ℕ) (channel : Option Bytes) (topic payload : Bytes) (opts : Option Opts)
    → IsCall type channel topic payload opts
    → IsRequest
        (header_of type (text_of channel) topic (length payload) (opts_of opts))
        (text_of channel)
        topic
        payload
header_of-IsRequest type channel topic payload opts v =
    let c = v.channel_text.fits in
    let t = v.topic_text.fits in
    record {
      magic_is = refl;
      version_is = refl;
      type_fits = v.type_fits;
      dst_fits = v.dst_fits;
      qos_fits = v.qos_fits;
      flags_fit = v.flags_fit;
      seq_fits = omega arith;
      channel_is = omega arith;
      topic_is = omega arith;
      payload_is = omega (arith, v.payload_fits);
      channel_text = v.channel_text;
      topic_text = v.topic_text;
      topic_some = v.topic_some;
      payload_fits = v.payload_fits;
    }

-- What the daemon publishes for a call of `bc_write_ex`.
abbrev pub message_of : Option Bytes → Bytes → Bytes → Option Opts → Message
message_of channel topic payload opts = record {
  src_node = 0;
  dst_node = (opts_of opts).dst_node;
  flags = (opts_of opts).flags;
  qos = (opts_of opts).qos;
  seq = 0;
  channel = text_of channel;
  topic = topic;
  payload = payload;
}

-- A call of the client library within the limits makes a frame that the daemon reads as what was
-- meant, whatever bytes follow it: `build_ipc_frame` returns BC_OK, `process_one_message` takes
-- exactly the bytes of the frame, and `process_frame_buffer` finds the type of the call and a
-- message with its channel, topic, payload and options.
pub parse_frame-build_ipc_frame :
    (type : ℕ) (channel : Option Bytes) (topic payload rest : Bytes) (opts : Option Opts)
    → IsCall type channel topic payload opts
    → (f : Bytes) × (r : Request) × (build_ipc_frame frame_cap type channel
          (some topic)
          payload
          opts
        ≡ done f)
      × (next_frame (f ++ rest) ≡ done (length f))
      × (parse_frame (f ++ rest) ≡ done r)
      × (r.header.type ≡ type)
      × (published r ≡ message_of channel topic payload opts)
parse_frame-build_ipc_frame type channel topic payload rest opts v =
    let h = header_of type (text_of channel) topic (length payload) (opts_of opts) in
    let c = v.channel_text.fits in
    let t = v.topic_text.fits in
    let (parsed, next) =
      parse_frame-frame_of h (text_of channel) topic payload rest
        (header_of-IsRequest type channel topic payload opts v) in
    (
      call_frame type channel topic payload opts,
      record { header = h; channel = text_of channel; topic = topic; payload = payload },
      build_lem type channel topic payload opts v,
      next,
      parsed,
      refl,
      rw (take_all 31 (text_of channel) (omega arith), take_all 63 topic (omega arith)) refl,
    )
