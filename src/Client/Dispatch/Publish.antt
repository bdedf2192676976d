-- ===== src/Client/Dispatch/Publish.antt =====
-- The frame that the bus delivers, read back by the daemon's own reader.
use boardcommd.Base.{◌<◌, ◌≡◌, refl, ◌++◌, Bytes, length, take_all, arith}
use boardcommd.Types.{Message, IsMessage, done}
use boardcommd.Bus.Deliver.{deliver_header, deliver_frame}
use boardcommd.Client.Frame.{Request, parse_frame}
use boardcommd.Client.Frame.RoundTrip.{IsRequest, parse_frame-frame_of}
use boardcommd.Client.Dispatch.{published}

pub deliver_header-IsRequest :
    (m : Message)
    → IsMessage m
    → 0 < length m.topic
    → IsRequest (deliver_header m) m.channel m.topic m.payload
deliver_header-IsRequest m v ne =
    let c = v.channel_text.fits in
    let t = v.topic_text.fits in
    record {
      magic_is = refl;
      version_is = refl;
      type_fits = omega arith;
      dst_fits = v.dst_node_fits;
      qos_fits = v.qos_fits;
      flags_fit = v.flags_fit;
      seq_fits = v.seq_fits;
      channel_is = omega arith;
      topic_is = omega arith;
      payload_is = omega (arith, v);
      channel_text = v.channel_text;
      topic_text = v.topic_text;
      topic_some = ne;
      payload_fits = v.payload_fits;
    }

-- A message within the limits of the C types, with a topic, is read from the frame that
-- `bc_message_bus_deliver_local` builds for it, whatever bytes follow: `process_frame_buffer`
-- accepts the frame, and as a publication it is the same message, without its source node.
pub parse_frame-deliver_frame :
    (m : Message) (rest : Bytes)
    → IsMessage m
    → 0 < length m.topic
    → (r : Request) × (parse_frame (deliver_frame m ++ rest) ≡ done r)
      × (published r ≡ record m { src_node = 0 })
unfolding deliver_frame
parse_frame-deliver_frame m rest v ne =
    let c = v.channel_text.fits in
    let t = v.topic_text.fits in
    let r : Request = record {
      header = deliver_header m;
      channel = m.channel;
      topic = m.topic;
      payload = m.payload;
    } in
    let (parsed, _) =
      parse_frame-frame_of (deliver_header m) m.channel m.topic m.payload rest
        (deliver_header-IsRequest m v ne) in
    (
      r,
      rw (take_all 32 m.channel (omega arith), take_all 64 m.topic (omega arith)) parsed,
      rw (take_all 31 m.channel (omega arith), take_all 63 m.topic (omega arith)) refl,
    )
