-- ===== src/Discovery/Packet.antt =====
-- internal/discovery/packet.go, and the filter of the loop of internal/discovery/listener.go.
use we_sync.Base.{ℕ, not, ◌||◌, Option, none, some, String, if◌then◌else◌, ◌is◌, ◌==◌}
use we_sync.Node.Peer.{Peer, zero_peer}

abbrev pub protocol_version : ℕ
protocol_version = 1

abbrev pub packet_type_announce : String
packet_type_announce = "announce"

abbrev pub app_id : String
app_id = "wesync"

pub record Packet : Type 0 where
  pub version : ℕ
  pub app : String
  pub kind : String  -- `Type`
  pub port : ℕ
  pub sid : String

-- What `Announcer.send` broadcasts.
unfoldable pub announce_packet : String → ℕ → Packet
announce_packet sid port = record {
  version = protocol_version;
  app = app_id;
  kind = packet_type_announce;
  port = port;
  sid = sid;
}

-- What `Listener.Run` makes of a datagram that decodes to `pkt` and comes from `src`.
unfoldable pub heard : String → Packet → String → Option Peer
heard self_sid pkt src =
    if not (pkt.version == protocol_version)
      || not (pkt.app is app_id)
      || not (pkt.kind is packet_type_announce)
    then none
    else if (pkt.sid is "") || (pkt.sid is self_sid)
    then none
    else some (record zero_peer { sid = pkt.sid; addr = src; port = pkt.port })
