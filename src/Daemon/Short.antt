-- ===== src/Daemon/Short.antt =====
-- The main loop of server/gld.c on a datagram that holds no more than the field `crc`.
use x_grey.Prelude.{◌^◌, ◌≤◌, ◌<◌, ◌≡◌, refl, length, abort}
use x_grey.Crc.Signed.{packet_crc_short}
use x_grey.Server.{Server}
use x_grey.Server.Packet.{Request}
use x_grey.Daemon.{Setup, Host, handle_packet}

-- A datagram of at most four bytes takes the process down, whatever the state, the secret and the
-- contents of the receive buffer are.
pub handle_packet_short :
    (g : Setup) (h : Host) (req : Request) (s : Server)
    → req.size ≤ 4
    → length req.buffer < 2 ^ 63
    → handle_packet g h req s ≡ abort
unfolding handle_packet
handle_packet_short g h req s short fits =
    rw (packet_crc_short g.secret req.buffer req.size short fits) refl
