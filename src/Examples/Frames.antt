-- ===== src/Examples/Frames.antt =====
-- The theorems about the RSS hash, the offloads and the IPv4 checksum of a frame at the concrete
-- device.
use ena.Base.{ℕ, ◌/◌, ◌%◌, ◌&&◌, List, replicate, arith, has}
use ena.Device.Layout.{tx_l3_csum_en, tx_l4_csum_en}
use ena.Examples.{still_host, ready}
use ena.Examples.Answers.{packet60}
use ena.Tx.Xmit.{tx_frame_protos, tx_send, tx_ip4_csum}
use ena.Tx.Sent.{asked, is_tso, granted}
use ena.Tx.OffloadBits.{has_l4_csum}
use ena.Tx.Offload.{Outgoing, tx_send_lem}
use ena.Tx.Checksum.{IsPatched, ip4_header, tx_ip4_csum_lem}

-- A frame of 60 bytes
abbrev bytes60 : List ℕ
bytes60 = replicate 60 69

tx_send_lem_example :
    Outgoing still_host ready bytes60 536
      (is_tso packet60)
      (has (asked packet60) tx_l3_csum_en && (tx_frame_protos still_host bytes60).0)
      (has (asked packet60) tx_l4_csum_en && has_l4_csum (tx_frame_protos still_host bytes60).1)
      (tx_send still_host ready bytes60 (granted still_host packet60 bytes60) 536)
tx_send_lem_example = tx_send_lem still_host ready bytes60 536 packet60

tx_ip4_csum_lem_example :
    (blank : List ℕ) × IsPatched bytes60 blank 24 0 0
    × (let sum = still_host.net_raw_checksum (ip4_header still_host 14 blank) in
        IsPatched bytes60 (tx_ip4_csum still_host bytes60) 24 (sum / 256 % 256) (sum % 256))
tx_ip4_csum_lem_example = tx_ip4_csum_lem still_host bytes60 (omega arith)
