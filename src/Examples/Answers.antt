-- ===== src/Examples/Answers.antt =====
-- The theorems about sent frames and about the answers of registers and statistics at the concrete
-- device.
use ena.Base.{◌∷◌, [], true, false, ◌≡◌, Total, ◌==◌, ◌||◌, has}
use ena.Device.{EnaState, set_reg}
use ena.Device.Layout.{reg_mmio_resp_lo}
use ena.Reset.{zero_meta}
use ena.Examples.{ready}
use ena.Tx.{EnaTxPkt}
use ena.Regs.{mmio_readless}
use ena.Regs.Readless.{Answered, resp_addr, wanted, mmio_readless_lem}
use ena.Admin.GetFeature.{get_stats}
use ena.Admin.GetFeature.Stats.{StatsAnswered, get_stats_lem}

-- A packet of one buffer of 60 bytes
abbrev pub packet60 : EnaTxPkt
packet60 = record {
  desc =
      record { len_ctrl = 60; meta_ctrl = 0; buff_addr_lo = 16384; buff_addr_hi_hdr_sz = 0 } ∷ [];
  slots = 1;
  have_meta = false;
  tx_meta = zero_meta;
}

-- The device with a response address, and a request with id 5 for the register at offset 4
abbrev answering : EnaState
answering = set_reg ready reg_mmio_resp_lo 4096

mmio_readless_lem_example :
    ((resp_addr answering == 0 || has (wanted 0x40005) 3) ≡ false
      → Answered answering 0x40005 (mmio_readless answering 0x40005))
    × ((resp_addr answering == 0 || has (wanted 0x40005) 3) ≡ true
        → mmio_readless answering 0x40005 ≡ answering)
mmio_readless_lem_example = mmio_readless_lem answering 0x40005

get_stats_lem_example : Total (λ r. (r.0 ≡ ready) × StatsAnswered ready [] r) (get_stats ready [])
get_stats_lem_example = get_stats_lem ready []
