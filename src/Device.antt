-- ===== src/Device.antt =====
-- The state of the device and its limits (hw/ena.h), and the helpers over it of hw/ena.c.
pub mod Layout
use ena.Base.{ℕ, ◌+◌, ◌*◌, ◌/◌, ◌^◌, Bool, List, ◌∷◌, update, le16, le32}
use ena.Host.{Event, dma_write, Host}

abbrev pub max_io_queues : ℕ
max_io_queues = 8

abbrev pub max_sq : ℕ
max_sq = 16

abbrev pub max_cq : ℕ
max_cq = 16

abbrev pub msix_vectors : ℕ
msix_vectors = 9

abbrev pub admin_msix_vector : ℕ
admin_msix_vector = 0

abbrev pub msix_vector_none : ℕ
msix_vector_none = 0xffffffff

abbrev pub max_queue_depth : ℕ
max_queue_depth = 1024

abbrev pub max_cq_entry_size : ℕ
max_cq_entry_size = 32

abbrev pub min_queue_depth : ℕ
min_queue_depth = 16

abbrev pub max_tx_header_size : ℕ
max_tx_header_size = 96

abbrev pub max_pkt_descs : ℕ
max_pkt_descs = 17

abbrev pub max_mtu : ℕ
max_mtu = 9000

abbrev pub min_mtu : ℕ
min_mtu = 128

abbrev pub dma_addr_width : ℕ
dma_addr_width = 48

abbrev pub rss_ind_tbl_log_size : ℕ
rss_ind_tbl_log_size = 7

abbrev pub rss_ind_tbl_size : ℕ
rss_ind_tbl_size = 128

abbrev pub link_speed_mbps : ℕ
link_speed_mbps = 10000

abbrev pub keep_alive_interval_ms : ℕ
keep_alive_interval_ms = 1000

abbrev pub os_dpdk : ℕ
os_dpdk = 3

abbrev pub reg_file_size : ℕ
reg_file_size = 0x70

abbrev pub reg_sq_db_base : ℕ
reg_sq_db_base = 0x1000

abbrev pub reg_cq_unmask_base : ℕ
reg_cq_unmask_base = 0x2000

abbrev pub llq_entry_size_128 : ℕ
llq_entry_size_128 = 128

abbrev pub llq_large_entry_size : ℕ
llq_large_entry_size = 256

abbrev pub llq_descs_before_header : ℕ
llq_descs_before_header = 2

abbrev pub llq_queue_bytes : ℕ
llq_queue_bytes = 131072

-- `EnaCq`: a completion queue. `msix_vector` is any 32-bit number; only 1..8 raise an interrupt.
pub record EnaCq : Type 0 where
  pub used : Bool
  pub base : ℕ
  pub depth : ℕ
  pub entry_size : ℕ
  pub intr_enabled : Bool
  pub msix_vector : ℕ
  pub tail : ℕ
  pub phase : Bool

-- `EnaIrq`, with the timer object of `moder_timer` named by its vector.
pub record EnaIrq : Type 0 where
  pub unmasked : Bool
  pub rx_pending : Bool
  pub tx_pending : Bool
  pub rx_delay_us : ℕ
  pub tx_delay_us : ℕ
  pub vector : ℕ

pub record EnaTxMeta : Type 0 where
  pub mss : ℕ
  pub l3_hdr_len : ℕ
  pub l3_hdr_off : ℕ
  pub l4_hdr_len_words : ℕ

-- `EnaSq`: a submission queue.
pub record EnaSq : Type 0 where
  pub used : Bool
  pub is_tx : Bool
  pub llq : Bool
  pub cq_idx : ℕ
  pub base : ℕ
  pub depth : ℕ
  pub entry_size : ℕ
  pub head : ℕ
  pub tail : ℕ
  pub tx_meta : EnaTxMeta

-- `EnaRss`. A fixed-size array is a function of its index.
pub record EnaRss : Type 0 where
  pub key : ℕ → ℕ
  pub key_parts : ℕ
  pub init_val : ℕ
  pub fields : ℕ → ℕ
  pub ind_tbl : ℕ → ℕ

-- `EnaState`, less the QEMU objects, whose calls are in `trace`. `macaddr` is `conf.macaddr.a`.
pub record EnaState : Type 0 where
  pub reg : ℕ → ℕ
  pub aq_head : ℕ
  pub acq_tail : ℕ
  pub acq_phase : Bool
  pub aenq_tail : ℕ
  pub aenq_phase : Bool
  pub aenq_groups : ℕ
  pub mtu : ℕ
  pub host_info_addr : ℕ
  pub debug_area_addr : ℕ
  pub debug_area_size : ℕ
  pub llq_enabled : Bool
  pub llq_entry_size : ℕ
  pub llq_large : Bool
  pub rss : EnaRss
  pub sq : ℕ → EnaSq
  pub cq : ℕ → EnaCq
  pub irq : ℕ → EnaIrq
  pub tx_pkts : ℕ
  pub tx_bytes : ℕ
  pub rx_pkts : ℕ
  pub rx_bytes : ℕ
  pub rx_drops : ℕ
  pub tx_drops : ℕ
  pub macaddr : List ℕ
  pub trace : List Event

-- `REG(s, off)`
abbrev pub get_reg : EnaState → ℕ → ℕ
get_reg s off = s.reg (off / 4)

abbrev pub set_reg : EnaState → ℕ → ℕ → EnaState
set_reg s off v = record s { reg = update s.reg (off / 4) v }

abbrev pub set_sq : EnaState → ℕ → EnaSq → EnaState
set_sq s i q = record s { sq = update s.sq i q }

abbrev pub set_cq : EnaState → ℕ → EnaCq → EnaState
set_cq s i q = record s { cq = update s.cq i q }

abbrev pub set_irq : EnaState → ℕ → EnaIrq → EnaState
set_irq s i q = record s { irq = update s.irq i q }

abbrev pub log : EnaState → Event → EnaState
log s e = record s { trace = e ∷ s.trace }

-- `ena_mem_addr` of the address at offset `o`: a 32-bit low part and a 16-bit high part.
unfoldable pub mem_addr : List ℕ → ℕ → ℕ
mem_addr b o = le16 b (o + 4) * 2 ^ 32 + le32 b o

abbrev pub dma_read : Host → EnaState → ℕ → ℕ → Bool × List ℕ
dma_read host s addr len = host.dma_read s.trace addr len

abbrev pub dma_write_bytes : EnaState → ℕ → List ℕ → EnaState
dma_write_bytes s addr b = log s (dma_write addr b)

-- `ena_stats_reset`
unfoldable pub stats_reset : EnaState → EnaState
stats_reset s = record s {
  tx_pkts = 0;
  tx_bytes = 0;
  rx_pkts = 0;
  rx_bytes = 0;
  rx_drops = 0;
  tx_drops = 0;
}
