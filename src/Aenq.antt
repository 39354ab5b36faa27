-- ===== src/Aenq.antt =====
-- The asynchronous event queue of hw/ena.c: posting an event, link changes and keep-alives.
pub mod Ring
pub mod Events
pub mod KeepAlive
use ena.Base.{
  ℕ, ◌+◌, ◌-◌, ◌*◌, ◌/◌, ◌%◌, ◌^◌, bit_and, Bool, true, false, not, ◌||◌, List, [], ◌∷◌, ◌++◌,
  Outcome, ok, check, ◌>>=◌, ◌>>◌, u16, u64, sub16, leb, ltb, ◌==◌, has, if◌then◌else◌, length,
  replicate, bytes16, bytes32,
}
use ena.Host.{timer_mod, timer_del, keep_alive, Host}
use ena.Device.{EnaState, get_reg, set_reg, log, dma_write_bytes, keep_alive_interval_ms}
use ena.Device.Layout.{
  reg_aenq_base_hi, reg_aenq_base_lo, reg_aenq_caps, reg_aenq_head_db, reg_aenq_tail, caps_depth,
}
use ena.Irq.{admin_intr}

abbrev pub aenq_link_change : ℕ
aenq_link_change = 0

abbrev pub aenq_keep_alive : ℕ
aenq_keep_alive = 4

abbrev pub to_bit : Bool → ℕ
to_bit true = 1
to_bit false = 0

-- `hi << 32 | lo` of two registers
abbrev pub reg_addr : EnaState → ℕ → ℕ → ℕ
reg_addr s hi lo = get_reg s hi * 2 ^ 32 + get_reg s lo

-- `aenq_tail` and `aenq_phase` after one entry more
unfoldable pub aenq_advance : EnaState → ℕ → EnaState
aenq_advance s depth =
    let tail' = u16 (s.aenq_tail + 1) in
    set_reg
      (record s {
        aenq_tail = tail';
        aenq_phase = if tail' % depth == 0 then not s.aenq_phase else s.aenq_phase;
      })
      reg_aenq_tail tail'

module _ (host : Host) where
  -- The 64 bytes of `struct ena_admin_aenq_entry`
  unfoldable pub aenq_entry : EnaState → ℕ → ℕ → List ℕ → List ℕ
  aenq_entry s group syndrome payload =
      bytes16 group
      ++ bytes16 syndrome
      ++ (to_bit s.aenq_phase ∷ 0 ∷ 0 ∷ 0 ∷ [])
      ++ bytes32 (host.clock_us s.trace)
      ++ bytes32 (host.clock_us s.trace / 2 ^ 32)
      ++ payload
      ++ replicate (48 - length payload) 0

  -- `ena_aenq_post`
  unfoldable pub aenq_post : EnaState → ℕ → ℕ → List ℕ → Outcome EnaState
  aenq_post s group syndrome payload = do
    let base = reg_addr s reg_aenq_base_hi reg_aenq_base_lo
    let depth = u16 (bit_and (get_reg s reg_aenq_caps) caps_depth)
    let head_db = u16 (get_reg s reg_aenq_head_db)
    check (leb (length payload) 48)
    if base == 0 || depth == 0 || not (has s.aenq_groups (2 ^ group))
        then ok s
        else if ltb depth (sub16 head_db s.aenq_tail)
        then ok s
        else if head_db == s.aenq_tail
        then ok s
        else ok (
            admin_intr (
              aenq_advance
                (dma_write_bytes s (u64 (base + s.aenq_tail % depth * 64))
                  (aenq_entry s group syndrome payload))
                depth))

  -- `ena_post_link_change`
  unfoldable pub post_link_change : EnaState → Outcome EnaState
  post_link_change s =
      aenq_post s aenq_link_change 0 (bytes32 (if host.link_down s.trace then 0 else 1))

  unfoldable pub arm_keep_alive : EnaState → EnaState
  arm_keep_alive s = log s (timer_mod keep_alive (host.clock_ms s.trace + keep_alive_interval_ms))

  -- The 24 bytes that `ena_keep_alive` posts: only the RX drops are filled in.
  unfoldable pub keep_alive_payload : EnaState → List ℕ
  keep_alive_payload s = bytes32 s.rx_drops ++ bytes32 (s.rx_drops / 2 ^ 32) ++ replicate 16 0

  -- `ena_keep_alive`, the callback of the keep-alive timer
  unfoldable pub keep_alive_tick : EnaState → Outcome EnaState
  keep_alive_tick s = do
    s1 ← aenq_post s aenq_keep_alive 0 (keep_alive_payload s)
    ok (arm_keep_alive s1)

  unfoldable pub config_keep_alive : EnaState → ℕ → EnaState
  config_keep_alive s groups =
      if has groups (2 ^ aenq_keep_alive) then arm_keep_alive s else log s (timer_del keep_alive)

  -- `ena_aenq_config`
  unfoldable pub aenq_config : EnaState → ℕ → Outcome EnaState
  aenq_config s groups = do
    let s0 = record s { aenq_groups = groups }
    s1 ← if has groups (2 ^ aenq_link_change) then post_link_change s0 else ok s0
    ok (config_keep_alive s1 groups)
