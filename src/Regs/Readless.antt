-- ===== src/Regs/Readless.antt =====
-- A readless register read (`ena_mmio_readless` of hw/ena.c): the answer that the driver finds.
use ena.Base.{
  ℕ, ◌+◌, ◌*◌, ◌/◌, ◌%◌, ◌^◌, ◌∷◌, bit_and, true, false, ◌||◌, List, ◌≡◌, refl, ap, ◌∙◌, arith,
  ◌==◌, has, if◌then◌else◌, le16, le32, le16_at, le32_at,
}
use ena.Base.Bits.{bit_and-le, bit_and_mask}
use ena.Host.{dma_write}
use ena.Device.{EnaState, get_reg}
use ena.Device.Layout.{reg_mmio_resp_hi, reg_mmio_resp_lo, mmio_req_id, mmio_reg_off}
use ena.Regs.{reg_file_read, mmio_readless}

-- The register offset that a request names
abbrev pub wanted : ℕ → ℕ
wanted req = bit_and req mmio_reg_off / 2 ^ 16

-- The address of the response
abbrev pub resp_addr : EnaState → ℕ
resp_addr s = get_reg s reg_mmio_resp_hi * 2 ^ 32 + get_reg s reg_mmio_resp_lo

-- An answer of eight bytes was written: the low half of the request, the offset and the register.
pub record Answered (s : EnaState) (req : ℕ) (t : EnaState) : Type 0 where
  pub bytes : List ℕ
  pub written : t.trace ≡ dma_write (resp_addr s) bytes ∷ s.trace
  pub id_eq : le16 bytes 0 ≡ req % 2 ^ 16
  pub off_eq : le16 bytes 2 ≡ wanted req
  pub value_eq : le32 bytes 4 ≡ reg_file_read s (wanted req) % 2 ^ 32

low_half : (req : ℕ) → bit_and req mmio_req_id % 2 ^ 16 ≡ req % 2 ^ 16
low_half req =
    ap (λ k. k % 2 ^ 16) (bit_and_mask 16 req)
    ∙ (let e : req % 2 ^ 16 % 2 ^ 16 ≡ req % 2 ^ 16 = omega arith in e)

-- A readless read is answered, with the request's id, the offset and the register's value, if there
-- is a response address and the offset is a multiple of four; otherwise nothing happens.
pub mmio_readless_lem :
    (s : EnaState) (req : ℕ)
    → ((resp_addr s == 0 || has (wanted req) 3) ≡ false → Answered s req (mmio_readless s req))
      × ((resp_addr s == 0 || has (wanted req) 3) ≡ true → mmio_readless s req ≡ s)
unfolding mmio_readless if◌then◌else◌
mmio_readless_lem s req = (
  λ e. rw e record {
    bytes = _;
    written = refl;
    id_eq = le16_at _ 0 _ refl refl ∙ low_half req;
    off_eq = le16_at _ 2 _ refl refl ∙ omega (arith, bit_and-le req mmio_reg_off);
    value_eq = le32_at _ 4 _ refl refl refl refl;
  },
  λ e. rw e refl,
)
