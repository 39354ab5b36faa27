-- ===== src/Tx/OffloadBits.antt =====
-- The offload bits of a descriptor in hw/ena_tx.c, as the three requests that they stand for.
use ena.Base.{
  zero, suc, ◌<◌, ℕ, ◌+◌, ◌*◌, ◌/◌, ◌%◌, bit_and, Bool, true, false, not, ◌&&◌, ◌||◌, ◌≡◌, refl,
  arith, ◌==◌, has, if◌then◌else◌,
}
use ena.Base.Bits.{bit_and_mask}
use ena.Base.Masks.{odd_mask, shifted_mask}
use ena.Device.Layout.{tx_tso_en, tx_l3_csum_en, tx_l4_csum_en}
use ena.Tx.Xmit.{tx_offload_mask, tx_valid_offloads, ip_proto_tcp, ip_proto_udp}

-- The offload bits of a descriptor
offload_bits :
    (x : ℕ)
    → bit_and x tx_offload_mask ≡ x / 128 % 2 * 128 + x / 8192 % 2 * 8192 + x / 16384 % 2 * 16384
offload_bits x = omega (
  arith,
  shifted_mask 7 x 193,
  odd_mask (x / 128) 96,
  shifted_mask 5 (x / 128 / 2) 3,
  bit_and_mask 2 (x / 128 / 2 / 32),
)

abbrev pub bit_if : Bool → ℕ → ℕ
bit_if true n = n
bit_if false n = 0

-- The offload bits: segmentation, the checksum of the IPv4 header and that of TCP or UDP
abbrev pub word : (tso l3 l4 : Bool) → ℕ
word tso l3 l4 = bit_if tso 128 + bit_if l3 8192 + bit_if l4 16384

flag : (n w : ℕ) → n < 2 → (b : Bool) × (n * w ≡ bit_if b w) × ((n == 1) ≡ b)
flag zero w h = (false, omega arith, refl)
flag (suc zero) w h = (true, omega arith, refl)
flag (suc (suc n)) w h = absurd (omega (arith, h))

pub offload_word :
    (x : ℕ)
    → (tso : Bool) × (l3 : Bool) × (l4 : Bool) × (bit_and x tx_offload_mask ≡ word tso l3 l4)
offload_word x =
    let (a, ea, _) = flag (x / 128 % 2) 128 (omega arith) in
    let (b, eb, _) = flag (x / 8192 % 2) 8192 (omega arith) in
    let (c, ec, _) = flag (x / 16384 % 2) 16384 (omega arith) in
    (a, b, c, omega (arith, offload_bits x, ea, eb, ec))

-- The protocol has a checksum that the device fills in.
abbrev pub has_l4_csum : ℕ → Bool
has_l4_csum l4 = l4 == ip_proto_tcp || l4 == ip_proto_udp

masked : (a b : Bool) → ((not a && not b) ≡ not (a || b))
masked true b = refl
masked false b = refl

pub granted_word :
    (tso l3 l4 ip4 : Bool) (p : ℕ)
    → tx_valid_offloads (word tso l3 l4) ip4 p ≡ word tso (l3 && ip4) (l4 && has_l4_csum p)
unfolding tx_valid_offloads if◌then◌else◌
granted_word true true true true p = ground arith
granted_word true true true false p = ground arith
granted_word true true false true p = refl
granted_word true true false false p = refl
granted_word true false true true p = ground arith
granted_word true false true false p = ground arith
granted_word true false false true p = refl
granted_word true false false false p = refl
granted_word false true true true p = ground arith
granted_word false true true false p = ground arith
granted_word false true false true p = refl
granted_word false true false false p = refl
granted_word false false true true p = ground arith
granted_word false false true false p = ground arith
granted_word false false false true p = refl
granted_word false false false false p = refl

pub word_flags :
    (tso l3 l4 : Bool)
    → (has (word tso l3 l4) tx_tso_en ≡ tso)
      × (has (word tso l3 l4) tx_l3_csum_en ≡ l3)
      × (has (word tso l3 l4) tx_l4_csum_en ≡ l4)
word_flags true true true = (refl, refl, refl)
word_flags true true false = (refl, refl, refl)
word_flags true false true = (refl, refl, refl)
word_flags true false false = (refl, refl, refl)
word_flags false true true = (refl, refl, refl)
word_flags false true false = (refl, refl, refl)
word_flags false false true = (refl, refl, refl)
word_flags false false false = (refl, refl, refl)
