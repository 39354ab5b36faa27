-- ===== src/Admin/GetFeature/Stats.antt =====
-- The counters that `ena_get_stats` of hw/ena_admin.c tells, read back from the response.
use ena.Base.{
  ℕ, ◌+◌, ◌*◌, ◌/◌, ◌%◌, ◌^◌, List, [], byte, le16, Outcome, ◌≡◌, ◌≢◌, ◌⊎◌, inl, inr, refl, arith,
  le32, le32_at, if_both, Total,
}
use ena.Device.{EnaState}
use ena.Admin.{Reply, success}
use ena.Admin.GetFeature.{basic_stats, get_stats, words64}

-- A 64-bit counter of a buffer, low word first
abbrev pub le64 : List ℕ → ℕ → ℕ
le64 b o = le32 b o + le32 b (o + 4) * 2 ^ 32

-- What a buffer of `struct ena_admin_basic_stats` tells
pub record TellsStats (b : List ℕ) (s : EnaState) : Type 0 where
  pub tx_bytes_eq : le64 b 0 ≡ s.tx_bytes % 2 ^ 64
  pub tx_pkts_eq : le64 b 8 ≡ s.tx_pkts % 2 ^ 64
  pub rx_bytes_eq : le64 b 16 ≡ s.rx_bytes % 2 ^ 64
  pub rx_pkts_eq : le64 b 24 ≡ s.rx_pkts % 2 ^ 64
  pub rx_drops_eq : le64 b 32 ≡ s.rx_drops % 2 ^ 64
  pub tx_drops_eq : le64 b 40 ≡ s.tx_drops % 2 ^ 64

pub words_sum :
    (b : List ℕ) (o v : ℕ)
    → le32 b o ≡ v % 2 ^ 32
    → le32 b (o + 4) ≡ v / 2 ^ 32 % 2 ^ 32
    → le64 b o ≡ v % 2 ^ 64
words_sum b o v p q = omega (arith, p, q)

basic_stats-TellsStats : (s : EnaState) → TellsStats (basic_stats s) s
unfolding basic_stats words64
basic_stats-TellsStats s = record {
  tx_bytes_eq =
      words_sum _ 0 _ (le32_at _ 0 _ refl refl refl refl) (le32_at _ 4 _ refl refl refl refl);
  tx_pkts_eq =
      words_sum _ 8 _ (le32_at _ 8 _ refl refl refl refl) (le32_at _ 12 _ refl refl refl refl);
  rx_bytes_eq =
      words_sum _ 16 _ (le32_at _ 16 _ refl refl refl refl) (le32_at _ 20 _ refl refl refl refl);
  rx_pkts_eq =
      words_sum _ 24 _ (le32_at _ 24 _ refl refl refl refl) (le32_at _ 28 _ refl refl refl refl);
  rx_drops_eq =
      words_sum _ 32 _ (le32_at _ 32 _ refl refl refl refl) (le32_at _ 36 _ refl refl refl refl);
  tx_drops_eq =
      words_sum _ 40 _ (le32_at _ 40 _ refl refl refl refl) (le32_at _ 44 _ refl refl refl refl);
}

-- A command that asks for the basic statistics of this device
abbrev pub AsksBasic : List ℕ → Type 0
AsksBasic cmd = (byte cmd 16 ≡ 0) × ((le16 cmd 22 ≡ 0) ⊎ (le16 cmd 22 ≡ 0xffff))

-- The answer to a command that does, and to one that does not
abbrev pub StatsAnswered : EnaState → List ℕ → Reply → Type 0
StatsAnswered s cmd r =
    (AsksBasic cmd × (r.1 ≡ success) × TellsStats r.2 s)
    ⊎ ((¬ AsksBasic cmd) × (r.1 ≢ success) × (r.2 ≡ []))

-- GET_STATS changes nothing. If it asks for the basic statistics of this device, it succeeds, and the
-- six 64-bit counters read from its response are the device's; else it fails, with no data.
pub get_stats_lem :
    (s : EnaState) (cmd : List ℕ) → Total (λ r. (r.0 ≡ s) × StatsAnswered s cmd r) (get_stats s cmd)
unfolding get_stats
get_stats_lem s cmd =
    if_both R _ (λ e. (refl, inr ((λ a. ground (arith, e, a.0)), (λ f. cc), refl)))
      (λ e.
        if_both R _ (λ f. (refl, inr ((λ a. ground (arith, f, a.1)), (λ g. cc), refl)))
          (λ f.
            (refl, inl ((ground (arith, e), ground (arith, f)), refl, basic_stats-TellsStats s))))
  where
    R : Outcome Reply → Type 0
    R = Total (λ r. (r.0 ≡ s) × StatsAnswered s cmd r)
