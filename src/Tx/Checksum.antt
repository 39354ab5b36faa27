-- ===== src/Tx/Checksum.antt =====
-- The checksum that `ena_tx_ip4_csum` of hw/ena_tx.c writes into the IPv4 header of a frame.
use ena.Base.{
  ℕ, ◌+◌, ◌*◌, ◌/◌, ◌%◌, ◌≤◌, ◌<◌, List, [], ◌∷◌, ◌++◌, ◌≡◌, sym, ap, subst, ◌∙◌, arith, length,
  length-append, length-take, length-drop, take, drop, get_or, get_or-append_left,
  get_or-append_right, get_or-take, get_or-drop, byte,
}
use ena.Host.{Host}
use ena.Tx.Xmit.{overwrite, tx_ip4_csum}

-- `new` is `old` with the bytes `x` and `y` at the offset `o`.
pub record IsPatched (old new : List ℕ) (o x y : ℕ) : Type 0 where
  pub same_length : length new ≡ length old
  pub before : (j : ℕ) → j < o → get_or new j 0 ≡ get_or old j 0
  pub first : get_or new o 0 ≡ x
  pub second : get_or new (o + 1) 0 ≡ y
  pub after : (k : ℕ) → get_or new (o + 2 + k) 0 ≡ get_or old (o + 2 + k) 0

module _ (host : Host) where
  module _ (buf : List ℕ) (o x y : ℕ) (fits : o + 2 ≤ length buf) where
    front_length : length (take o buf) ≡ o
    front_length = omega (arith, length-take o buf, fits)

    both_length : length (take o buf ++ (x ∷ y ∷ [])) ≡ o + 2
    both_length = omega (arith, length-append (take o buf) (x ∷ y ∷ []), front_length)

    overwrite-at :
        (k : ℕ)
        → k < 2
        → get_or (overwrite host buf o (x ∷ y ∷ [])) (o + k) 0 ≡ get_or (x ∷ y ∷ []) k 0
    unfolding overwrite
    overwrite-at k h =
        get_or-append_left (take o buf ++ (x ∷ y ∷ [])) (drop (o + 2) buf) (o + k) 0
          (omega (arith, both_length, h))
        ∙ subst (λ n. get_or (take o buf ++ (x ∷ y ∷ [])) (n + k) 0 ≡ get_or (x ∷ y ∷ []) k 0)
            front_length (get_or-append_right (take o buf) (x ∷ y ∷ []) k 0)

    overwrite-IsPatched : IsPatched buf (overwrite host buf o (x ∷ y ∷ [])) o x y
    unfolding overwrite
    overwrite-IsPatched = record {
      same_length = omega (
        arith,
        length-append (take o buf ++ (x ∷ y ∷ [])) (drop (o + 2) buf),
        both_length,
        length-drop (o + 2) buf,
        fits,
      );
      before = λ j h.
          get_or-append_left (take o buf ++ (x ∷ y ∷ [])) (drop (o + 2) buf) j 0
            (omega (arith, both_length, h))
          ∙ get_or-append_left (take o buf) (x ∷ y ∷ []) j 0 (omega (arith, front_length, h))
          ∙ get_or-take o j buf 0 h;
      first =
          subst (λ n. get_or (overwrite host buf o (x ∷ y ∷ [])) n 0 ≡ x)
            (let e : o + 0 ≡ o = omega arith in e) (overwrite-at 0 (omega arith));
      second = overwrite-at 1 (omega arith);
      after = λ k.
          subst
            (λ n. get_or (overwrite host buf o (x ∷ y ∷ [])) (n + k) 0 ≡ get_or buf (o + 2 + k) 0)
            both_length
            (get_or-append_right (take o buf ++ (x ∷ y ∷ [])) (drop (o + 2) buf) k 0
              ∙ get_or-drop (o + 2) k buf 0);
    }

  IsPatched-again :
      (old mid new : List ℕ) (o x y x' y' : ℕ)
      → IsPatched old mid o x y
      → IsPatched mid new o x' y'
      → IsPatched old new o x' y'
  IsPatched-again old mid new o x y x' y' p q = record {
    same_length = q.same_length ∙ p.same_length;
    before = λ j h. q.before j h ∙ p.before j h;
    first = q.first;
    second = q.second;
    after = λ k. q.after k ∙ p.after k;
  }

  -- The bytes of the IPv4 header that starts at `l2`, by the length in its first byte
  abbrev pub ip4_header : (l2 : ℕ) → List ℕ → List ℕ
  ip4_header l2 b = take (byte b l2 % 16 * 4) (drop l2 b)

  -- A frame with an IPv4 header gets, in the two bytes of the header's checksum, high byte first, the
  -- checksum of that header with zeros in their place; every other byte stays, and the length.
  pub tx_ip4_csum_lem :
      (buf : List ℕ)
      → let l2 = host.eth_get_l2_hdr_length buf in
        l2 + 12 ≤ length buf
        → (blank : List ℕ) × IsPatched buf blank (l2 + 10) 0 0
          × (let sum = host.net_raw_checksum (ip4_header l2 blank) in
              IsPatched buf (tx_ip4_csum host buf) (l2 + 10) (sum / 256 % 256) (sum % 256))
  unfolding tx_ip4_csum byte
  tx_ip4_csum_lem buf fits = (
    blank,
    p,
    subst
        (λ n.
          let sum = host.net_raw_checksum (take (n % 16 * 4) (drop l2 blank)) in
          IsPatched buf (tx_ip4_csum host buf) o (sum / 256 % 256) (sum % 256))
        (sym same_first) patched,
  )
    where
      l2 : ℕ
      l2 = host.eth_get_l2_hdr_length buf

      o : ℕ
      o = l2 + 10

      blank : List ℕ
      blank = overwrite host buf o (0 ∷ 0 ∷ [])

      p : IsPatched buf blank o 0 0
      p = overwrite-IsPatched buf o 0 0 (omega (arith, fits))

      same_first : byte blank l2 ≡ byte buf l2
      same_first = ap (λ k. k % 256) (p.before l2 (omega arith))

      sum : ℕ
      sum = host.net_raw_checksum (take (byte buf l2 % 16 * 4) (drop l2 blank))

      patched : IsPatched buf (tx_ip4_csum host buf) o (sum / 256 % 256) (sum % 256)
      patched =
          IsPatched-again buf blank _ o 0 0 _ _ p
            (overwrite-IsPatched blank o _ _ (omega (arith, fits, p.same_length)))
