-- ===== src/Udp/Packets.antt =====
-- The layout of the WireGuard and AmneziaWG handshakes.
use bye_bye_vpn.Common.{
  ℕ, zero, suc, ◌+◌, min, [], ◌∷◌, ◌++◌, some, ◌≡◌, refl, arith, inl, inr, length, replicate, Bytes,
  Option-cases, length-append, length-replicate, take-append, drop-append, drop_more, sym, ◌∙◌,
  append_assoc,
}
use bye_bye_vpn.Udp.{
  Random, packet_size, random_offset, random_size, max_junk_prefix_len, write_at, fill_random,
  junk_prefix, wireguard_packet, amneziawg_packet,
}

-- RAND_bytes gives as many bytes as it is asked for.
abbrev pub Fills : Random → Type 0
Fills rand = (call size : ℕ) (bytes : Bytes) → rand call size ≡ some bytes → length bytes ≡ size

pub write_at-append :
    (front old after bytes : Bytes)
    → length bytes ≡ length old
    → write_at (length front) bytes (front ++ (old ++ after)) ≡ front ++ (bytes ++ after)
unfolding write_at
write_at-append front old after bytes same = rw (
  write_at,
  take-append front (old ++ after),
  drop_more front (old ++ after) (length bytes),
  same,
  drop-append old after,
)

abbrev zeros : ℕ → Bytes
zeros n = replicate n 0

zeros_add : (n m : ℕ) → zeros (n + m) ≡ zeros n ++ zeros m
zeros_add zero m = let same : 0 + m ≡ m = omega arith in rw same
zeros_add (suc n) m = let same : suc n + m ≡ suc (n + m) = omega arith in rw (same, zeros_add n m)

-- A handshake: the type, three zero bytes, 140 random bytes and four zero bytes.
abbrev pub handshake : Bytes → Bytes
handshake bytes = (1 ∷ 0 ∷ 0 ∷ 0 ∷ []) ++ (bytes ++ replicate 4 0)

abbrev pub IsHandshake : Bytes → Bytes → Type 0
IsHandshake junk pkt = (bytes : Bytes) × ((length bytes ≡ 140) × (pkt ≡ junk ++ handshake bytes))

wireguard-layout :
    (bytes : Bytes)
    → length bytes ≡ random_size
    → write_at random_offset bytes (write_at 0 (1 ∷ []) (zeros packet_size)) ≡ handshake bytes
unfolding write_at
wireguard-layout bytes size = write_at-append (1 ∷ 0 ∷ 0 ∷ 0 ∷ []) (zeros 140) (zeros 4) bytes size

-- A packet of the WireGuard probe is a handshake, in 148 bytes.
pub wireguard_packet-IsHandshake :
    (rand : Random) (pkt : Bytes)
    → Fills rand
    → wireguard_packet rand ≡ some pkt
    → IsHandshake [] pkt
unfolding wireguard_packet fill_random
wireguard_packet-IsHandshake rand pkt fills h = elim (Option-cases (rand 0 random_size)) [
  | inl e ↦ absurd (ground (arith, rw (e, wireguard_packet) at h))
  | inr (bytes, e) ↦
      let size = fills 0 random_size bytes e in
      let made : write_at random_offset bytes (write_at 0 (1 ∷ []) (zeros packet_size)) ≡ pkt =
        ground (arith, rw (e, wireguard_packet) at h) in
      (bytes, (size, sym made ∙ wireguard-layout bytes size))
]

junk-layout :
    (junk bytes : Bytes)
    → length bytes ≡ random_size
    → write_at
        (length junk + random_offset)
        bytes
        (write_at (length junk) (1 ∷ []) (write_at 0 junk (zeros (length junk + packet_size))))
      ≡ junk ++ handshake bytes
junk-layout junk bytes size =
    let n = length junk in
    let buffer : zeros (n + packet_size) ≡ [] ++ (zeros n ++ zeros packet_size) =
      zeros_add n packet_size in
    let with_junk : write_at 0 junk ([] ++ (zeros n ++ zeros packet_size))
        ≡ junk ++ zeros packet_size =
      write_at-append [] (zeros n) (zeros packet_size) junk (sym (length-replicate n 0)) in
    let with_type : write_at n (1 ∷ []) (junk ++ zeros packet_size) ≡ junk ++ 1 ∷ zeros 147 =
      write_at-append junk (0 ∷ []) (zeros 147) (1 ∷ []) refl in
    let start : Bytes = junk ++ 1 ∷ 0 ∷ 0 ∷ 0 ∷ [] in
    let split : junk ++ 1 ∷ zeros 147 ≡ start ++ (zeros 140 ++ zeros 4) =
      sym (append_assoc junk (1 ∷ 0 ∷ 0 ∷ 0 ∷ []) (zeros 144)) in
    let four : n + random_offset ≡ length start = sym (length-append junk (1 ∷ 0 ∷ 0 ∷ 0 ∷ [])) in
    let with_bytes : write_at (length start) bytes (start ++ (zeros 140 ++ zeros 4))
        ≡ start ++ (bytes ++ zeros 4) =
      write_at-append start (zeros 140) (zeros 4) bytes size in
    rw (buffer, with_junk, with_type, split, four, with_bytes)
      (append_assoc junk (1 ∷ 0 ∷ 0 ∷ 0 ∷ []) (bytes ++ zeros 4))

amneziawg-layout :
    (junk bytes : Bytes) (n : ℕ)
    → length junk ≡ n
    → length bytes ≡ random_size
    → write_at
        (n + random_offset)
        bytes
        (write_at n (1 ∷ []) (write_at 0 junk (zeros (n + packet_size))))
      ≡ junk ++ handshake bytes
amneziawg-layout junk bytes n is_n size = rw (← is_n) (junk-layout junk bytes size)

junk_prefix_size :
    (rand : Random) (n : ℕ) (junk : Bytes)
    → Fills rand
    → junk_prefix rand n ≡ some junk
    → length junk ≡ n
unfolding junk_prefix fill_random
junk_prefix_size rand zero junk fills h = ground (arith, h)
junk_prefix_size rand (suc n) junk fills h = fills 0 (suc n) junk (ground (arith, h))

-- A packet of the AmneziaWG probe is at most 64 bytes of junk and then a handshake.
pub amneziawg_packet-IsHandshake :
    (rand : Random) (junk_prefix_len : ℕ) (pkt : Bytes)
    → Fills rand
    → amneziawg_packet rand junk_prefix_len ≡ some pkt
    → (junk : Bytes) × ((length junk ≡ min junk_prefix_len 64) × IsHandshake junk pkt)
unfolding amneziawg_packet fill_random
amneziawg_packet-IsHandshake rand junk_prefix_len pkt fills h =
    let n = min junk_prefix_len max_junk_prefix_len in
    elim (Option-cases (junk_prefix rand n)) [
      | inl e ↦ absurd (ground (arith, rw (e, amneziawg_packet) at h))
      | inr (junk, e) ↦ elim (Option-cases (rand 1 random_size)) [
        | inl g ↦ absurd (ground (arith, rw (e, g, amneziawg_packet) at h))
        | inr (bytes, g) ↦
            let is_n = junk_prefix_size rand n junk fills e in
            let size = fills 1 random_size bytes g in
            let made : write_at (n + random_offset) bytes
                  (write_at n (1 ∷ []) (write_at 0 junk (zeros (n + packet_size))))
                ≡ pkt =
              ground (arith, rw (e, g, amneziawg_packet) at h) in
            (junk, (is_n, (bytes, (size, sym made ∙ amneziawg-layout junk bytes n is_n size))))
      ]
    ]
