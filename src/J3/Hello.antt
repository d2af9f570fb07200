-- ===== src/J3/Hello.antt =====
-- The layout of the ClientHello that the junk probes send.
use bye_bye_vpn.Common.{
  ℕ, zero, suc, ◌+◌, ◌*◌, ◌%◌, [], ◌∷◌, ◌++◌, map, some, ◌≡◌, refl, sym, ◌∙◌, arith, inl, inr,
  length, drop, replicate, Bytes, text, find, starts_with, Option-cases, length-append, drop-append,
  drop_more, append_assoc, ap,
}
use bye_bye_vpn.Udp.{Random, write_at}
use bye_bye_vpn.Udp.Packets.{Fills, write_at-append}
use bye_bye_vpn.J3.Probes.{
  hello_front, hello_middle, hello_back, k_hello, randomize_sni, client_hello,
}

-- A length field: `n` bytes from `at_` on, the first of them the highest.
unfoldable pub length_field : ℕ → ℕ → Bytes → ℕ
length_field zero value s = value
length_field (suc n) value [] = value
length_field (suc n) value (c ∷ s) = length_field n (256 * value + c) s

-- The parts of a hello, with its random bytes and the three letters.
abbrev pub hello_of : Bytes → Bytes → Bytes
hello_of bytes letters = hello_front ++ (bytes ++ (hello_middle ++ (letters ++ hello_back)))

filled_hello :
    (bytes : Bytes) → length bytes ≡ 32 → write_at 11 bytes k_hello ≡ hello_of bytes (replicate 3 0)
unfolding k_hello hello_front
filled_hello bytes size =
    write_at-append hello_front (replicate 32 0) (hello_middle ++ (replicate 3 0 ++ hello_back))
      bytes size

behind_random :
    (bytes letters : Bytes)
    → length bytes ≡ 32
    → drop 43 (hello_of bytes letters) ≡ hello_middle ++ (letters ++ hello_back)
unfolding hello_front
behind_random bytes letters size =
    let rest = hello_middle ++ (letters ++ hello_back) in
    let sum : 11 + length bytes ≡ 43 = omega (arith, size) in
    let past : drop (11 + length bytes) (hello_front ++ (bytes ++ rest)) ≡ rest =
      rw (drop_more hello_front (bytes ++ rest) (length bytes)) (drop-append bytes rest) in
    rw sum at past

lettered_hello :
    (bytes letters : Bytes)
    → length bytes ≡ 32
    → length letters ≡ 3
    → write_at 61 letters (hello_of bytes (replicate 3 0)) ≡ hello_of bytes letters
lettered_hello bytes letters size three =
    let start : Bytes = hello_front ++ (bytes ++ hello_middle) in
    let apart : (x : Bytes) → hello_of bytes x ≡ start ++ (x ++ hello_back) = λ x. sym (
      append_assoc hello_front (bytes ++ hello_middle) (x ++ hello_back)
      ∙ ap (λ y. hello_front ++ y) (append_assoc bytes hello_middle (x ++ hello_back))) in
    let at_name : length start ≡ 61 =
      unfold hello_front hello_middle in omega (arith, length-append bytes hello_middle, size) in
    let written : write_at (length start) letters (start ++ (replicate 3 0 ++ hello_back))
        ≡ start ++ (letters ++ hello_back) =
      write_at-append start (replicate 3 0) hello_back letters three in
    rw (apart (replicate 3 0), apart letters) (rw at_name at written)

length-hello_of :
    (bytes letters : Bytes)
    → length bytes ≡ 32
    → length letters ≡ 3
    → length (hello_of bytes letters) ≡ 128
unfolding hello_front hello_middle hello_back
length-hello_of bytes letters size three = omega (
  arith,
  size,
  three,
  length-append bytes (hello_middle ++ (letters ++ hello_back)),
  length-append letters hello_back,
)

length-map : (f : ℕ → ℕ) (s : Bytes) → length (map f s) ≡ length s
length-map f [] = refl
length-map f (c ∷ s) = ap suc (length-map f s)

name_at : find (text ".invalid") (hello_middle ++ (replicate 3 0 ++ hello_back)) ≡ some 21
unfolding find text starts_with hello_middle hello_back
name_at = refl

abbrev IsHello : Bytes → Type 0
IsHello hello =
    (bytes : Bytes) × (letters : Bytes) × ((length bytes ≡ 32)
      × ((length letters ≡ 3) × (hello ≡ hello_of bytes letters)))

randomize_sni-IsHello :
    (rand : Random) (bytes : Bytes)
    → Fills rand
    → length bytes ≡ 32
    → IsHello (randomize_sni rand (hello_of bytes (replicate 3 0)))
unfolding randomize_sni
randomize_sni-IsHello rand bytes fills size =
    let here = behind_random bytes (replicate 3 0) size in
    let whole = length-hello_of bytes (replicate 3 0) size refl in
    elim (Option-cases (rand 2 3)) [
      | inl e ↦ (bytes, replicate 3 0, (size, (refl, rw (randomize_sni, here, name_at, e))))
      | inr (r, e) ↦
          let letters = map (λ c. b'a' + c % 26) r in
          let three : length letters ≡ 3 = length-map (λ c. b'a' + c % 26) r ∙ fills 2 3 r e in
          (
            bytes,
            letters,
            (
              size,
              (
                three,
                rw (randomize_sni, here, name_at, e, whole)
                    (lettered_hello bytes letters size three),
              ),
            ),
          )
    ]

client_hello-IsHello :
    (rand : Random) (hello : Bytes) → Fills rand → client_hello rand ≡ some hello → IsHello hello
unfolding client_hello
client_hello-IsHello rand hello fills h = elim (Option-cases (rand 1 32)) [
  | inl e ↦ absurd (ground (arith, rw (e, client_hello) at h))
  | inr (bytes, e) ↦
      let size = fills 1 32 bytes e in
      let same : randomize_sni rand (write_at 11 bytes k_hello) ≡ hello =
        ground (arith, rw (e, client_hello) at h) in
      let made = randomize_sni-IsHello rand bytes fills size in
      rw (← same, filled_hello bytes size) made
]

-- Whatever bytes RAND_bytes gives, the message has 128 bytes, and the length in the header of its record and
-- the length in the header of its handshake both end it 11 bytes too early.
pub client_hello-lengths :
    (rand : Random) (hello : Bytes)
    → Fills rand
    → client_hello rand ≡ some hello
    → (length hello ≡ 128)
      × ((5 + length_field 2 0 (drop 3 hello) ≡ 117) × (9 + length_field 3 0 (drop 6 hello) ≡ 117))
unfolding length_field hello_front
client_hello-lengths rand hello fills h =
    let (bytes, letters, (size, (three, same))) = client_hello-IsHello rand hello fills h in
    rw same (length-hello_of bytes letters size three, (refl, refl))
