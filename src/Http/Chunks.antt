-- ===== src/Http/Chunks.antt =====
-- The reply of the HTTP client: framed chunks, and the block behind the status line.
use bye_bye_vpn.Common.{
  ℕ, zero, suc, ◌+◌, ◌≤◌, ◌<◌, ◌^◌, ◌∙◌, true, false, List, [], ◌∷◌, ◌++◌, some, ◌==◌, ◌≡◌, refl,
  arith, inl, inr, ltb, length, take, drop, All, Bytes, text, find, starts_with, length-append,
  length-drop, Option-cases, Bool-cases, take-append,
}
use bye_bye_vpn.Http.Sizes.{is_line, IsSize, IsSize-is_line, IsSize-chunk_length}
use bye_bye_vpn.Http.Reply.{chunk_length, decode_chunks, dechunk}

-- A chunk with the text in front of it, a size with any extension.
abbrev pub Chunk : Type 0
Chunk = Bytes × Bytes

-- What a server sends: `last` is the line of the last chunk, without its end.
unfoldable pub frame : List Chunk → Bytes → Bytes
frame [] last = last ++ text "\r\n\r\n"
frame ((size, chunk) ∷ chunks) last =
    size ++ b'\r' ∷ b'\n' ∷ (chunk ++ b'\r' ∷ b'\n' ∷ frame chunks last)

unfoldable pub contents : List Chunk → Bytes
contents [] = []
contents ((size, chunk) ∷ chunks) = chunk ++ contents chunks

-- The size is the chunk's length in hexadecimal digits, and a chunk is not empty.
abbrev pub Sized : Chunk → Type 0
Sized (size, chunk) = IsSize size (length chunk) × (0 < length chunk) × (length chunk < 2 ^ 63)

find-line :
    (s rest : Bytes)
    → is_line s ≡ true
    → find (text "\r\n") (s ++ b'\r' ∷ b'\n' ∷ rest) ≡ some (length s)
unfolding find text starts_with
find-line [] rest h = refl
find-line (c ∷ s) rest h = elim (Bool-cases (c == b'\r')) [
  | inl e ↦ absurd (ground (arith, rw e at h))
  | inr e ↦ let more : is_line s ≡ true = rw e at h in rw (e, find-line s rest more)
]

drop-line : (s rest : Bytes) → drop (length s + 2) (s ++ b'\r' ∷ b'\n' ∷ rest) ≡ rest
drop-line [] rest = refl
drop-line (c ∷ s) rest =
    let same : length (c ∷ s) + 2 ≡ suc (length s + 2) = omega arith in rw (same, drop-line s rest)

decode_chunks_step :
    (fuel : ℕ) (size chunk rest : Bytes)
    → Sized (size, chunk)
    → decode_chunks (suc fuel) (size ++ b'\r' ∷ b'\n' ∷ (chunk ++ b'\r' ∷ b'\n' ∷ rest))
      ≡ chunk ++ decode_chunks fuel rest
unfolding decode_chunks
decode_chunks_step fuel size chunk rest (is_size, some_bytes, small) =
    let line = IsSize-is_line size (length chunk) is_size in
    let filled : (length chunk == 0) ≡ false = ground arith in
    let sized : chunk_length size ≡ some (length chunk) =
      IsSize-chunk_length size (length chunk) is_size small ∙ rw filled refl in
    let after = chunk ++ b'\r' ∷ b'\n' ∷ rest in
    let fits : ltb (length after) (length chunk) ≡ false =
      ground (arith, length-append chunk (b'\r' ∷ b'\n' ∷ rest)) in
    rw (
      decode_chunks,
      find-line size after line,
      take-append size (b'\r' ∷ b'\n' ∷ after),
      sized,
      drop-line size after,
      fits,
      take-append chunk (b'\r' ∷ b'\n' ∷ rest),
      drop-line chunk rest,
    )

length-frame_step :
    (size chunk rest : Bytes)
    → length rest + 4 ≤ length (size ++ b'\r' ∷ b'\n' ∷ (chunk ++ b'\r' ∷ b'\n' ∷ rest))
length-frame_step size chunk rest =
    let inner = chunk ++ b'\r' ∷ b'\n' ∷ rest in
    omega (
      arith,
      length-append size (b'\r' ∷ b'\n' ∷ inner),
      length-append chunk (b'\r' ∷ b'\n' ∷ rest),
    )

decode_chunks-frame :
    (fuel : ℕ) (chunks : List Chunk) (last : Bytes)
    → All Sized chunks
    → IsSize last 0
    → length (frame chunks last) ≤ fuel
    → decode_chunks fuel (frame chunks last) ≡ contents chunks
unfolding frame contents decode_chunks
decode_chunks-frame zero [] last h end enough =
    let more : length (last ++ text "\r\n\r\n") ≡ length last + 4 =
      unfold text in length-append last (text "\r\n\r\n") in
    absurd (omega (arith, more))
decode_chunks-frame zero ((size, chunk) ∷ chunks) last h end enough =
    absurd (omega (arith, length-frame_step size chunk (frame chunks last)))
decode_chunks-frame (suc fuel) [] last h end enough =
    unfold text in
    rw (
      decode_chunks,
      find-line last (b'\r' ∷ b'\n' ∷ []) (IsSize-is_line last 0 end),
      take-append last (b'\r' ∷ b'\n' ∷ b'\r' ∷ b'\n' ∷ []),
      IsSize-chunk_length last 0 end (omega arith),
    )
decode_chunks-frame (suc fuel) ((size, chunk) ∷ chunks) last (sized, more) end enough =
    let ih =
      decode_chunks-frame fuel chunks last more end
        (omega (arith, length-frame_step size chunk (frame chunks last))) in
    rw (decode_chunks_step fuel size chunk (frame chunks last) sized, ih)

-- The decoder gives back the chunks that were framed, in their order, whatever extensions stand behind
-- their sizes.
pub dechunk-frame :
    (chunks : List Chunk) (last : Bytes)
    → All Sized chunks
    → IsSize last 0
    → dechunk (frame chunks last) ≡ contents chunks
unfolding dechunk
dechunk-frame chunks last h end =
    decode_chunks-frame (length (frame chunks last)) chunks last h end (omega arith)

-- With fuel from the length of the text on, the result does not depend on the fuel.
pub decode_chunks_enough :
    (f g : ℕ) (s : Bytes) → length s ≤ f → length s ≤ g → decode_chunks f s ≡ decode_chunks g s
unfolding decode_chunks find text starts_with
decode_chunks_enough zero zero s h k = refl
decode_chunks_enough zero (suc g) [] h k = refl
decode_chunks_enough zero (suc g) (c ∷ s) h k = absurd (omega arith)
decode_chunks_enough (suc f) zero [] h k = refl
decode_chunks_enough (suc f) zero (c ∷ s) h k = absurd (omega arith)
decode_chunks_enough (suc f) (suc g) [] h k = refl
decode_chunks_enough (suc f) (suc g) (c ∷ s) h k =
    elim (Option-cases (find (text "\r\n") (c ∷ s))) [
      | inl e ↦ rw (decode_chunks, e)
      | inr (nl, e) ↦ elim (Option-cases (chunk_length (take nl (c ∷ s)))) [
        | inl n ↦ rw (decode_chunks, e, n)
        | inr (len, n) ↦
            let rest = drop (len + 2) (drop (nl + 2) (c ∷ s)) in
            let short : length rest ≤ length s = omega (
              arith,
              length-drop (len + 2) (drop (nl + 2) (c ∷ s)),
              length-drop (nl + 2) (c ∷ s),
            ) in
            let ih = decode_chunks_enough f g rest (omega arith) (omega arith) in
            rw (decode_chunks, e, n, ih)
      ]
    ]
