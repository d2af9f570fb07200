-- ===== src/Sockets/Send.antt =====
-- src/network/tcp_scanner.cpp: `tcp_send_all`. What `send` returns for what is left is given, call by call;
-- `sent` is what the peer has got.
use bye_bye_vpn.Common.{
  ℕ, zero, suc, ◌+◌, ◌≤◌, [], ◌∷◌, ◌++◌, ◌≡◌, refl, ◌∙◌, arith, inl, inr, ◌⊎◌, length, take, drop,
  Bytes, ℤ, pos, negsuc, take-append-drop, append_assoc, append-nil, length-drop,
}

-- The result: the return value, and the bytes that were sent.
pub record Sent : Type 0 where
  pub result : ℤ
  pub bytes : Bytes

answer-cases : (r : ℤ) → ((e : ℕ) × (r ≡ negsuc e)) ⊎ ((k : ℕ) × (r ≡ pos k))
answer-cases (negsuc e) = inl (e, refl)
answer-cases (pos k) = inr (k, refl)

-- The loop with what is left; `send` answers for a call with its number and the bytes that are left. A call
-- that sends takes at least one byte, so the length is fuel enough.
unfoldable pub send_loop : (ℕ → Bytes → ℤ) → ℕ → ℕ → ℕ → Bytes → Bytes → Sent
send_loop send n zero call left sent = record { result = pos n; bytes = sent }
send_loop send n (suc fuel) call [] sent = record { result = pos n; bytes = sent }
send_loop send n (suc fuel) call (c ∷ left) sent = elim (send call (c ∷ left)) [
  | negsuc e ↦ record { result = negsuc e; bytes = sent }
  | pos k ↦ elim k [
    | zero ↦ record { result = pos 0; bytes = sent }
    | suc j ↦
        send_loop send n fuel (call + 1) (drop (suc j) (c ∷ left)) (sent ++ take (suc j) (c ∷ left))
  ]
]

unfoldable pub tcp_send_all : (ℕ → Bytes → ℤ) → Bytes → Sent
unfolding send_loop
tcp_send_all send message = send_loop send (length message) (length message) 0 message []

send_loop-front :
    (send : ℕ → Bytes → ℤ) (n fuel call : ℕ) (left sent : Bytes)
    → length left ≤ fuel
    → length left ≤ n
    → (rest : Bytes) × (((send_loop send n fuel call left sent).bytes ++ rest ≡ sent ++ left)
        × ((send_loop send n fuel call left sent).result ≡ pos n → rest ≡ []))
unfolding send_loop
send_loop-front send n zero call [] sent h k = ([], (refl, λ r. refl))
send_loop-front send n zero call (c ∷ left) sent h k = absurd (omega arith)
send_loop-front send n (suc fuel) call [] sent h k = ([], (refl, λ r. refl))
send_loop-front send n (suc fuel) call (c ∷ left) sent h k =
    elim (answer-cases (send call (c ∷ left))) [
      | inl (e, m) ↦ rw (m, send_loop) (c ∷ left, (refl, λ r. absurd (ground (arith, r))))
      | inr (zero, m) ↦ rw (m, send_loop) (c ∷ left, (refl, λ r. absurd (ground (arith, r, k))))
      | inr (suc j, m) ↦
          let left' = drop (suc j) (c ∷ left) in
          let short = length-drop (suc j) (c ∷ left) in
          let (rest, (front, whole)) =
            send_loop-front send n fuel (call + 1) left' (sent ++ take (suc j) (c ∷ left))
              (omega (arith, short, h)) (omega (arith, short, k)) in
          let same : (sent ++ take (suc j) (c ∷ left)) ++ left' ≡ sent ++ c ∷ left = rw (
            append_assoc sent (take (suc j) (c ∷ left)) left',
            take-append-drop (suc j) (c ∷ left),
          ) in
          rw (m, send_loop) (rest, (front ∙ same, whole))
    ]

-- What was sent is the front of the message, each byte once and in order; a result that is the length of
-- the message means all of it.
pub tcp_send_all-front :
    (send : ℕ → Bytes → ℤ) (message : Bytes)
    → (rest : Bytes) × (((tcp_send_all send message).bytes ++ rest ≡ message)
        × ((tcp_send_all send message).result ≡ pos (length message) → rest ≡ []))
unfolding tcp_send_all
tcp_send_all-front send message =
    send_loop-front send (length message) (length message) 0 message [] (omega arith) (omega arith)

send_loop-whole :
    (send : ℕ → Bytes → ℤ) (n fuel call : ℕ) (left sent : Bytes)
    → ((call : ℕ) (left : Bytes) → (j : ℕ) × (send call left ≡ pos (suc j)))
    → length left ≤ fuel
    → send_loop send n fuel call left sent ≡ record { result = pos n; bytes = sent ++ left }
unfolding send_loop
send_loop-whole send n zero call [] sent sends h = rw (append-nil sent)
send_loop-whole send n zero call (c ∷ left) sent sends h = absurd (omega arith)
send_loop-whole send n (suc fuel) call [] sent sends h = rw (append-nil sent)
send_loop-whole send n (suc fuel) call (c ∷ left) sent sends h =
    let (j, m) = sends call (c ∷ left) in
    let left' = drop (suc j) (c ∷ left) in
    let ih =
      send_loop-whole send n fuel (call + 1) left' (sent ++ take (suc j) (c ∷ left)) sends
        (omega (arith, length-drop (suc j) (c ∷ left), h)) in
    rw (
      m,
      send_loop,
      ih,
      append_assoc sent (take (suc j) (c ∷ left)) left',
      take-append-drop (suc j) (c ∷ left),
    )

-- However short the writes are, when each call sends at least a byte the whole message is sent, and the result is its length.
pub tcp_send_all-whole :
    (send : ℕ → Bytes → ℤ) (message : Bytes)
    → ((call : ℕ) (left : Bytes) → (j : ℕ) × (send call left ≡ pos (suc j)))
    → tcp_send_all send message ≡ record { result = pos (length message); bytes = message }
unfolding tcp_send_all
tcp_send_all-whole send message sends =
    send_loop-whole send (length message) (length message) 0 message [] sends (omega arith)
