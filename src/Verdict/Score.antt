-- ===== src/Verdict/Score.antt =====
-- The score that the loop arrives at is the one that the table of rules gives.
use mathlib.Core.Path.{subst}
use bye_bye_vpn.Common.{
  text, ℕ, ◌+◌, ◌-◌, ◌<◌, Bool, true, false, List, [], ◌∷◌, ◌++◌, ◌≡◌, ◌↔◌, arith, ℤ, pos, pos_part,
  neg_part, -ℤ_parts, length, length-append, ◌≤ℤ◌, Bytes,
}
use bye_bye_vpn.Report.{PortFp, GeoInfo}
use bye_bye_vpn.Verdict.Blocks.{
  Tally, tally_cdn, tally_proxy, tally_tls, tally_sni, tally_https, tally_ct, tally_j3, tally_port,
  tally_ports, tally_handshake, tally_version, tally_self_signed, tally_fresh, tally_answer,
  tally_leak, tally_canned, tally_badver, tally_raw,
}
use bye_bye_vpn.Verdict.Book.{ScoreBook, new_book, strong_signal, soft_signal, note, clamp}
use bye_bye_vpn.Verdict.Cdn.{looks_like_cdn_lb}
use bye_bye_vpn.Verdict.Outcome.{
  UdpHits, udp_hits, book_udp, book_hosting, asn_orgs_of, Evidence, tally, score_of, label_of,
  vpn_detected,
}
use bye_bye_vpn.Verdict.Rules.{
  penalty, proxy_open, absent_fresh, tls_rules, sni_rules, https_rules, j3_rules, udp_rules,
  port_penalty, ports_penalty, total_penalty,
}

-- The book stands at 100 - n, and lists a signal exactly if something was taken off.
pub record Ledger (b : ScoreBook) (n : ℕ) : Type 0 where
  pub owes : pos_part b.score + n ≡ neg_part b.score + 100
  pub listed : (length b.strong + length b.soft ≡ 0) ↔ (n ≡ 0)

module _ (b : ScoreBook) (m : Bytes) (p n : ℕ) (positive : 0 < p) (h : Ledger b n) where
  strong_signal-Ledger : Ledger (strong_signal m p b) (n + p)
  unfolding strong_signal
  strong_signal-Ledger = ground (arith, -ℤ_parts b.score (pos p), length-append b.strong (m ∷ []))

  soft_signal-Ledger : Ledger (soft_signal m p b) (n + p)
  unfolding soft_signal
  soft_signal-Ledger = ground (arith, -ℤ_parts b.score (pos p), length-append b.soft (m ∷ []))

note-Ledger : (b : ScoreBook) (tag m : Bytes) (n : ℕ) → Ledger b n → Ledger (note tag m b) n
unfolding note
note-Ledger b tag m n h = record { owes = h.owes; listed = h.listed }

module _ (pf : PortFp) (t : Tally) (n : ℕ) (h : Ledger t.book n) where
  tally_cdn-Ledger : (cdn : Bool) → Ledger (tally_cdn cdn pf t).book n
  unfolding tally_cdn
  tally_cdn-Ledger true = note-Ledger _ _ _ n h
  tally_cdn-Ledger false = h

  tally_proxy-Ledger : Ledger (tally_proxy pf t).book (n + penalty ((proxy_open pf, 15) ∷ []))
  unfolding tally_proxy strong_signal
  tally_proxy-Ledger = grind (arith, -ℤ_parts, length-append)

  tally_ct-Ledger : Ledger (tally_ct pf t).book (n + penalty ((absent_fresh pf, 10) ∷ []))
  unfolding tally_ct strong_signal note
  tally_ct-Ledger = grind (arith, -ℤ_parts, length-append)

  tally_tls-Ledger : Ledger (tally_tls pf t).book (n + penalty (tls_rules pf))
  unfolding tally_tls tally_handshake tally_version tally_self_signed tally_fresh strong_signal
      soft_signal note
  tally_tls-Ledger = grind (arith, -ℤ_parts, length-append)

  tally_sni-Ledger :
      (cdn : Bool) (orgs : List Bytes)
      → Ledger (tally_sni cdn orgs pf t).book (n + penalty (sni_rules cdn orgs pf))
  unfolding tally_sni strong_signal note
  tally_sni-Ledger cdn orgs = grind (arith, -ℤ_parts, length-append)

  tally_https-Ledger :
      (cdn : Bool) → Ledger (tally_https cdn pf t).book (n + penalty (https_rules cdn pf))
  unfolding tally_https tally_answer tally_leak strong_signal soft_signal note
  tally_https-Ledger cdn = grind (arith, -ℤ_parts, length-append)

  tally_j3-Ledger : Ledger (tally_j3 pf t).book (n + penalty (j3_rules pf))
  unfolding tally_j3 tally_canned tally_badver tally_raw strong_signal soft_signal
  tally_j3-Ledger = grind (arith, -ℤ_parts, length-append)

-- The loop body takes off what the rules give for the port.
tally_port-Ledger :
    (orgs : List Bytes) (pf : PortFp) (t : Tally) (n : ℕ)
    → Ledger t.book n
    → Ledger (tally_port orgs pf t).book (n + port_penalty orgs pf)
unfolding tally_port port_penalty
tally_port-Ledger orgs pf t n h =
    let cdn = looks_like_cdn_lb pf orgs in
    let proxied = tally_proxy-Ledger pf _ n (tally_cdn-Ledger pf t n h cdn) in
    let steered = tally_sni-Ledger pf _ _ (tally_tls-Ledger pf _ _ proxied) cdn orgs in
    let answered = tally_ct-Ledger pf _ _ (tally_https-Ledger pf _ _ steered cdn) in
    subst (Ledger _) (omega arith) (tally_j3-Ledger pf _ _ answered)

tally_ports-Ledger :
    (orgs : List Bytes) (fps : List PortFp) (t : Tally) (n : ℕ)
    → Ledger t.book n
    → Ledger (tally_ports orgs fps t).book (n + ports_penalty orgs fps)
unfolding tally_ports ports_penalty
tally_ports-Ledger orgs [] t n h = subst (Ledger _) (omega arith) h
tally_ports-Ledger orgs (pf ∷ fps) t n h =
    subst (Ledger _) (omega arith)
      (tally_ports-Ledger orgs fps _ _ (tally_port-Ledger orgs pf t n h))

book_udp-Ledger : (u : UdpHits) → Ledger (book_udp u new_book) (penalty (udp_rules u))
unfolding book_udp strong_signal soft_signal
book_udp-Ledger u = grind (arith, -ℤ_parts, length-append)

book_hosting-Ledger :
    (geos : List GeoInfo) (b : ScoreBook) (n : ℕ) → Ledger b n → Ledger (book_hosting geos b) n
unfolding book_hosting note
book_hosting-Ledger geos b n h = ground arith

tally-Ledger : (r : Evidence) → Ledger (tally r).book (total_penalty r)
unfolding tally total_penalty
tally-Ledger r =
    tally_ports-Ledger (asn_orgs_of r.geos) r.fps _ _
      (book_hosting-Ledger r.geos _ _ (book_udp-Ledger (udp_hits r.udp_probes)))

clamp_lem :
    (b : ScoreBook) (n : ℕ)
    → pos_part b.score + n ≡ neg_part b.score + 100
    → (clamp b).score ≡ pos (100 - n)
unfolding clamp
clamp_lem b n h = ground arith

-- The score is 100 less the weights of all the rules that fire, and 0 where they exceed 100.
pub score_of-total_penalty : (r : Evidence) → score_of r ≡ pos (100 - total_penalty r)
unfolding score_of
score_of-total_penalty r = clamp_lem (tally r).book (total_penalty r) (tally-Ledger r).owes

-- The score is 100 exactly if neither a strong nor a soft signal is listed.
pub score_of-signals :
    (r : Evidence)
    → (score_of r ≡ pos 100) ↔ (length (tally r).book.strong + length (tally r).book.soft ≡ 0)
score_of-signals r =
    let ledger = tally-Ledger r in
    rw (score_of-total_penalty r)
      ((λ e. ledger.listed.1 (ground arith)), (λ e. ground (arith, ledger.listed.0 e)))

ports_penalty-append :
    (orgs : List Bytes) (fps more : List PortFp)
    → ports_penalty orgs (fps ++ more) ≡ ports_penalty orgs fps + ports_penalty orgs more
unfolding ports_penalty
ports_penalty-append orgs [] more = omega arith
ports_penalty-append orgs (pf ∷ fps) more = omega (arith, ports_penalty-append orgs fps more)

-- Findings on further open ports never raise the score.
pub score_of_antitone :
    (r : Evidence) (more : List PortFp) → score_of (record r { fps = r.fps ++ more }) ≤ℤ score_of r
score_of_antitone r more =
    rw (score_of-total_penalty r, score_of-total_penalty (record r { fps = r.fps ++ more }))
      (unfold total_penalty in omega (arith, ports_penalty-append (asn_orgs_of r.geos) r.fps more))

-- `vpn_detected` holds exactly for the reports that are labelled HIGH-CONFIDENCE.
pub vpn_detected-label_of :
    (score : ℤ) → (vpn_detected score ≡ true) ↔ (label_of score ≡ text "HIGH-CONFIDENCE")
unfolding vpn_detected label_of text
vpn_detected-label_of score = (λ h. ground arith, λ h. ground arith)
