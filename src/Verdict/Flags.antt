-- ===== src/Verdict/Flags.antt =====
-- What the flags of the loop mean: each says that some port fires its rule.
use bye_bye_vpn.Common.{
  Bool, true, false, ◌||◌, List, [], ◌∷◌, ◌≡◌, refl, sym, ap, ◌∙◌, arith, inl, inr, Option-cases,
  leb, any, Bytes,
}
use bye_bye_vpn.Report.{PortFp, TlsProbe, J3Analysis, HttpsProbe}
use bye_bye_vpn.Verdict.Blocks.{
  Tally, tally_cdn, tally_proxy, tally_tls, tally_sni, tally_https, tally_ct, tally_j3, tally_port,
  tally_ports, tally_version, tally_self_signed, tally_fresh, tally_handshake, tally_canned,
  tally_badver, tally_raw, tally_answer, tally_leak,
}
use bye_bye_vpn.Verdict.Cdn.{is_known_cdn_asn, looks_like_cdn_lb}
use bye_bye_vpn.Verdict.Outcome.{asn_orgs_of, Evidence, tally}
use bye_bye_vpn.Verdict.Rules.{
  tls_works, steers, impersonates, proxy_open, canned, bad_version, absent_fresh,
}

pub record Flags : Type 0 where
  pub tls : Bool
  pub reality : Bool
  pub impersonation : Bool
  pub proxy : Bool
  pub canned_page : Bool
  pub badver : Bool
  pub ct_absent : Bool
  pub cdn_lb : Bool

abbrev pub flags : Tally → Flags
flags t = record {
  tls = t.any_tls;
  reality = t.any_reality;
  impersonation = t.any_impersonation;
  proxy = t.any_proxy_open;
  canned_page = t.any_j3_canned;
  badver = t.any_j3_badver;
  ct_absent = t.any_ct_absent_fresh;
  cdn_lb = t.any_cdn_lb_detected;
}

module _ (pf : PortFp) (tls : TlsProbe) (t : Tally) where
  tally_version-flags : flags (tally_version pf tls t) ≡ flags t
  unfolding tally_version
  tally_version-flags = ground arith

  tally_self_signed-flags : flags (tally_self_signed pf tls t) ≡ flags t
  unfolding tally_self_signed
  tally_self_signed-flags = ground arith

  tally_fresh-flags : flags (tally_fresh pf tls t) ≡ flags t
  unfolding tally_fresh
  tally_fresh-flags = ground arith

module _ (pf : PortFp) (a : J3Analysis) (t : Tally) where
  tally_canned-flags :
      flags (tally_canned pf a t)
      ≡ record (flags t) { canned_page = t.any_j3_canned || leb 2 a.canned_identical }
  unfolding tally_canned
  tally_canned-flags = ground arith

  tally_badver-flags :
      flags (tally_badver pf a t)
      ≡ record (flags t) { badver = t.any_j3_badver || leb 1 a.http_bad_version }
  unfolding tally_badver
  tally_badver-flags = ground arith

  tally_raw-flags : flags (tally_raw pf a t) ≡ flags t
  unfolding tally_raw
  tally_raw-flags = ground arith

module _ (pf : PortFp) where
  tally_answer-flags : (h : HttpsProbe) (t : Tally) → flags (tally_answer pf h t) ≡ flags t
  unfolding tally_answer
  tally_answer-flags h t = ground arith

  tally_leak-flags :
      (cdn : Bool) (h : HttpsProbe) (t : Tally) → flags (tally_leak cdn pf h t) ≡ flags t
  unfolding tally_leak
  tally_leak-flags cdn h t = ground arith

-- What each block of the loop's body does to the flags.
module _ (pf : PortFp) where
  abbrev cdn_flags : Bool → Flags → Flags
  cdn_flags cdn f = record f { cdn_lb = f.cdn_lb || cdn }

  abbrev proxy_flags : Flags → Flags
  proxy_flags f = record f { proxy = f.proxy || proxy_open pf }

  abbrev tls_flags : Flags → Flags
  tls_flags f = record f { tls = f.tls || tls_works pf }

  abbrev sni_flags : Bool → List Bytes → Flags → Flags
  sni_flags cdn orgs f = record f {
    reality = f.reality || steers cdn pf;
    impersonation = f.impersonation || impersonates cdn orgs pf;
  }

  abbrev ct_flags : Flags → Flags
  ct_flags f = record f { ct_absent = f.ct_absent || absent_fresh pf }

  abbrev j3_flags : Flags → Flags
  j3_flags f = record f {
    canned_page = f.canned_page || canned pf;
    badver = f.badver || bad_version pf;
  }

  -- The flags that one port sets.
  abbrev pub port_flags : List Bytes → Flags → Flags
  port_flags orgs f =
      let cdn = looks_like_cdn_lb pf orgs in
      j3_flags (ct_flags (sni_flags cdn orgs (tls_flags (proxy_flags (cdn_flags cdn f)))))

  module _ (t : Tally) where
    tally_cdn-flags : (cdn : Bool) → flags (tally_cdn cdn pf t) ≡ cdn_flags cdn (flags t)
    unfolding tally_cdn
    tally_cdn-flags cdn = ground arith

    tally_proxy-flags : flags (tally_proxy pf t) ≡ proxy_flags (flags t)
    unfolding tally_proxy
    tally_proxy-flags = ground arith

    tally_handshake-flags :
        (tls : TlsProbe) → flags (tally_handshake pf tls t) ≡ record (flags t) { tls = true }
    unfolding tally_handshake
    tally_handshake-flags tls =
        let t1 = record t { any_tls = true } in
        let t2 = tally_version pf tls t1 in
        tally_fresh-flags pf tls (tally_self_signed pf tls t2)
        ∙ tally_self_signed-flags pf tls t2
        ∙ tally_version-flags pf tls t1

    tally_tls-flags : flags (tally_tls pf t) ≡ tls_flags (flags t)
    unfolding tally_tls
    tally_tls-flags = elim (Option-cases pf.tls) [
      | inl e ↦ ground arith
      | inr (tls, e) ↦ ground (arith, tally_handshake-flags tls)
    ]

    tally_sni-flags :
        (cdn : Bool) (orgs : List Bytes)
        → flags (tally_sni cdn orgs pf t) ≡ sni_flags cdn orgs (flags t)
    unfolding tally_sni
    tally_sni-flags cdn orgs = ground arith

    tally_https-flags : (cdn : Bool) → flags (tally_https cdn pf t) ≡ flags t
    unfolding tally_https
    tally_https-flags cdn = elim (Option-cases pf.https) [
      | inl e ↦ ground arith
      | inr (h, e) ↦
          ground (arith, tally_leak-flags pf cdn h (tally_answer pf h t), tally_answer-flags pf h t)
    ]

    tally_ct-flags : flags (tally_ct pf t) ≡ ct_flags (flags t)
    unfolding tally_ct
    tally_ct-flags = ground arith

    tally_j3-flags : flags (tally_j3 pf t) ≡ j3_flags (flags t)
    unfolding tally_j3
    tally_j3-flags = elim (Option-cases pf.j3a) [
      | inl e ↦ ground arith
      | inr (a, e) ↦ ground (
        arith,
        tally_raw-flags pf a (tally_badver pf a (tally_canned pf a t)),
        tally_badver-flags pf a (tally_canned pf a t),
        tally_canned-flags pf a t,
      )
    ]

tally_port-flags :
    (orgs : List Bytes) (pf : PortFp) (t : Tally)
    → flags (tally_port orgs pf t) ≡ port_flags pf orgs (flags t)
unfolding tally_port
tally_port-flags orgs pf t =
    let cdn = looks_like_cdn_lb pf orgs in
    let after_tls =
      tally_tls-flags pf _
      ∙ ap (tls_flags pf)
          (tally_proxy-flags pf _ ∙ ap (proxy_flags pf) (tally_cdn-flags pf t cdn)) in
    let after_https =
      tally_https-flags pf _ cdn
      ∙ (tally_sni-flags pf _ cdn orgs ∙ ap (sni_flags pf cdn orgs) after_tls) in
    tally_j3-flags pf _ ∙ ap (j3_flags pf) (tally_ct-flags pf _ ∙ ap (ct_flags pf) after_https)

-- The flags that a list of ports sets, each by an independent scan of the list.
abbrev pub ports_flags : List Bytes → List PortFp → Flags → Flags
ports_flags orgs fps f = record {
  tls = f.tls || any tls_works fps;
  reality = f.reality || any (λ pf. steers (looks_like_cdn_lb pf orgs) pf) fps;
  impersonation =
      f.impersonation || any (λ pf. impersonates (looks_like_cdn_lb pf orgs) orgs pf) fps;
  proxy = f.proxy || any proxy_open fps;
  canned_page = f.canned_page || any canned fps;
  badver = f.badver || any bad_version fps;
  ct_absent = f.ct_absent || any absent_fresh fps;
  cdn_lb = f.cdn_lb || any (λ pf. looks_like_cdn_lb pf orgs) fps;
}

or_assoc : (a b c : Bool) → (a || b) || c ≡ a || (b || c)
or_assoc true b c = refl
or_assoc false b c = refl

tally_ports-flags :
    (orgs : List Bytes) (fps : List PortFp) (t : Tally)
    → flags (tally_ports orgs fps t) ≡ ports_flags orgs fps (flags t)
unfolding tally_ports
tally_ports-flags orgs [] t = ground arith
tally_ports-flags orgs (pf ∷ fps) t =
    tally_ports-flags orgs fps (tally_port orgs pf t)
    ∙ ap (ports_flags orgs fps) (tally_port-flags orgs pf t)
    ∙ simp or_assoc

abbrev pub none_set : Flags
none_set = record {
  tls = false;
  reality = false;
  impersonation = false;
  proxy = false;
  canned_page = false;
  badver = false;
  ct_absent = false;
  cdn_lb = false;
}

-- After the loop a flag is set exactly if its rule fires on some open port.
pub tally-flags : (r : Evidence) → flags (tally r) ≡ ports_flags (asn_orgs_of r.geos) r.fps none_set
unfolding tally
tally-flags r = tally_ports-flags (asn_orgs_of r.geos) r.fps _

module _ (orgs : List Bytes) (cdn : any is_known_cdn_asn orgs ≡ true) where
  no-steers : (fps : List PortFp) → any (λ pf. steers (looks_like_cdn_lb pf orgs) pf) fps ≡ false
  unfolding looks_like_cdn_lb
  no-steers [] = refl
  no-steers (pf ∷ fps) = ground (arith, no-steers fps)

  no-impersonates :
      (fps : List PortFp) → any (λ pf. impersonates (looks_like_cdn_lb pf orgs) orgs pf) fps ≡ false
  unfolding looks_like_cdn_lb
  no-impersonates [] = refl
  no-impersonates (pf ∷ fps) = ground (arith, no-impersonates fps)

-- On an address that some GeoIP provider places in the network of a known CDN, no port is ever held to
-- steer by SNI or to impersonate a brand.
pub known_cdn_suppresses :
    (r : Evidence)
    → any is_known_cdn_asn (asn_orgs_of r.geos) ≡ true
    → ((tally r).any_reality ≡ false) × ((tally r).any_impersonation ≡ false)
known_cdn_suppresses r h =
    let same = tally-flags r in
    (
      ap (λ f. f.reality) same ∙ no-steers (asn_orgs_of r.geos) h r.fps,
      ap (λ f. f.impersonation) same ∙ no-impersonates (asn_orgs_of r.geos) h r.fps,
    )

impersonates-steers :
    (orgs : List Bytes) (fps : List PortFp)
    → any (λ pf. impersonates (looks_like_cdn_lb pf orgs) orgs pf) fps ≡ true
    → any (λ pf. steers (looks_like_cdn_lb pf orgs) pf) fps ≡ true
impersonates-steers orgs [] h = cc
impersonates-steers orgs (pf ∷ fps) h = ground (arith, impersonates-steers orgs fps)

-- An impersonated brand is only ever reported beside SNI steering.
pub impersonation-reality :
    (r : Evidence) → (tally r).any_impersonation ≡ true → (tally r).any_reality ≡ true
impersonation-reality r h =
    let same = tally-flags r in
    ap (λ f. f.reality) same
    ∙ impersonates-steers (asn_orgs_of r.geos) r.fps (sym (ap (λ f. f.impersonation) same) ∙ h)
