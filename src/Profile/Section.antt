-- ===== src/Profile/Section.antt =====
-- The section of the profile and its findings: `buildF5LTMTLSDebugProfile`, `httpStatusClass` and
-- `buildF5ProfileFindings` of internal/pcap/profile_f5.go; the fixed limitations are left out.
use cute_pcap_mcp.Base.{
  ℕ, suc, Bool, true, false, ◌&&◌, List, [], ◌∷◌, ◌++◌, Option, none, some, ◌≡◌, ap, ltb,
  if◌then◌else◌, arith, length, refl,
}
use mathlib.Core.Option.{none, some}
use cute_pcap_mcp.Base.Sort.{sort}
use cute_pcap_mcp.Base.Text.{Bytes, codes, eq_bytes, lt_bytes, trim_space, is_empty}
use cute_pcap_mcp.Base.Text.Sets.{add_key}
use cute_pcap_mcp.Base.Int.{ℤ, pos, le_ℤ, lt_ℤ}
use cute_pcap_mcp.Command.{info, warning, Finding}
use cute_pcap_mcp.Signals.{Connection, TlsHandshake, HttpRequest}
use cute_pcap_mcp.Signals.Build.{Summary}
use cute_pcap_mcp.Signals.Health.{TcpHealth}
use cute_pcap_mcp.Profile.{Net, F5Context, int_to_string}
use cute_pcap_mcp.Profile.Hints.{Hint, build_snat_hints}
use cute_pcap_mcp.Profile.Hints.Laws.{IsSome, build_snat_hints-IsSome}

pub record ResetEvidence : Type 0 where
  pub total : ℕ
  pub originator_resets : ℕ
  pub responder_resets : ℕ
  pub connections : List Connection

-- A map from a text to a count, by its keys in the order of their first use.
abbrev pub Counts : Type 0
Counts = List (Bytes × ℕ)

unfoldable pub bump : Bytes → Counts → Counts
unfolding eq_bytes
bump key [] = (key, 1) ∷ []
bump key ((k, n) ∷ counts) =
    let rest = bump key counts in if eq_bytes k key then (k, suc n) ∷ counts else (k, n) ∷ rest

pub record TlsEvidence : Type 0 where
  pub handshake_count : ℕ
  pub distinct_sni : List Bytes
  pub versions : Counts
  pub ciphers : Counts
  pub handshakes : List TlsHandshake

pub record HttpEvidence : Type 0 where
  pub request_count : ℕ
  pub status_class_counts : Counts
  pub requests : List HttpRequest

-- `F5LTMTLSDebugSection`
pub record Section : Type 0 where
  pub context : Option F5Context
  pub resets : Option ResetEvidence
  pub tls : Option TlsEvidence
  pub http : Option HttpEvidence
  pub snat : List Hint

pub record Profile : Type 0 where
  pub name : Bytes
  pub section : Section
  pub findings : List Finding

abbrev is_between : ℕ → ℕ → ℤ → Bool
is_between low high code = le_ℤ (pos low) code && lt_ℤ code (pos high)

unfoldable pub http_status_class : ℤ → Bytes
http_status_class code =
    if is_between 100 200 code
    then codes "1xx"
    else if is_between 200 300 code
    then codes "2xx"
    else if is_between 300 400 code
    then codes "3xx"
    else if is_between 400 500 code
    then codes "4xx"
    else if is_between 500 600 code
    then codes "5xx"
    else codes "unknown"

abbrev unless_empty : {A : Type 0} → (Bytes → A → A) → Bytes → A → A
unless_empty f key a = if is_empty (trim_space key) then a else f (trim_space key) a

abbrev add_handshake : TlsHandshake → TlsEvidence → TlsEvidence
add_handshake h e = record e {
  distinct_sni = unless_empty add_key h.server_name e.distinct_sni;
  versions = unless_empty bump h.version e.versions;
  ciphers = unless_empty bump h.cipher e.ciphers;
}

unfoldable pub add_handshakes : TlsEvidence → List TlsHandshake → TlsEvidence
unfolding bump trim_space
add_handshakes e [] = e
add_handshakes e (h ∷ hs) = add_handshakes (add_handshake h e) hs

abbrev sorted_names : TlsEvidence → TlsEvidence
sorted_names e = record e { distinct_sni = sort lt_bytes e.distinct_sni }

unfoldable pub tls_evidence : List TlsHandshake → Option TlsEvidence
unfolding add_handshakes sort lt_bytes
tls_evidence [] = none
tls_evidence (h ∷ hs) = some (
    sorted_names (
      add_handshakes
        (record {
          handshake_count = length (h ∷ hs);
          distinct_sni = [];
          versions = [];
          ciphers = [];
          handshakes = h ∷ hs;
        })
        (h ∷ hs)))

unfoldable pub class_counts : Counts → List HttpRequest → Counts
unfolding bump http_status_class
class_counts counts [] = counts
class_counts counts (r ∷ rs) = class_counts (bump (http_status_class r.status_code) counts) rs

unfoldable pub http_evidence : List HttpRequest → Option HttpEvidence
unfolding class_counts
http_evidence [] = none
http_evidence (r ∷ rs) = some (record {
  request_count = length (r ∷ rs);
  status_class_counts = class_counts [] (r ∷ rs);
  requests = r ∷ rs;
})

abbrev reset_evidence : Option TcpHealth → Option ResetEvidence
reset_evidence none = none
reset_evidence (some h) =
    if ltb 0 h.reset_count
    then some (record {
      total = h.reset_count;
      originator_resets = h.by_originator;
      responder_resets = h.by_responder;
      connections = h.reset_connections;
    })
    else none

abbrev number : ℕ → Bytes
number n = int_to_string (pos n)

abbrev reset_finding : ResetEvidence → Finding
reset_finding r = record {
  code = codes "f5_profile_resets_observed";
  severity = warning;
  message =
      codes "Profile observed "
      ++ number r.total
      ++ codes " reset connection(s); originator side="
      ++ number r.originator_resets
      ++ codes ", responder side="
      ++ number r.responder_resets;
}

abbrev across_names : ℕ → Bytes
across_names n = if ltb 0 n then codes " across " ++ number n ++ codes " SNI name(s)" else []

abbrev tls_finding : TlsEvidence → Finding
tls_finding e = record {
  code = codes "f5_profile_tls_observed";
  severity = info;
  message =
      codes "Profile observed "
      ++ number e.handshake_count
      ++ codes " TLS handshake(s)"
      ++ across_names (length e.distinct_sni)
      ++ codes ".";
}

abbrev http_finding : HttpEvidence → Finding
http_finding e = record {
  code = codes "f5_profile_http_observed";
  severity = info;
  message =
      codes "Profile observed "
      ++ number e.request_count
      ++ codes " HTTP request(s) bucketed by status class.";
}

abbrev finding_if : {A : Type 0} → (A → ℕ) → (A → Finding) → Option A → List Finding
finding_if count f none = []
finding_if count f (some a) = if ltb 0 (count a) then f a ∷ [] else []

abbrev finding_of : {A : Type 0} → (A → Finding) → Option A → List Finding
finding_of f none = []
finding_of f (some a) = f a ∷ []

-- `buildF5ProfileFindings` with its three messages.
unfoldable pub profile_findings : Section → List Finding
unfolding int_to_string
profile_findings s =
    finding_of reset_finding s.resets
    ++ finding_if (λ e. e.handshake_count) tls_finding s.tls
    ++ finding_if (λ e. e.request_count) http_finding s.http

abbrev pub profile_name : Bytes
profile_name = codes "f5_ltm_tls_debug"

abbrev is_nil : {A : Type 0} → Option A → Bool
is_nil none = true
is_nil (some a) = false

abbrev no_hints : List Hint → Bool
no_hints [] = true
no_hints (h ∷ hs) = false

abbrev pub is_nothing : Section → Bool
is_nothing s =
    is_nil s.resets && is_nil s.tls && is_nil s.http && no_hints s.snat && is_nil s.context

abbrev pub profile_of : Section → Option Profile
profile_of s =
    if is_nothing s
    then none
    else some (record { name = profile_name; section = s; findings = profile_findings s })

module _ {Addr : Type 0} (net : Net Addr) where
  abbrev pub section_of :
      Option TcpHealth
      → List TlsHandshake
      → List HttpRequest
      → Option Summary
      → Option F5Context
      → Section
  section_of health tls http summary ctx = record {
    context = ctx;
    resets = reset_evidence health;
    tls = tls_evidence tls;
    http = http_evidence http;
    snat = build_snat_hints net summary ctx;
  }

  unfoldable pub build_f5_profile :
      Option TcpHealth
      → List TlsHandshake
      → List HttpRequest
      → Option Summary
      → Option F5Context
      → Option Profile
  unfolding build_snat_hints tls_evidence http_evidence profile_findings
  build_f5_profile health tls http summary ctx = profile_of (section_of health tls http summary ctx)

  has_hint :
      (a b c : Bool) (hints : List Hint) (d : Bool)
      → IsSome hints
      → (a && b && c && no_hints hints && d) ≡ false
  has_hint a b c [] d h = absurd h
  has_hint a b c (x ∷ xs) d h = ground arith

  -- A profile is always built, with every evidence and context and with none, since its SNAT hints are never
  -- empty; it has the context that was given.
  pub build_f5_profile-some :
      (health : Option TcpHealth) (tls : List TlsHandshake) (http : List HttpRequest)
      (summary : Option Summary) (ctx : Option F5Context)
      → (p : Profile) × (build_f5_profile health tls http summary ctx ≡ some p)
        × IsSome p.section.snat
        × (p.section.context ≡ ctx)
  unfolding build_f5_profile
  build_f5_profile-some health tls http summary ctx =
      let s = section_of health tls http summary ctx in
      let some_hint =
        has_hint (is_nil s.resets) (is_nil s.tls) (is_nil s.http) s.snat (is_nil s.context)
          (build_snat_hints-IsSome net summary ctx) in
      (
        record { name = profile_name; section = s; findings = profile_findings s },
        ap
            (λ b.
              if b
              then none
              else some
                  (record { name = profile_name; section = s; findings = profile_findings s }))
            some_hint,
        build_snat_hints-IsSome net summary ctx,
        refl,
      )
