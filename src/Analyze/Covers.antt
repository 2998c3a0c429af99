-- ===== src/Analyze/Covers.antt =====
-- Each error of an analysis has a finding.
use cute_pcap_mcp.Base.{
  true, false, List, [], ◌∷◌, ◌++◌, map, Option, none, some, ◌≡◌, refl, sym, ap, ◌∙◌, ◌↔◌, ◌⊎◌, inl,
  inr, if◌then◌else◌, All, arith, Bool-cases,
}
use cute_pcap_mcp.Base.Text.{Bytes, codes, eq_bytes, eq_bytes_iff, mentions}
use cute_pcap_mcp.Base.Text.Splits.{lacks, lacks-Lacks, first_split, last_split}
use cute_pcap_mcp.Errors.{
  Kind, token, ToolError, Reason, reason_token, empty, invalid_format, out_of_range, contains_nul,
  too_long, invalid_request, missing_field, validation_failed, path_outside_allowlist,
  artifact_not_regular_file, artifact_not_found, pcap_too_large, empty_capture, no_packets_matched,
  invalid_filter, hash_mismatch, size_mismatch, output_limit_reached, tmp_budget_exceeded,
  analysis_busy, analyzer_unavailable, analyzer_failed, analyzer_timeout, frame_number_out_of_range,
  frame_not_on_stream,
}
use cute_pcap_mcp.Config.{Config}
use cute_pcap_mcp.Artifact.{ArtifactInfo}
use cute_pcap_mcp.Keylog.{DecryptionStatus, Resolution, finalize, keylog_path_or_empty}
use cute_pcap_mcp.Command.{Finding, warning}
use cute_pcap_mcp.Signals.Build.{Summary}
use cute_pcap_mcp.Analyze.{AnalyzeInput, AnalyzeOutput}
use cute_pcap_mcp.Analyze.State.{Env, State}
use cute_pcap_mcp.Analyze.Findings.{
  summary_findings, evidence_findings, distinct_warnings, error_key, error_finding, error_findings,
  build_findings, reason_text,
}
use cute_pcap_mcp.Analyze.Pipeline.{
  findings_of_profile, profile_step, conclude, gathered, resolution, analyze_artifact,
}

token-lacks_bar : (k : Kind) → lacks b'|' (token k) ≡ true
unfolding token
token-lacks_bar k = elim k as (λ k. lacks b'|' (token k) ≡ true) [
  | invalid_request ↦ refl
  | missing_field ↦ refl
  | validation_failed ↦ refl
  | path_outside_allowlist ↦ refl
  | artifact_not_regular_file ↦ refl
  | artifact_not_found ↦ refl
  | pcap_too_large ↦ refl
  | empty_capture ↦ refl
  | no_packets_matched ↦ refl
  | invalid_filter ↦ refl
  | hash_mismatch ↦ refl
  | size_mismatch ↦ refl
  | output_limit_reached ↦ refl
  | tmp_budget_exceeded ↦ refl
  | analysis_busy ↦ refl
  | analyzer_unavailable ↦ refl
  | analyzer_failed ↦ refl
  | analyzer_timeout ↦ refl
  | frame_number_out_of_range ↦ refl
  | frame_not_on_stream ↦ refl
]

reason-lacks_bar : (r : Option Reason) → lacks b'|' (reason_text r) ≡ true
unfolding reason_token
reason-lacks_bar none = refl
reason-lacks_bar (some r) = elim r as (λ r. lacks b'|' (reason_token r) ≡ true) [
  | empty ↦ refl
  | invalid_format ↦ refl
  | out_of_range ↦ refl
  | contains_nul ↦ refl
  | too_long ↦ refl
]

-- Two errors have one kind, one field and one reason.
abbrev pub Agrees : ToolError → ToolError → Type 0
Agrees e f =
    (token e.kind ≡ token f.kind)
    × (e.field ≡ f.field)
    × (reason_text e.reason ≡ reason_text f.reason)

error_key_iff : (e f : ToolError) → (error_key e ≡ error_key f) ↔ Agrees e f
unfolding error_key
error_key_iff e f = (
  λ h.
      let kind_of = λ (g : ToolError). lacks-Lacks b'|' (token g.kind) (token-lacks_bar g.kind) in
      let reason_of =
        λ (g : ToolError). lacks-Lacks b'|' (reason_text g.reason) (reason-lacks_bar g.reason) in
      let (a, rest) =
        first_split b'|' (token e.kind) (token f.kind)
          (e.field ++ (codes "|" ++ reason_text e.reason))
          (f.field ++ (codes "|" ++ reason_text f.reason)) (kind_of e) (kind_of f) h in
      let (b, c) =
        last_split b'|' e.field f.field (reason_text e.reason) (reason_text f.reason) (reason_of e)
          (reason_of f) rest in
      (a, b, c),
  λ (a, b, c). cc,
)

-- Some error of a list agrees with an error.
pub HasAgreeing : ToolError → List ToolError → Type 0
HasAgreeing e [] = ⊥
HasAgreeing e (k ∷ ks) = Agrees e k ⊎ HasAgreeing e ks

-- No two errors of a list agree.
pub AreApart : List ToolError → Type 0
AreApart [] = Unit
AreApart (k ∷ ks) = All (λ f. ¬ Agrees k f) ks × AreApart ks

-- Some elements of a list, in its order.
pub data IsPart {A : Type 0} : List A → List A → Type 0 where
  none_left : IsPart [] []
  taken : {x : A} {xs ys : List A} → IsPart xs ys → IsPart (x ∷ xs) (x ∷ ys)
  dropped : {y : A} {xs ys : List A} → IsPart xs ys → IsPart xs (y ∷ ys)

All-map {ℓ} :
    {A : Type ℓ} {P Q : A → Type 0} → ((a : A) → P a → Q a) → (xs : List A) → All P xs → All Q xs
All-map f [] h = tt
All-map f (x ∷ xs) (p, h) = (f x p, All-map f xs h)

error_findings-again :
    (seen : List Bytes) (e : ToolError) (es : List ToolError)
    → mentions (error_key e) seen ≡ true
    → error_findings seen (e ∷ es) ≡ error_findings seen es
unfolding error_findings
error_findings-again seen e es p =
    ap
      (λ b.
        if b
        then error_findings seen es
        else error_finding e ∷ error_findings (error_key e ∷ seen) es)
      p

error_findings-new :
    (seen : List Bytes) (e : ToolError) (es : List ToolError)
    → mentions (error_key e) seen ≡ false
    → error_findings seen (e ∷ es) ≡ error_finding e ∷ error_findings (error_key e ∷ seen) es
unfolding error_findings
error_findings-new seen e es p =
    ap
      (λ b.
        if b
        then error_findings seen es
        else error_finding e ∷ error_findings (error_key e ∷ seen) es)
      p

-- The errors that the loop over the errors keeps, with the keys that it saw before.
record IsKept (seen : List Bytes) (es : List ToolError) : Type 0 where
  kept : List ToolError
  shown : error_findings seen es ≡ map error_finding kept
  part : IsPart kept es
  apart : AreApart kept
  fresh : All (λ k. mentions (error_key k) seen ≡ false) kept
  covers : All (λ e. (mentions (error_key e) seen ≡ true) ⊎ HasAgreeing e kept) es

-- A key that was not seen with another one is neither of the two.
not_agreeing :
    (seen : List Bytes) (e f : ToolError)
    → mentions (error_key f) (error_key e ∷ seen) ≡ false
    → ¬ Agrees e f
unfolding mentions
not_agreeing seen e f h a =
    let same = (eq_bytes_iff (error_key e) (error_key f)).1 ((error_key_iff e f).1 a) in
    absurd (ground (arith, h, same))

still_fresh :
    (seen : List Bytes) (e f : ToolError)
    → mentions (error_key f) (error_key e ∷ seen) ≡ false
    → mentions (error_key f) seen ≡ false
unfolding mentions
still_fresh seen e f h = ground (arith, h)

-- An error that was seen, or agrees with a kept one, once another is kept before.
covered_before :
    (seen : List Bytes) (e : ToolError) (kept : List ToolError) (f : ToolError)
    → (mentions (error_key f) (error_key e ∷ seen) ≡ true) ⊎ HasAgreeing f kept
    → (mentions (error_key f) seen ≡ true) ⊎ HasAgreeing f (e ∷ kept)
unfolding mentions HasAgreeing
covered_before seen e kept f (inl h) = elim (Bool-cases (eq_bytes (error_key e) (error_key f))) [
  | inl p ↦
      let same = (eq_bytes_iff (error_key e) (error_key f)).0 p in
      inr (inl ((error_key_iff f e).0 (sym same)))
  | inr p ↦ inl (rw (p) at h)
]
covered_before seen e kept f (inr h) = inr (inr h)

error_findings-IsKept : (seen : List Bytes) (es : List ToolError) → IsKept seen es
unfolding AreApart HasAgreeing error_findings
error_findings-IsKept seen [] = record {
  kept = [];
  shown = refl;
  part = none_left;
  apart = tt;
  fresh = tt;
  covers = tt;
}
error_findings-IsKept seen (e ∷ es) = elim (Bool-cases (mentions (error_key e) seen)) [
  | inl p ↦
      let t = error_findings-IsKept seen es in
      record {
        kept = t.kept;
        shown = error_findings-again seen e es p ∙ t.shown;
        part = dropped t.part;
        apart = t.apart;
        fresh = t.fresh;
        covers = (inl p, t.covers);
      }
  | inr p ↦
      let t = error_findings-IsKept (error_key e ∷ seen) es in
      record {
        kept = e ∷ t.kept;
        shown = error_findings-new seen e es p ∙ ap (λ fs. error_finding e ∷ fs) t.shown;
        part = taken t.part;
        apart = (All-map (not_agreeing seen e) t.kept t.fresh, t.apart);
        fresh = (p, All-map (still_fresh seen e) t.kept t.fresh);
        covers = (inr (inl (refl, refl, refl)), All-map (covered_before seen e t.kept) es t.covers);
      }
]

none_seen :
    (kept : List ToolError) (e : ToolError)
    → (mentions (error_key e) [] ≡ true) ⊎ HasAgreeing e kept
    → HasAgreeing e kept
unfolding mentions
none_seen kept e (inl h) = absurd (ground (arith, h))
none_seen kept e (inr h) = h

-- The findings of an output are those on its evidence, one for each of the errors that are kept, those of the
-- summary, and those on the profile and on truncation; errors that are kept do not agree, and each error
-- agrees with a kept one.
pub record IsCovered {F : Type 0} (summary : Option Summary)
    (applied of_profile warnings : List Finding) (out : AnalyzeOutput F) : Type 0 where
  pub kept : List ToolError
  pub part : IsPart kept out.errors
  pub apart : AreApart kept
  pub covers : All (λ e. HasAgreeing e kept) out.errors
  pub shown :
      out.findings
      ≡ (evidence_findings out
          ++ map (λ e. record { code = token e.kind; severity = warning; message = e.message }) kept
          ++ summary_findings summary)
        ++ applied
        ++ of_profile
        ++ warnings

-- An output gets its findings.
with_findings-IsCovered :
    {F : Type 0} (out : AnalyzeOutput F) (summary : Option Summary)
    (applied of_profile warnings : List Finding) (status : DecryptionStatus)
    → IsCovered summary applied of_profile warnings (record out {
      findings = build_findings out summary ++ applied ++ of_profile ++ warnings;
      tls_decryption = status;
    })
unfolding build_findings evidence_findings
with_findings-IsCovered out summary applied of_profile warnings status =
    let t = error_findings-IsKept [] out.errors in
    record {
      kept = t.kept;
      part = t.part;
      apart = t.apart;
      covers = All-map (none_seen t.kept) out.errors t.covers;
      shown =
          ap
            (λ fs.
              (evidence_findings out ++ fs ++ summary_findings summary)
              ++ applied
              ++ of_profile
              ++ warnings)
            t.shown;
    }

module _ {F Addr : Type 0} (env : Env F Addr) (cfg : Config) (input : AnalyzeInput) where
  -- An output is covered with the findings on its profile and on truncation that a state stands for.
  abbrev pub IsCoveredFrom : State F → AnalyzeOutput F → Type 0
  IsCoveredFrom s out =
      let (with_profile, applied) = profile_step env cfg input s.out s.summary in
      IsCovered s.summary applied (findings_of_profile env cfg input with_profile.profile)
        (distinct_warnings [] s.truncations) out

  conclude-IsCovered : (k : Resolution) (s : State F) → IsCoveredFrom s (conclude env cfg input k s)
  unfolding conclude
  conclude-IsCovered k s =
      let p = profile_step env cfg input s.out s.summary in
      with_findings-IsCovered p.0 s.summary p.1 (findings_of_profile env cfg input p.0.profile)
        (distinct_warnings [] s.truncations)
        (finalize k.status k.detail s.keylog_failed (keylog_path_or_empty k.status k.path))

  -- The findings of an analysis are those on its evidence, then one for each kept error, with its kind as the
  -- code and its message, then those of the summary, of the profile and on truncation. The kept errors are
  -- errors of the output in their order; no two of them agree in kind, field and reason, and each error
  -- of the output agrees in these with a kept one, so it has a finding and errors that agree share one.
  pub analyze_artifact-IsCovered :
      (artifact : ArtifactInfo)
      → IsCoveredFrom (gathered env cfg input artifact) (analyze_artifact env cfg input artifact)
  unfolding analyze_artifact
  analyze_artifact-IsCovered artifact =
      conclude-IsCovered (resolution env cfg input) (gathered env cfg input artifact)
