-- ===== src/Errors/Laws.antt =====
-- What `classify` keeps of an error.
use cute_pcap_mcp.Base.{Bool, true, false, ◌++◌, none, ◌≡◌, refl}
use cute_pcap_mcp.Base.Text.{Bytes, codes}
use cute_pcap_mcp.Base.Text.Laws.{trim_prefix-append}
use cute_pcap_mcp.Errors.{
  failed, ok, Result, Err, then_do, require, ok, Sentinel, wrapped, ToolError, kind_of, classify,
  trim_sentinel_prefix, text, token, err_path_outside_allowlist, err_artifact_not_regular,
  err_artifact_not_found, err_analyzer_timeout, err_analysis_busy,
}

trim-wrapped : (s : Sentinel) (detail : Bytes) → trim_sentinel_prefix (wrapped s detail) s ≡ detail
unfolding trim_sentinel_prefix text
trim-wrapped s detail = trim_prefix-append (token (kind_of s) ++ codes ": ") detail

-- The sentinels whose message is a fixed sentence.
abbrev pub has_own_detail : Sentinel → Bool
has_own_detail err_path_outside_allowlist = false
has_own_detail err_artifact_not_regular = false
has_own_detail err_artifact_not_found = false
has_own_detail _ = true

abbrev pub may_retry : Sentinel → Bool
may_retry err_analyzer_timeout = true
may_retry err_analysis_busy = true
may_retry _ = false

pub record IsFaithful (s : Sentinel) (detail : Bytes) (t : ToolError) : Type 0 where
  pub kind : t.kind ≡ kind_of s
  pub retryable : t.retryable ≡ may_retry s
  pub message : has_own_detail s ≡ true → t.message ≡ detail
  pub reason : t.reason ≡ none

-- The tool error of a wrapped sentinel has the kind of the sentinel, is retryable exactly for a
-- timeout and a busy server, and repeats the detail except for the three path errors.
pub classify-wrapped :
    (s : Sentinel) (detail : Bytes) → IsFaithful s detail (classify (wrapped s detail))
unfolding classify kind_of
classify-wrapped err_path_outside_allowlist detail = record {
  kind = refl;
  retryable = refl;
  message = λ h. cc;
  reason = refl;
}
classify-wrapped err_artifact_not_regular detail = record {
  kind = refl;
  retryable = refl;
  message = λ h. cc;
  reason = refl;
}
classify-wrapped err_artifact_not_found detail = record {
  kind = refl;
  retryable = refl;
  message = λ h. cc;
  reason = refl;
}
classify-wrapped s detail = record {
  kind = refl;
  retryable = refl;
  message = λ h. trim-wrapped s detail;
  reason = refl;
}

-- The field of the tool error does not depend on the detail.
pub classify-field :
    (s : Sentinel) (detail other : Bytes)
    → (classify (wrapped s detail)).field ≡ (classify (wrapped s other)).field
unfolding classify
classify-field err_path_outside_allowlist detail other = refl
classify-field err_artifact_not_regular detail other = refl
classify-field s detail other = refl

pub then_do-ok {ℓ} :
    {A B : Type ℓ} (r : Result A) (k : A → Result B) {b : B}
    → then_do r k ≡ ok b
    → (a : A) × (r ≡ ok a) × (k a ≡ ok b)
unfolding then_do
then_do-ok (ok a) k e = (a, refl, e)
then_do-ok (failed x) k e = cc

pub require-ok {ℓ} :
    {A : Type ℓ} (b : Bool) (x : Err) (r : Result A) {a : A}
    → require b x r ≡ ok a
    → (b ≡ true) × (r ≡ ok a)
unfolding require
require-ok true x r e = (refl, e)
require-ok false x r e = cc

pub ok_eq : {A : Type 0} {a b : A} → ok a ≡ ok b → a ≡ b
ok_eq e = cc
