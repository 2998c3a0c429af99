-- ===== src/Keylog/Tests.antt =====
-- A keylog with a comment, a broken line and a secret, and one without a secret.
use cute_pcap_mcp.Base.{ℕ, zero, suc, true, [], ◌∷◌, ◌++◌, some, ◌≡◌, refl, ◌↔◌}
use mathlib.Core.Option.{some}
use cute_pcap_mcp.Base.Text.{Bytes, codes, eq_bytes}
use cute_pcap_mcp.Config.{Config}
use cute_pcap_mcp.FilePaths.{FilePath, same_path}
use cute_pcap_mcp.Artifact.{Lookup, found}
use cute_pcap_mcp.Artifact.Tests.{absolute, links, real, stat, config}
use cute_pcap_mcp.Keylog.{
  keylog_invalid, unavailable, keylog_missing, not_requested, resolve_keylog, finalize,
}
use cute_pcap_mcp.Keylog.Accepted.{IsAccepted, resolve_keylog_iff}
use cute_pcap_mcp.Keylog.Report.{IsReported, reported, keylog-IsReported}

abbrev digits : ℕ → Bytes
digits zero = []
digits (suc n) = b'a' ∷ digits n

abbrev keylog : FilePath → Lookup Bytes
keylog p = found (
    codes "# a comment\n"
    ++ codes "CLIENT_RANDOM 12 34\n"
    ++ codes "CLIENT_RANDOM "
    ++ digits 64
    ++ codes " "
    ++ digits 96)

abbrev comments : FilePath → Lookup Bytes
comments p = found (codes "# a comment\n\n")

abbrev with_keylogs : Config
with_keylogs = record config {
  workspace = record config.workspace { keylog_dir = some (codes "pcaps" ∷ []) };
}

code : Unit {0}
unfolding resolve_keylog eq_bytes same_path finalize
code = tt

accepted : (resolve_keylog absolute links stat keylog (codes "link") with_keylogs).path ≡ some real
unfolding code
accepted = refl

only_comments :
    (resolve_keylog absolute links stat comments (codes "link") with_keylogs).status
    ≡ keylog_invalid
unfolding code
only_comments = refl

no_dir : (resolve_keylog absolute links stat keylog (codes "link") config).status ≡ unavailable
unfolding code
no_dir = refl

no_file :
    (resolve_keylog absolute links stat keylog (codes "other") with_keylogs).status ≡ keylog_missing
unfolding code
no_file = refl

no_path :
    (resolve_keylog absolute links stat keylog (codes " ") with_keylogs).status ≡ not_requested
unfolding code
no_path = refl

resolve_keylog_iff_example :
    ((resolve_keylog absolute links stat keylog (codes "link") with_keylogs).path ≡ some real)
    ↔ IsAccepted absolute links stat keylog (codes "link") with_keylogs real
resolve_keylog_iff_example =
    resolve_keylog_iff absolute links stat keylog (codes "link") with_keylogs real

keylog-IsReported_example :
    IsReported
      (resolve_keylog absolute links stat keylog (codes "link") with_keylogs)
      true
      (reported (resolve_keylog absolute links stat keylog (codes "link") with_keylogs) true)
keylog-IsReported_example =
    keylog-IsReported absolute links stat keylog (codes "link") with_keylogs true
