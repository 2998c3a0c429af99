-- ===== src/Artifact/Laws.antt =====
-- What an inspected artifact satisfies.
use mathlib.Core.Path.{subst}
use cute_pcap_mcp.Base.{not-true, true, false, ◌≡◌, refl, ap}
use cute_pcap_mcp.Base.Text.{Bytes}
use cute_pcap_mcp.Errors.{ok}
use cute_pcap_mcp.Errors.Laws.{then_do-ok, require-ok, ok_eq}
use cute_pcap_mcp.FilePaths.{FilePath, under_any}
use cute_pcap_mcp.Config.{Config}
use cute_pcap_mcp.Artifact.{
  Lookup, found, not_exist, broken, FileInfo, ArtifactInfo, Expectations, Resolved, looked_up,
  plain_lookup, is_too_large, is_expected_size, is_expected_hash, resolve_artifact,
  inspect_artifact,
}

looked_up-ok :
    {A : Type 0} (p : FilePath) (l : Lookup A) {a : A} → looked_up p l ≡ ok a → l ≡ found a
unfolding looked_up
looked_up-ok p (found b) e = ap found (ok_eq e)
looked_up-ok p not_exist e = cc
looked_up-ok p (broken t) e = cc

plain_lookup-ok : {A : Type 0} (l : Lookup A) {a : A} → plain_lookup l ≡ ok a → l ≡ found a
plain_lookup-ok (found b) e = ap found (ok_eq e)
plain_lookup-ok not_exist e = cc
plain_lookup-ok (broken t) e = cc

module _ (absolute : Bytes → Lookup FilePath) (eval_symlinks : FilePath → Lookup FilePath)
    (stat : FilePath → Lookup FileInfo) where
  -- The path without links of the file that a text names, which lies under an allowed directory, and
  -- is regular and not too large.
  pub record IsResolved (path : Bytes) (cfg : Config) (r : Resolved) : Type 0 where
    pub abs : FilePath
    pub at : absolute path ≡ found abs
    pub real : eval_symlinks abs ≡ found r.path
    pub allowed : under_any r.path cfg.allowed_artifact_dirs ≡ true
    pub exists : stat r.path ≡ found r.info
    pub regular : r.info.is_regular ≡ true
    pub fits : is_too_large cfg.analysis.max_pcap_bytes r.info.size ≡ false

  pub resolve_artifact-IsResolved :
      (path : Bytes) (cfg : Config) (r : Resolved)
      → resolve_artifact absolute eval_symlinks stat path cfg ≡ ok r
      → IsResolved path cfg r
  unfolding resolve_artifact
  resolve_artifact-IsResolved path cfg r e =
      let (a, e1) = require-ok _ _ _ e in
      let (abs, b, e2) = then_do-ok _ _ e1 in
      let (real, c, e3) = then_do-ok _ _ e2 in
      let (d, e4) = require-ok _ _ _ e3 in
      let (info, f, e5) = then_do-ok _ _ e4 in
      let (g, e6) = require-ok _ _ _ e5 in
      let (h, e7) = require-ok _ _ _ e6 in
      subst (IsResolved path cfg) (ok_eq e7) (record {
        abs = abs;
        at = plain_lookup-ok _ b;
        real = looked_up-ok abs _ c;
        allowed = d;
        exists = looked_up-ok real _ f;
        regular = g;
        fits = not-true _ h;
      })

  module _ (read : FilePath → Lookup Bytes) (sha256_hex : Bytes → Bytes) where
    pub record IsInspected (path : Bytes) (cfg : Config) (x : Expectations) (a : ArtifactInfo)
        : Type 0 where
      pub info : FileInfo
      pub resolved : IsResolved path cfg (record { path = a.path; info = info })
      pub size : a.size_bytes ≡ info.size
      pub expected_size : is_expected_size x.size_bytes a.size_bytes ≡ true
      pub content : Bytes
      pub contents : read a.path ≡ found content
      pub hash : a.sha256 ≡ sha256_hex content
      pub expected_hash : is_expected_hash x.sha256 a.sha256 ≡ true

    -- An artifact is returned only for a regular file under an allowed directory, after links are
    -- resolved, that is not too large; its size and hash are those of the file and the expected
    -- ones, where they are given.
    pub inspect_artifact-IsInspected :
        (path : Bytes) (cfg : Config) (x : Expectations) (a : ArtifactInfo)
        → inspect_artifact absolute eval_symlinks stat read sha256_hex path cfg x ≡ ok a
        → IsInspected path cfg x a
    unfolding inspect_artifact
    inspect_artifact-IsInspected path cfg x a e =
        let (r, b, e1) = then_do-ok _ _ e in
        let (c, e2) = require-ok _ _ _ e1 in
        let (content, d, e3) = then_do-ok _ _ e2 in
        let (f, e4) = require-ok _ _ _ e3 in
        subst (IsInspected path cfg x) (ok_eq e4) (record {
          info = r.info;
          resolved = resolve_artifact-IsResolved path cfg r b;
          size = refl;
          expected_size = c;
          content = content;
          contents = plain_lookup-ok _ d;
          hash = refl;
          expected_hash = f;
        })
