-- ===== src/Errors/Tests.antt =====
-- The classification of one error.
use cute_pcap_mcp.Base.Text.{codes}
use cute_pcap_mcp.Errors.{classify, wrapped, err_size_mismatch}
use cute_pcap_mcp.Errors.Laws.{IsFaithful, classify-wrapped}

classify-wrapped_example :
    IsFaithful err_size_mismatch
      (codes "7 bytes")
      (classify (wrapped err_size_mismatch (codes "7 bytes")))
classify-wrapped_example = classify-wrapped err_size_mismatch (codes "7 bytes")
