-- ===== src/Ascii/Tests.antt =====
-- Runs of the extraction, and the theorems at concrete captures.
use cute_pcap_mcp.Base.{Bool, true, false, [], ◌∷◌, ◌++◌, some, ◌≡◌, refl}
use cute_pcap_mcp.Base.Text.{Bytes, codes}
use cute_pcap_mcp.Base.Int.{pos}
use cute_pcap_mcp.Ascii.Chunks.{contents, ending}
use cute_pcap_mcp.Ascii.Fields.{split, report_fields, extract_fields}
use cute_pcap_mcp.Ascii.Limits.{IsWithin, extract-IsWithin}
use cute_pcap_mcp.Ascii.{
  normalize, empty_report, Report, RawOptions, Reads, last, more, eof, extract,
}

abbrev keep : Bytes → Bytes × Bool
keep t = (t, false)

abbrev options : RawOptions
options = record {
  min_length = pos 3;
  max_strings = pos 10;
  max_bytes = pos 5;
  redact_secrets = true;
}

abbrev capture : Reads
capture = more (0 ∷ codes "ab") (more (codes "cd" ++ 0 ∷ codes "x") (last (0 ∷ codes "yyy") eof))

abbrev found : Report
found = record {
  min_length = 3;
  bytes_returned = 5;
  strings =
      record { offset = 1; length = 4; text = codes "abcd"; redacted = false }
      ∷ record { offset = 8; length = 3; text = codes "y"; redacted = false }
      ∷ [];
  truncated = true;
  redacted = false;
}

extract_splits :
    extract keep options capture
    ≡ some (record {
      min_length = 3;
      bytes_returned = 5;
      strings =
          record { offset = 1; length = 4; text = codes "abcd"; redacted = false }
          ∷ record { offset = 8; length = 3; text = codes "y"; redacted = false }
          ∷ [];
      truncated = true;
      redacted = false;
    })
unfolding extract
extract_splits = refl

extract_fields_example :
    extract keep options capture
    ≡ report_fields keep
        (normalize options)
        (ending capture)
        (split 0 (contents capture))
        (empty_report (normalize options))
extract_fields_example = extract_fields keep options capture

extract-IsWithin_example : IsWithin (normalize options) found
extract-IsWithin_example = extract-IsWithin keep options capture found extract_splits
