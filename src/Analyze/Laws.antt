-- ===== src/Analyze/Laws.antt =====
-- What the steps of an analysis read.
use cute_pcap_mcp.Base.{Bool, true, false, if◌then◌else◌}
use cute_pcap_mcp.Base.Text.{trim_space}
use cute_pcap_mcp.Errors.{Result}
use cute_pcap_mcp.Config.{Config}
use cute_pcap_mcp.Keylog.{Resolution, keylog_tshark_args}
use cute_pcap_mcp.Tshark.{Ran, run_report}
use cute_pcap_mcp.Zeek.Report.{ZeekReport, run_zeek}
use cute_pcap_mcp.Analyze.{AnalyzeInput, packet_row_limit, zeek_record_limit}
use cute_pcap_mcp.Analyze.State.{Env, State, keylog_of}
use cute_pcap_mcp.Analyze.Pipeline.{redacted}

pub if_both {ℓ κ} :
    {A : Type ℓ} (P : A → Type κ) (b : Bool) (x y : A) → P x → P y → P (if b then x else y)
if_both P true x y p q = p
if_both P false x y p q = q

module _ {F Addr : Type 0} (env : Env F Addr) (cfg : Config) (input : AnalyzeInput) where
  -- The report that the step reads, with the arguments for a key log.
  abbrev pub report_of : Resolution → State F → Ran
  report_of k s =
      run_report env.program env.timeout cfg.analysis.max_stdout_bytes env.read_csv
        (redacted env cfg input) s.out.artifact.path (packet_row_limit cfg input)
        (trim_space input.display_filter) (keylog_tshark_args (keylog_of k))

  abbrev pub zeek_of : Resolution → State F → Result (ZeekReport × Bool)
  zeek_of k s =
      run_zeek env.machine (redacted env cfg input) cfg (zeek_record_limit cfg input)
        s.out.artifact.path (keylog_of k)
