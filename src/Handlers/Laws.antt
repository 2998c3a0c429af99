-- ===== src/Handlers/Laws.antt =====
-- Every call gives its slot back, and a call that fails has no errors of sections.
use cute_pcap_mcp.Base.{
  suc, Bool, true, false, List, [], Option, none, some, ◌≡◌, refl, sym, ap, inl, inr, ltb,
  if◌then◌else◌, arith, Bool-cases,
}
use mathlib.Core.Option.{none, some}
use mathlib.Core.Path.{subst}
use cute_pcap_mcp.Base.Text.{Bytes, trim_space}
use cute_pcap_mcp.Base.Int.{ℤ}
use cute_pcap_mcp.Errors.{Result, ok, failed, then_do, ToolError, classify}
use cute_pcap_mcp.Errors.Laws.{ok_eq}
use cute_pcap_mcp.Explain.Frame.Laws.{failed_not_ok}
use cute_pcap_mcp.Config.{Config}
use cute_pcap_mcp.Artifact.{ArtifactInfo}
use cute_pcap_mcp.Server.{Semaphore, acquire_slot, release_slot}
use cute_pcap_mcp.Outputs.{Moment, Disk, OutputArtifact}
use cute_pcap_mcp.Filter.{FilterInput, System, run_filter, validate_filter_input}
use cute_pcap_mcp.Analyze.{AnalyzeInput, AnalyzeOutput, validate_analyze_input}
use cute_pcap_mcp.Analyze.State.{Env}
use cute_pcap_mcp.Analyze.Pipeline.{analyze_artifact}
use cute_pcap_mcp.Analyze.Laws.{if_both}
use cute_pcap_mcp.Analyze.Partial.{error-analyze_artifact}
use cute_pcap_mcp.Command.{Finding}
use cute_pcap_mcp.Explain.Resolve.{ResolvedSelector, resolve_selector}
use cute_pcap_mcp.Explain.{ExplainInput, validate_explain_input}
use cute_pcap_mcp.Handlers.{
  Reply, Served, refused, answered, inspected, in_slot, serve, analyze_error_output, with_written,
  persist, analyze_work, analyze_handler,
}
use cute_pcap_mcp.Handlers.Filtered.{
  FilterOutput, filter_reply, filter_error, filter_work, filter_handler,
}
use cute_pcap_mcp.Handlers.Explained.{
  scoped_input, zeek_report, explain_connection, explained, persisted, ExplainOutput, explain_error,
  explain_work, after_validation, explain_handler,
}

released : (s : Semaphore) → release_slot (record s { in_use = suc s.in_use }) ≡ s
unfolding release_slot
released s = ap (λ n. record s { in_use = n }) (omega arith)

acquired : (s t : Semaphore) → acquire_slot s ≡ ok t → release_slot t ≡ s
unfolding acquire_slot release_slot
acquired s t h = elim (Bool-cases (ltb s.in_use s.capacity)) [
  | inl p ↦
      let e : record s { in_use = suc s.in_use } ≡ t = ok_eq (rw (acquire_slot, p) at h) in
      subst (λ x. release_slot x ≡ s) e (released s)
  | inr p ↦ absurd (failed_not_ok (rw (acquire_slot, p) at h))
]

-- What holds of the reply, with the disk after it.
module _ {F Addr : Type 0} (env : Env F Addr) (sha256_hex : Bytes → Bytes) (cfg : Config) where
  module _ {A : Type 0} (fail : Option ArtifactInfo → ToolError → A)
      (work : ArtifactInfo → Disk → Reply A × Disk) (P : Reply A → Type 0)
      (refusals : (a : Option ArtifactInfo) (e : ToolError) → P (refused (fail a e)))
      (works : (a : ArtifactInfo) (disk : Disk) → P (work a disk).0) where
    abbrev IsServed : Semaphore → Served A → Type 0
    IsServed s r = (r.sem ≡ s) × P r.reply

    in_slot-IsServed :
        (a : ArtifactInfo) (s : Semaphore) (disk : Disk) (slot : Result Semaphore)
        → acquire_slot s ≡ slot
        → IsServed s (in_slot env sha256_hex cfg fail work a s disk slot)
    in_slot-IsServed a s disk (failed e) h = (refl, refusals (some a) (classify e))
    in_slot-IsServed a s disk (ok taken) h = (acquired s taken h, works a disk)

    serve-IsServed :
        (s : Semaphore) (disk : Disk) (r : Result ArtifactInfo)
        → IsServed s (serve env sha256_hex cfg fail work s disk r)
    unfolding serve
    serve-IsServed s disk (failed e) = (refl, refusals none (classify e))
    serve-IsServed s disk (ok a) = in_slot-IsServed a s disk (acquire_slot s) refl

  -- Either the call failed before any section ran, or it has no error of its own.
  abbrev pub IsHonest : Bool → AnalyzeOutput F → Type 0
  IsHonest true out = ((e : ToolError) × (out.error ≡ some e)) × (out.errors ≡ [])
  IsHonest false out = out.error ≡ none

  module _ (write : AnalyzeOutput F → Disk → Disk × Result (List OutputArtifact)) where
    written_same :
        (out : AnalyzeOutput F) (w : Disk × Result (List OutputArtifact))
        → out.error ≡ none
        → (with_written env sha256_hex cfg write out w).0.error ≡ none
    written_same out (disk, failed e) h = h
    written_same out (disk, ok as_) h = h

    persist_same :
        (wanted : Option Bool) (out : AnalyzeOutput F) (disk : Disk)
        → out.error ≡ none
        → (persist env sha256_hex cfg write wanted out disk).0.error ≡ none
    unfolding persist
    persist_same wanted out disk h =
        if_both (λ (r : AnalyzeOutput F × Disk). r.0.error ≡ none) _ _ _
          (written_same out (write out disk) h) h

    abbrev IsHonestReply : Reply (AnalyzeOutput F) → Type 0
    IsHonestReply r = IsHonest r.is_error r.output

    -- Whatever the input, the files and the analyzers, a call of pcap_analyze leaves the semaphore as it was;
    -- its reply is marked as an error exactly if the output has an error of the call, and then it has no
    -- errors of sections.
    pub analyze_handler-IsServed :
        (input : AnalyzeInput) (s : Semaphore) (disk : Disk)
        → ((analyze_handler env sha256_hex cfg write input s disk).sem ≡ s)
          × IsHonest
              (analyze_handler env sha256_hex cfg write input s disk).reply.is_error
              (analyze_handler env sha256_hex cfg write input s disk).reply.output
    unfolding analyze_handler
    analyze_handler-IsServed input s disk =
        serve-IsServed (analyze_error_output env sha256_hex cfg)
          (analyze_work env sha256_hex cfg write input) IsHonestReply (λ a e. ((e, refl), refl))
          (λ a d.
            persist_same input.write_artifacts (analyze_artifact env cfg input a) d
              (error-analyze_artifact env cfg input a))
          s disk
          (then_do (validate_analyze_input env.net input)
            (λ valid. inspected env sha256_hex cfg input.path input.expected))

    -- The same of pcap_explain_connection.
    module _ (quote : Bytes → Bytes) where
      abbrev IsHonestly : Reply (ExplainOutput F) → Type 0
      IsHonestly r = IsHonest r.is_error r.output.analysis

      explained_honest :
          (source : ArtifactInfo) (input : ExplainInput) (r : Result ResolvedSelector)
          → IsHonestly (explained env sha256_hex quote cfg source input r)
      explained_honest source input (failed e) = ((classify e, refl), refl)
      explained_honest source input (ok s) =
          error-analyze_artifact env cfg (scoped_input env sha256_hex quote cfg source input s)
            source

      connection_honest :
          (source : ArtifactInfo) (input : ExplainInput)
          → IsHonestly (explain_connection env sha256_hex quote cfg source input)
      unfolding explain_connection
      connection_honest source input = explained_honest source input (
          resolve_selector env.net quote env.program env.timeout env.parse_float
            (zeek_report env sha256_hex quote cfg source) source input)

      persisted_honest :
          (input : ExplainInput) (disk : Disk) (r : Reply (ExplainOutput F))
          → IsHonestly r
          → IsHonestly (persisted env sha256_hex quote cfg write input disk r).0
      persisted_honest input disk r h =
          let kept =
            persist env sha256_hex cfg write input.write_artifacts r.output.analysis disk in
          let next : Reply (ExplainOutput F) × Disk =
            (answered (record r.output { analysis = kept.0 }), kept.1) in
          elim (Bool-cases r.is_error) [
            | inl p ↦ subst (λ b. IsHonestly (if b then (r, disk) else next).0) (sym p) h
            | inr p ↦
                subst (λ b. IsHonestly (if b then (r, disk) else next).0) (sym p)
                  (persist_same input.write_artifacts r.output.analysis disk
                    (subst (λ b. IsHonest b r.output.analysis) p h))
          ]

      validated :
          (s : Semaphore) (disk : Disk) (r : Result ExplainInput)
          → ((after_validation env sha256_hex quote cfg write s disk r).sem ≡ s)
            × IsHonestly (after_validation env sha256_hex quote cfg write s disk r).reply
      validated s disk (failed e) = (refl, ((classify e, refl), refl))
      validated s disk (ok input) =
          serve-IsServed (explain_error env sha256_hex quote cfg)
            (explain_work env sha256_hex quote cfg write input) IsHonestly
            (λ a e. ((e, refl), refl))
            (λ a d.
              persisted_honest input d (explain_connection env sha256_hex quote cfg a input)
                (connection_honest a input))
            s disk (inspected env sha256_hex cfg input.path input.expected)

      -- A call of pcap_explain_connection leaves the semaphore as it was; its reply is marked as an error
      -- exactly if its analysis has an error of the call, and then it has no errors of sections.
      pub explain_handler-IsServed :
          (input : ExplainInput) (s : Semaphore) (disk : Disk)
          → ((explain_handler env sha256_hex quote cfg write input s disk).sem ≡ s)
            × IsHonest
                (explain_handler env sha256_hex quote cfg write input s disk).reply.is_error
                (explain_handler env sha256_hex quote cfg write input s disk).reply.output.analysis
      unfolding explain_handler
      explain_handler-IsServed input s disk =
          validated s disk (validate_explain_input env.net input)

  -- A reply of pcap_filter has an error and no artifact, or an artifact and no error.
  abbrev pub IsHonestFilter : Bool → FilterOutput → Type 0
  IsHonestFilter true out = ((e : ToolError) × (out.error ≡ some e)) × (out.artifact ≡ none)
  IsHonestFilter false out = (out.error ≡ none) × ((a : OutputArtifact) × (out.artifact ≡ some a))

  module _ (system : System) (now : Moment) where
    abbrev IsHonestWrite : Reply FilterOutput → Type 0
    IsHonestWrite r = IsHonestFilter r.is_error r.output

    filter_reply_honest :
        (filter : Bytes) (source : ArtifactInfo) (warnings : List Finding)
        (r : Result (OutputArtifact × ℤ))
        → IsHonestWrite (filter_reply env sha256_hex cfg system now filter source warnings r)
    filter_reply_honest filter source warnings (failed e) = ((classify e, refl), refl)
    filter_reply_honest filter source warnings (ok (a, n)) = (refl, (a, refl))

    -- A call of pcap_filter leaves the semaphore as it was; its reply is marked as an error exactly if it has
    -- an error, and has an artifact exactly if it has none.
    pub filter_handler-IsServed :
        (input : FilterInput) (s : Semaphore) (disk : Disk)
        → ((filter_handler env sha256_hex cfg system now input s disk).sem ≡ s)
          × IsHonestFilter
              (filter_handler env sha256_hex cfg system now input s disk).reply.is_error
              (filter_handler env sha256_hex cfg system now input s disk).reply.output
    unfolding filter_handler
    filter_handler-IsServed input s disk =
        let filter = trim_space input.display_filter in
        serve-IsServed (filter_error env sha256_hex cfg system now)
          (filter_work env sha256_hex cfg system now filter) IsHonestWrite
          (λ a e. ((e, refl), refl))
          (λ a d.
            let r = run_filter system cfg filter now a d in
            filter_reply_honest filter a r.warnings r.result)
          s disk
          (then_do (validate_filter_input input)
            (λ valid. inspected env sha256_hex cfg input.path input.expected))
