-- ===== src/Lib.antt =====
-- Verification library of cute-pcap-mcp, a server that analyzes packet captures for a model host.
--
-- The server reads its configuration (internal/config/config.go), resolves the path of each call
-- against an allowlist and hashes the file (internal/pcap/server.go), takes one of a limited number
-- of analyzer slots, runs external analyzers and reports what they print. The part with the most
-- logic of its own is pcap_detect_symptoms (internal/pcap/diagnose.go): it parses the rows of tshark
-- into packets, groups them into flows, runs four detectors over the flows and returns symptoms and
-- findings. Errors of all parts are turned into tool errors in one place (internal/pcap/errors.go).
--
-- Modules and the code they model:
--   Base        lists, strings, integers and sorting, as the code uses them of Go's library;
--               Base.Text.Decimal and Base.Text.Atoi are the verb %d and strconv.Atoi
--   Errors      internal/pcap/errors.go: kinds, sentinels, `classify`; Err has a constructor for each
--               way in which the program makes an error
--   FilePaths   `pathContains`, `samePath` (internal/config/config.go), `underAny` (server.go)
--   Config      internal/config/config.go: `Normalize`, `normalizeWorkspace`, `resolveOptionalDir`
--   Artifact    internal/pcap/server.go: `resolveArtifactFile`, `inspectArtifact`
--   Server      internal/pcap/server.go: the semaphore of analyzer slots, and the steps that calls
--               take on it in any order
--   Ascii       internal/pcap/analyzer.go: `extractASCIIStrings`
--   Inventory   internal/pcap/artifact_inventory.go: the hash of a file under a budget, the order of the
--               cursor, the entry of a file; below it, Walk is the walk over the trees of the roots
--               with its limits, and Page is `listPCAPArtifactsWithOptions`
--   Diagnose    internal/pcap/diagnose.go: its types. Below it, Rows parses the rows, Flows groups
--               the packets, Windows holds the helpers over packets, Tls, Resets, Probes and Paths
--               are the four detectors, Run is `diagnoseSymptomsFromPackets`, Input the validation
--               and the findings for errors, Handler the whole call, which uses Artifact and Server
--   Command     internal/pcap/analyzer.go: the run of an analyzer with its bounded buffers, its errors and the
--               truncation that is tolerated, `analyzerStatuses`; `limitedBuffer` (server.go)
--   Keylog      internal/pcap/tls_decryption.go: the key log path, its validation, the decryption status
--   Tshark      internal/pcap/analyzer.go: `runTSharkReport`, the packet rows; `runTShark` (server.go)
--   Zeek        internal/pcap/analyzer.go: `parseZeekLog`; below it, Report is `runZeekReport`, and Print is a
--               printer of logs, which the code does not have, for the round trip
--   Capinfos    internal/pcap/capinfos.go, and the packet count of filter.go
--   Signals     internal/pcap/signals.go: the types and values of its records; below it, Rows are the
--               summaries of the logs, Build is `buildAnalysisSummary`, Health is `buildTCPHealth`
--   Profile     internal/pcap/profile_f5.go: `intToString`, and `validateF5Context` (analyzer.go); below it,
--               Hints are the SNAT hints and Section the evidence and the profile
--   Analyze     internal/pcap/analyzer.go: the input and its limits; below it, Findings is `buildFindings`,
--               State and Pipeline are `analyzeArtifact`, Markdown and Output the written files of
--               internal/pcap/artifacts.go
--   Outputs     internal/pcap/artifacts.go: the capture directory and the files in it, on a model of the disk
--   Filter      internal/pcap/filter.go: `runFilter`
--   Explain     internal/pcap/explain.go: the validation of the selector and the display filter; below it,
--               Frame and Resolve are the resolution of a selector
--   Handlers    internal/pcap/server.go: the handlers of pcap_validate, pcap_analyze and summarize_pcap, and
--               below it those of pcap_filter and pcap_explain_connection. Each goes through validation, the
--               inspection by Artifact, a slot of Server, and then the work of its component
-- A child named Laws, or for what it proves, holds the theorems of its parent; the tests and the
-- theorems at concrete inputs are in the modules named Tests.
--
-- How the code is modelled:
--   * A Go string is a list of bytes. TrimSpace, ToLower and ToUpper act on ASCII only.
--   * int and int64 are integers; sums and differences of times and lengths are wrapped to 64 bits
--     (Base.Int). Offsets and lengths of a file are natural numbers, as a file is below 2^63 bytes.
--   * The two float64 fields of an evidence are quotients of integers. The test of a ratio below 0.9 is
--     that of the exact quotient, which agrees with float64 for counts below 2^49.
--   * A nil pointer is `none`. A map is an association list in the order of first use; the symptoms of
--     probes come in the order of a permutation that the caller gives, for the map that Go visits in
--     an unspecified order.
--   * A loop that returns or breaks is structural recursion on what it ranges over, so no fuel is
--     needed; the climb to an existing ancestor recurses on the reversed path.
--   * A path in the file system is the list of segments of a clean absolute path. The file system,
--     SHA-256, the address parser, the csv reader, the parser of seconds, the redaction and the run of
--     tshark are functions that the model takes as arguments, so every theorem holds for all of them.
--   * The reads of a file are a sequence of chunks that ends in io.EOF or in another error.
--   * An analyzer is a function from its call (program, arguments, limits) to what the process wrote and how it
--     ended, or none for a program that is missing; what it left on the disk is a second function.
--   * The disk of the output workspace is the list of the directories under it and of the files in them; no
--     regular file lies beside these directories. A write that fails leaves no file. The time is given in its two formats, and stays the same in a call.
--   * The search for a free directory recurses on the 1000 attempts that the code makes; the loop over
--     the digits of intToString takes fuel, one more than the number, which has fewer digits.
--
-- Not modelled: logging, narratives of symptoms, texts of configuration errors, the fixed limitations of a
-- profile, the YAML and JSON codings, registration with the MCP library, get_server_info and the command line.
-- The redaction by regular expressions is an argument. Of list_pcap_artifacts, the decoding of the cursor, the
-- counts of the skips and the handler are not modelled: the listing takes the decoded cursor, and keeps the
-- reasons of the skips.
pub mod Base
pub mod Analyze
pub mod Artifact
pub mod Ascii
pub mod Capinfos
pub mod Command
pub mod Config
pub mod Diagnose
pub mod Errors
pub mod Explain
pub mod FilePaths
pub mod Filter
pub mod Handlers
pub mod Inventory
pub mod Keylog
pub mod Outputs
pub mod Profile
pub mod Server
pub mod Signals
pub mod Tshark
pub mod Zeek
