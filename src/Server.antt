-- ===== src/Server.antt =====
-- The analyzer slots of the server and the calls that share them: `newServerState`,
-- `acquireAnalyzerSlot`, `releaseAnalyzerSlot` of internal/pcap/server.go, and the handler of
-- pcap_validate. The channel `sem` is its capacity and the number of values in it.
pub mod Slots
mod Tests
use cute_pcap_mcp.Base.{
  ℕ, suc, ◌+◌, ◌-◌, ◌*◌, ◌<◌, ◌≤◌, Bool, true, false, not, ◌&&◌, ◌||◌, List, [], ◌∷◌, ◌++◌, map,
  Option, none, some, ◌≡◌, refl, sym, ap, ◌∙◌, ◌↔◌, ◌⊎◌, inl, inr, ltb, leb, ◌==◌, if◌then◌else◌,
  All, All-append, arith, Bool-cases, Option-cases, some_eq, length, any, all,
}
use cute_pcap_mcp.Base.Text.{Bytes, codes, is_empty}
use cute_pcap_mcp.Base.Text.Decimal.{decimal}
use cute_pcap_mcp.Base.Int.{ℤ, pos_part, le_zero}
use cute_pcap_mcp.Errors.{Err, Result, ok, failed, wrapped, err_analysis_busy, ToolError, classify}

pub record Semaphore : Type 0 where
  pub capacity : ℕ
  pub in_use : ℕ

unfoldable pub new_semaphore : ℤ → Semaphore
new_semaphore limit = record { capacity = if le_zero limit then 1 else pos_part limit; in_use = 0 }

-- The error of a server with no slot left.
unfoldable pub busy : Semaphore → Err
unfolding decimal
busy s =
    wrapped err_analysis_busy (decimal s.capacity ++ codes " concurrent analyzer slot(s) in use")

unfoldable pub acquire_slot : Semaphore → Result Semaphore
unfolding busy
acquire_slot s =
    if ltb s.in_use s.capacity then ok (record s { in_use = suc s.in_use }) else failed (busy s)

unfoldable pub release_slot : Semaphore → Semaphore
release_slot s = record s { in_use = s.in_use - 1 }

-- The calls that hold a slot, by a number for each.
pub record System : Type 0 where
  pub sem : Semaphore
  pub running : List ℕ

abbrev pub initial : ℤ → System
initial limit = record { sem = new_semaphore limit; running = [] }

-- What a call does to the server: it takes a slot, is refused, or ends and gives its slot back. Calls
-- run in their own goroutines, so the steps of different calls come in any order.
pub data Step : System → System → Type 0 where
  begin :
      {s : System} {t : Semaphore} (id : ℕ)
      → acquire_slot s.sem ≡ ok t
      → Step s (record { sem = t; running = id ∷ s.running })
  refuse : {s : System} {e : Err} → acquire_slot s.sem ≡ failed e → Step s s
  finish :
      {s : System} (before after : List ℕ) (id : ℕ)
      → s.running ≡ before ++ id ∷ after
      → Step s (record { sem = release_slot s.sem; running = before ++ after })

pub data Steps : System → System → Type 0 where
  stay : {s : System} → Steps s s
  next : {s t u : System} → Step s t → Steps t u → Steps s u
