-- ===== src/Server/Tests.antt =====
-- A server with one slot: a call takes it, and the next one is refused.
use cute_pcap_mcp.Base.{[], ◌∷◌, ◌≡◌, refl, ◌↔◌, length}
use cute_pcap_mcp.Base.Int.{pos}
use cute_pcap_mcp.Errors.{failed}
use cute_pcap_mcp.Server.{
  System, Steps, stay, next, begin, initial, acquire_slot, busy, new_semaphore,
}
use cute_pcap_mcp.Server.Slots.{IsConsistent, reachable-IsConsistent, refused_iff}

code : Unit {0}
unfolding acquire_slot new_semaphore
code = tt

abbrev one_running : System
one_running = record { sem = record { capacity = 1; in_use = 1 }; running = 7 ∷ [] }

one_call : Steps (initial (pos 1)) one_running
unfolding code
one_call = next (begin 7 refl) stay

reachable-IsConsistent_example : IsConsistent one_running
reachable-IsConsistent_example = reachable-IsConsistent (pos 1) one_running one_call

refused_iff_example :
    (acquire_slot one_running.sem ≡ failed (busy one_running.sem))
    ↔ (length one_running.running ≡ one_running.sem.capacity)
refused_iff_example = refused_iff (pos 1) one_running one_call
