-- ===== src/Server/Slots.antt =====
-- The slots that are in use are those of the running calls, and never more than the capacity.
use cute_pcap_mcp.Base.{
  ◌≢◌, length-append, ltb→lt, ℕ, suc, ◌≤◌, false, List, ◌∷◌, ◌++◌, ◌≡◌, refl, sym, ap, ◌∙◌, ◌↔◌,
  inl, inr, ltb, arith, Bool-cases, length,
}
use cute_pcap_mcp.Base.Int.{ℤ}
use cute_pcap_mcp.Errors.{Err, ok, failed}
use cute_pcap_mcp.Errors.Laws.{ok_eq}
use cute_pcap_mcp.Server.{
  busy, Semaphore, new_semaphore, acquire_slot, release_slot, System, initial, Step, begin, refuse,
  finish, Steps, stay, next,
}

ok_not_failed : {A : Type 0} {a : A} {e : Err} → ok a ≢ failed e
ok_not_failed p = cc

pub record IsConsistent (s : System) : Type 0 where
  pub counted : s.sem.in_use ≡ length s.running
  pub within : s.sem.in_use ≤ s.sem.capacity

acquire_slot-ok :
    (s t : Semaphore)
    → acquire_slot s ≡ ok t
    → (t.in_use ≡ suc s.in_use) × (t.in_use ≤ t.capacity) × (t.capacity ≡ s.capacity)
unfolding acquire_slot
acquire_slot-ok s t e = elim (Bool-cases (ltb s.in_use s.capacity)) [
  | inl h ↦
      let same = ok_eq (rw h at e) in
      let a : t.in_use ≡ suc s.in_use = ap (λ u. u.in_use) (sym same) in
      let c : t.capacity ≡ s.capacity = ap (λ u. u.capacity) (sym same) in
      (a, omega (arith, ltb→lt s.in_use s.capacity h, a, c), c)
  | inr h ↦ absurd (ground (arith, h))
]

length-middle :
    (before after : List ℕ) (id : ℕ)
    → length (before ++ id ∷ after) ≡ suc (length (before ++ after))
length-middle before after id =
    omega (arith, length-append before (id ∷ after), length-append before after)

step-IsConsistent : {s t : System} → Step s t → IsConsistent s → IsConsistent t
unfolding release_slot
step-IsConsistent (begin {s} {t} id e) h =
    let (a, b, c) = acquire_slot-ok s.sem t e in
    record { counted = a ∙ ap (λ n. suc n) h.counted; within = b }
step-IsConsistent (refuse e) h = h
step-IsConsistent (finish {s} before after id e) h =
    let n = h.counted ∙ (ap length e ∙ length-middle before after id) in
    let w = h.within in record { counted = omega (arith, n); within = omega (arith, w) }

-- In every state that a server with some configured limit reaches, whatever the order of its calls,
-- the slots in use are as many as the running calls, and not more than the capacity.
pub reachable-IsConsistent : (limit : ℤ) (s : System) → Steps (initial limit) s → IsConsistent s
unfolding new_semaphore
reachable-IsConsistent limit s h = go h (record { counted = refl; within = omega arith })
  where
    go : {s t : System} → Steps s t → IsConsistent s → IsConsistent t
    go stay h = h
    go (next a b) h = go b (step-IsConsistent a h)

refused-full :
    (s : Semaphore) → (acquire_slot s ≡ failed (busy s)) ↔ (ltb s.in_use s.capacity ≡ false)
unfolding acquire_slot
refused-full s = elim (Bool-cases (ltb s.in_use s.capacity)) [
  | inl b ↦ (λ e. absurd (ok_not_failed (rw b at e)), λ e. absurd (ground (arith, b, e)))
  | inr b ↦ (λ e. b, λ e. rw b refl)
]

-- A call is refused in such a state exactly if as many calls run as the server has slots.
pub refused_iff :
    (limit : ℤ) (s : System)
    → Steps (initial limit) s
    → (acquire_slot s.sem ≡ failed (busy s.sem)) ↔ (length s.running ≡ s.sem.capacity)
refused_iff limit s h =
    let c = reachable-IsConsistent limit s h in
    full_iff s.sem.in_use (length s.running) s.sem.capacity c.counted c.within
      (acquire_slot s.sem ≡ failed (busy s.sem)) (refused-full s.sem)
  where
    full_iff :
        (used running capacity : ℕ)
        → used ≡ running
        → used ≤ capacity
        → (P : Type 0) → P ↔ (ltb used capacity ≡ false)
        → P ↔ (running ≡ capacity)
    full_iff used running capacity n w P p =
        (λ x. let b = p.0 x in ground (arith, b, n, w), λ q. p.1 (ground (arith, q, n, w)))
