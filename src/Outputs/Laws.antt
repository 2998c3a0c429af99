-- ===== src/Outputs/Laws.antt =====
-- The directory of a run is one that was not there before.
use cute_pcap_mcp.Base.{
  ℕ, zero, suc, ◌+◌, ◌<◌, ◌≤◌, true, false, ◌++◌, Option, none, some, ◌≡◌, ◌≢◌, refl, sym, ◌∙◌, ◌⊎◌,
  inl, inr, arith, Bool-cases, Option-cases,
}
use mathlib.Core.Option.{none, some}
use cute_pcap_mcp.Base.Text.{Bytes, codes}
use cute_pcap_mcp.Errors.{Err, ok, failed, wrapped, err_analyzer_failed}
use mathlib.Core.Path.{subst}
use cute_pcap_mcp.Outputs.{
  Moment, Disk, capture_id_for, is_dir, name_of, add_dir, try_names, max_attempts, make_unique_dir,
}

ok_eq : {A : Type 0} {a b : A} → ok a ≡ ok b → a ≡ b
ok_eq e = ground (arith, e)

failed_not_ok : {A : Type 0} {a : A} {e : Err} → failed e ≢ ok a
failed_not_ok h = ground (arith, h)

pub same_or_above : (m n : ℕ) → m ≤ n → (m ≡ n) ⊎ (suc m ≤ n)
same_or_above m n h = ground (arith, h)

-- The attempt that made the directory, with those before it.
pub record IsFirstFree (base : Bytes) (disk : Disk) (attempts attempt : ℕ) (made : Bytes × Disk)
    : Type 0 where
  pub index : ℕ
  pub from : attempt ≤ index
  pub below : index < attempt + attempts
  pub name : made.0 ≡ name_of base index
  pub fresh : is_dir made.0 disk.dirs ≡ false
  pub earlier : (i : ℕ) → attempt ≤ i → i < index → is_dir (name_of base i) disk.dirs ≡ true
  pub disk_after : made.1 ≡ add_dir made.0 disk

module _ (refusal : Bytes → Option Bytes) where
  pub try_names-taken :
      (left attempt : ℕ) (base : Bytes) (disk : Disk)
      → is_dir (name_of base attempt) disk.dirs ≡ true
      → try_names refusal (suc left) attempt base disk
        ≡ try_names refusal left (suc attempt) base disk
  unfolding try_names
  try_names-taken left attempt base disk e = rw (try_names, e) refl

  pub try_names-created :
      (left attempt : ℕ) (base : Bytes) (disk : Disk)
      → is_dir (name_of base attempt) disk.dirs ≡ false
      → refusal (name_of base attempt) ≡ none
      → try_names refusal (suc left) attempt base disk
        ≡ ok (name_of base attempt, add_dir (name_of base attempt) disk)
  unfolding try_names
  try_names-created left attempt base disk e r = rw (try_names, e, r) refl

  try_names-refused :
      (left attempt : ℕ) (base : Bytes) (disk : Disk) (text : Bytes)
      → is_dir (name_of base attempt) disk.dirs ≡ false
      → refusal (name_of base attempt) ≡ some text
      → try_names refusal (suc left) attempt base disk
        ≡ failed (wrapped err_analyzer_failed (codes "create capture artifact dir: " ++ text))
  unfolding try_names
  try_names-refused left attempt base disk text e r = rw (try_names, e, r) refl

  -- The attempts that found a name taken go before those of a later one.
  later_free :
      (base : Bytes) (disk : Disk) (left attempt : ℕ) (made : Bytes × Disk)
      → is_dir (name_of base attempt) disk.dirs ≡ true
      → IsFirstFree base disk left (suc attempt) made
      → IsFirstFree base disk (suc left) attempt made
  later_free base disk left attempt made e f =
      let f_from = f.from in
      let f_below = f.below in
      record {
        index = f.index;
        from = omega (arith, f_from);
        below = omega (arith, f_below);
        name = f.name;
        fresh = f.fresh;
        earlier = λ i h k. elim (same_or_above attempt i h) [
          | inl q ↦ subst (λ n. is_dir (name_of base n) disk.dirs ≡ true) q e
          | inr q ↦ f.earlier i q k
        ];
        disk_after = f.disk_after;
      }

  this_free :
      (base : Bytes) (disk : Disk) (left attempt : ℕ)
      → is_dir (name_of base attempt) disk.dirs ≡ false
      → IsFirstFree base disk
          (suc left)
          attempt
          (name_of base attempt, add_dir (name_of base attempt) disk)
  this_free base disk left attempt e = record {
    index = attempt;
    from = omega arith;
    below = omega arith;
    name = refl;
    fresh = e;
    earlier = λ i h k. absurd (ground (arith, h, k));
    disk_after = refl;
  }

  try_names-IsFirstFree :
      (left attempt : ℕ) (base : Bytes) (disk : Disk) (made : Bytes × Disk)
      → try_names refusal left attempt base disk ≡ ok made
      → IsFirstFree base disk left attempt made
  unfolding try_names
  try_names-IsFirstFree zero attempt base disk made h = absurd (failed_not_ok h)
  try_names-IsFirstFree (suc left) attempt base disk made h =
      elim (Bool-cases (is_dir (name_of base attempt) disk.dirs)) [
        | inl e ↦ later_free base disk left attempt made e (
            try_names-IsFirstFree left (suc attempt) base disk made
              (sym (try_names-taken left attempt base disk e) ∙ h))
        | inr e ↦ elim (Option-cases (refusal (name_of base attempt))) [
          | inl r ↦
              subst (IsFirstFree base disk (suc left) attempt)
                (ok_eq (sym (try_names-created left attempt base disk e r) ∙ h))
                (this_free base disk left attempt e)
          | inr (text, r) ↦
              absurd (failed_not_ok (sym (try_names-refused left attempt base disk text e r) ∙ h))
        ]
      ]

  -- The directory that is made has the first of the 1000 names that was free: it was not there before, each
  -- name before it was, and it is all that is new on the disk.
  pub make_unique_dir-IsFirstFree :
      (hash : Bytes) (now : Moment) (disk : Disk) (made : Bytes × Disk)
      → make_unique_dir refusal hash now disk ≡ ok made
      → IsFirstFree (capture_id_for hash now) disk max_attempts 0 made
  unfolding make_unique_dir
  make_unique_dir-IsFirstFree hash now disk made h =
      try_names-IsFirstFree max_attempts 0 (capture_id_for hash now) disk made h
