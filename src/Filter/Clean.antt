-- ===== src/Filter/Clean.antt =====
-- A directory that was made for a run goes away with the file in it.
use cute_pcap_mcp.Base.{
  Bool, true, false, List, [], ◌∷◌, ◌≡◌, refl, sym, ap, ◌∙◌, inl, inr, All, arith, Bool-cases, any,
}
use cute_pcap_mcp.Base.Text.{Bytes, eq_bytes, eq_bytes_iff}
use cute_pcap_mcp.Base.Text.Laws.{eq_bytes_self}
use cute_pcap_mcp.Outputs.{
  File, Disk, is_dir, is_at, without, add_dir, put_file, remove_file, remove_dir,
}
use cute_pcap_mcp.Filter.{clean_up, pcap_file}

-- Each file lies in a directory of the disk.
abbrev pub IsTidy : Disk → Type 0
IsTidy disk = All (λ f. is_dir f.dir disk.dirs ≡ true) disk.files

without_none {ℓ} : {A : Type ℓ} (p : A → Bool) (xs : List A) → any p xs ≡ false → without p xs ≡ xs
without_none p [] h = refl
without_none p (x ∷ xs) h = elim (Bool-cases (p x)) [
  | inl t ↦ absurd (ground (arith, t, h))
  | inr f ↦ rw (f) (ap (λ t. x ∷ t) (without_none p xs (rw f at h)))
]

any-without {ℓ} :
    {A : Type ℓ} (p q : A → Bool) (xs : List A) → any p xs ≡ false → any p (without q xs) ≡ false
any-without p q [] h = refl
any-without p q (x ∷ xs) h = elim (Bool-cases (p x)) [
  | inl t ↦ absurd (ground (arith, t, h))
  | inr f ↦ elim (Bool-cases (q x)) [
    | inl t ↦ rw (t) (any-without p q xs (rw f at h))
    | inr u ↦ rw (u, f) (any-without p q xs (rw f at h))
  ]
]

-- No file of a tidy disk lies in a directory that is not there.
no_file_in :
    (dir : Bytes) (dirs : List Bytes) (files : List File)
    → is_dir dir dirs ≡ false
    → All (λ f. is_dir f.dir dirs ≡ true) files
    → any (λ f. eq_bytes f.dir dir) files ≡ false
no_file_in dir dirs [] n h = refl
no_file_in dir dirs (f ∷ files) n (p, h) = elim (Bool-cases (eq_bytes f.dir dir)) [
  | inl e ↦
      absurd (ground (arith, sym (ap (λ d. is_dir d dirs) ((eq_bytes_iff f.dir dir).0 e)) ∙ p, n))
  | inr e ↦ rw (e) (no_file_in dir dirs files n h)
]

none_at :
    (dir name : Bytes) (files : List File)
    → any (λ f. eq_bytes f.dir dir) files ≡ false
    → any (is_at dir name) files ≡ false
none_at dir name [] h = refl
none_at dir name (f ∷ files) h = elim (Bool-cases (eq_bytes f.dir dir)) [
  | inl e ↦ absurd (ground (arith, e, h))
  | inr e ↦ rw (e) (none_at dir name files (rw e at h))
]

removed :
    (f : File) (disk : Disk)
    → is_dir f.dir disk.dirs ≡ false
    → IsTidy disk
    → remove_dir f.dir (remove_file f.dir f.name (put_file f (add_dir f.dir disk))) ≡ disk
unfolding put_file remove_file remove_dir is_dir
removed f disk n h =
    let clear = no_file_in f.dir disk.dirs disk.files n h in
    let files =
      without_none (is_at f.dir f.name) disk.files (none_at f.dir f.name disk.files clear) in
    let dirs = without_none (eq_bytes f.dir) disk.dirs n in
    rw (files, eq_bytes_self f.dir, eq_bytes_self f.name, files, clear, dirs) refl

-- The disk is as it was before the directory was made for the file.
pub clean_up-put_file :
    (dir body : Bytes) (disk : Disk)
    → is_dir dir disk.dirs ≡ false
    → IsTidy disk
    → clean_up dir (put_file (pcap_file dir body) (add_dir dir disk)) ≡ disk
unfolding clean_up
clean_up-put_file dir body disk n h = removed (pcap_file dir body) disk n h
