-- ===== src/NixArchive.antt =====
-- nix/util.go: which compression the name of an archive announces. strings.ToLower is an argument.
use debuginfod_pwndbg_re.Prelude.{
  ℕ, true, ◌||◌, [], ◌∷◌, Bytes, codes, bytes_eq, bytes_eq_sound, has_suffix, All, ◌≡◌, ◌≢◌, refl,
  subst, Bool-cases, inl, inr, arith, if◌then◌else◌,
}

pub data Compression : Type 0 where
  xz : Compression
  gzip : Compression
  bzip2 : Compression
  uncompressed : Compression

unfoldable pub detect_compression : (Bytes → Bytes) → Bytes → Compression
detect_compression to_lower filename =
    let lower = to_lower filename in
    if has_suffix lower (codes ".tar.xz")
      || has_suffix lower (codes ".tar.lzma")
      || has_suffix lower (codes ".txz")
    then xz
    else if has_suffix lower (codes ".tar.gz")
        || has_suffix lower (codes ".tgz")
        || has_suffix lower (codes ".tar.Z")
    then gzip
    else if has_suffix lower (codes ".tar.bz2")
        || has_suffix lower (codes ".tbz2")
        || has_suffix lower (codes ".txz")
    then bzip2
    else uncompressed

All-has_suffix : (P : ℕ → Type 0) (s p : Bytes) → All P s → has_suffix s p ≡ true → All P p
unfolding has_suffix
All-has_suffix P [] p all h = subst (All P) (bytes_eq_sound [] p h) tt
All-has_suffix P (b ∷ s) p all h = elim (Bool-cases (bytes_eq (b ∷ s) p)) [
  | inl e ↦ subst (All P) (bytes_eq_sound (b ∷ s) p e) all
  | inr e ↦ All-has_suffix P s p all.1 (rw e at h)
]

last_differs : ¬ All (λ c. c ≢ b'Z') (codes ".tar.Z")
last_differs all = all.1.1.1.1.1.0 refl

-- The suffix ".tar.Z" has no effect on a name in lower case, and the second ".txz" none at all.
detect_compression_lem :
    (to_lower : Bytes → Bytes) (filename : Bytes)
    → All (λ c. c ≢ b'Z') (to_lower filename)
    → detect_compression to_lower filename ≡ (
        if has_suffix (to_lower filename) (codes ".tar.xz")
          || has_suffix (to_lower filename) (codes ".tar.lzma")
          || has_suffix (to_lower filename) (codes ".txz")
        then xz
        else if has_suffix (to_lower filename) (codes ".tar.gz")
            || has_suffix (to_lower filename) (codes ".tgz")
        then gzip
        else if has_suffix (to_lower filename) (codes ".tar.bz2")
            || has_suffix (to_lower filename) (codes ".tbz2")
        then bzip2
        else uncompressed)
unfolding detect_compression
detect_compression_lem to_lower filename lowered =
    elim (Bool-cases (has_suffix (to_lower filename) (codes ".tar.Z"))) [
      | inl e ↦ absurd (
          last_differs
            (All-has_suffix (λ c. c ≢ b'Z') (to_lower filename) (codes ".tar.Z") lowered e))
      | inr e ↦ rw e (ground arith)
    ]
