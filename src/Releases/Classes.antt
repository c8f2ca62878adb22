-- ===== src/Releases/Classes.antt =====
-- The vocabulary of classifyAsset (cmd/releases/assets.go).
use debuginfod_pwndbg_re.Prelude.{
  ◌||◌, List, [], ◌∷◌, ◌++◌, Bytes, codes, bytes_eq, has_prefix, has_suffix, if_intro, Member, ◌≡◌,
  refl, inl, inr, ◌⊎◌,
}
use debuginfod_pwndbg_re.Releases.{
  AssetClass, unknown_bucket, variant_of, known_formats, format_of, os_of, machine_of, platform_of,
  classify_asset,
}

abbrev pub variants : List Bytes
variants = codes "pwndbg-gdb" ∷ codes "pwndbg-lldb" ∷ unknown_bucket ∷ []

abbrev pub platforms : List Bytes
platforms =
    codes "linux/x86_64"
    ∷ codes "linux/arm64"
    ∷ codes "macos/x86_64"
    ∷ codes "macos/arm64"
    ∷ codes "any"
    ∷ unknown_bucket
    ∷ []

-- Every bucket is one of a closed vocabulary.
pub record IsKnown (c : AssetClass) : Type 0 where
  pub variant_known : Member c.variant variants
  pub platform_known : Member c.platform platforms
  pub format_known : Member c.format (unknown_bucket ∷ known_formats)

variant_of-known : (part : Bytes) → Member (variant_of part) variants
unfolding variant_of
variant_of-known part =
    if_intro (λ v. Member v variants)
      (bytes_eq part (codes "pwndbg") || bytes_eq part (codes "pwndbg-gdb")) (λ _. inl refl)
      (λ _.
        if_intro (λ v. Member v variants) (bytes_eq part (codes "pwndbg-lldb"))
          (λ _. inr (inl refl)) (λ _. inr (inr (inl refl))))

machine_of-known :
    (os plat : Bytes)
    → (os ≡ codes "linux") ⊎ (os ≡ codes "macos")
    → Member (machine_of os plat) platforms
unfolding machine_of
machine_of-known os plat which =
    if_intro (λ v. Member v platforms)
      (bytes_eq plat (codes "x86_64")
        || bytes_eq plat (codes "amd64")
        || bytes_eq plat (codes "x64"))
      (λ _. on_x86 which)
      (λ _.
        if_intro (λ v. Member v platforms)
          (bytes_eq plat (codes "arm64") || bytes_eq plat (codes "aarch64")) (λ _. on_arm which)
          (λ _.
            if_intro (λ v. Member v platforms) (bytes_eq plat [])
              (λ _. inr (inr (inr (inr (inl refl)))))
              (λ _. inr (inr (inr (inr (inr (inl refl))))))))
  where
    on_x86 : (os ≡ codes "linux") ⊎ (os ≡ codes "macos") → Member (os ++ codes "/x86_64") platforms
    on_x86 (inl e) = rw e (inl refl)
    on_x86 (inr e) = rw e (inr (inr (inl refl)))

    on_arm : (os ≡ codes "linux") ⊎ (os ≡ codes "macos") → Member (os ++ codes "/arm64") platforms
    on_arm (inl e) = rw e (inr (inl refl))
    on_arm (inr e) = rw e (inr (inr (inr (inl refl))))

abbrev NamesOs : Bytes × Bytes → Type 0
NamesOs r = (r.0 ≡ codes "linux") ⊎ (r.0 ≡ codes "macos")

os_of-known : (plat : Bytes) → NamesOs (os_of plat)
unfolding os_of
os_of-known plat =
    if_intro NamesOs (has_prefix plat (codes "macos_")) (λ _. inr refl)
      (λ _. if_intro NamesOs (has_prefix plat (codes "darwin_")) (λ _. inr refl) (λ _. inl refl))

other_platform : Member unknown_bucket platforms
other_platform = inr (inr (inr (inr (inr (inl refl)))))

platform_of-known : (parts : List Bytes) → Member (platform_of parts) platforms
unfolding platform_of
platform_of-known [] = other_platform
platform_of-known (v ∷ []) = other_platform
platform_of-known (v ∷ n ∷ []) = other_platform
platform_of-known (v ∷ n ∷ p ∷ rest) = machine_of-known _ _ (os_of-known _)

format_of-known :
    (name : Bytes) (formats : List Bytes)
    → Member (format_of name formats).0 (unknown_bucket ∷ formats)
unfolding format_of
format_of-known name [] = inl refl
format_of-known name (f ∷ rest) =
    if_intro (λ (r : Bytes × Bytes). Member r.0 (unknown_bucket ∷ f ∷ rest)) (has_suffix name f)
      (λ _. inr (inl refl))
      (λ _. elim (format_of-known name rest) [ inl e ↦ inl e | inr m ↦ inr (inr m) ])

-- No client can name a bucket: whatever the name of an asset, which comes out of a request, its
-- variant, its platform and its format are from fixed lists.
pub classify_asset-IsKnown : (name : Bytes) → IsKnown (classify_asset name)
unfolding classify_asset
classify_asset-IsKnown [] = record {
  variant_known = inr (inr (inl refl));
  platform_known = other_platform;
  format_known = inl refl;
}
classify_asset-IsKnown (c ∷ name) = record {
  variant_known = variant_of-known _;
  platform_known = platform_of-known _;
  format_known = format_of-known (c ∷ name) known_formats;
}
