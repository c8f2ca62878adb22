-- ===== src/Releases/Tests.antt =====
-- Names of real assets, and one of nobody's.
use debuginfod_pwndbg_re.Prelude.{codes, bytes_eq, has_prefix, has_suffix, ◌≡◌, refl}
use debuginfod_pwndbg_re.Releases.{
  AssetClass, unknown_bucket, variant_of, format_of, split_words, join_words, os_of, machine_of,
  platform_of, classify_asset,
}
use debuginfod_pwndbg_re.Releases.Classes.{IsKnown, classify_asset-IsKnown}

program : Unit {0}
unfolding variant_of format_of split_words join_words os_of machine_of platform_of classify_asset
    bytes_eq has_prefix has_suffix
program = tt

abbrev portable : AssetClass
portable = record {
  variant = codes "pwndbg-gdb";
  platform = codes "macos/arm64";
  format = codes ".tar.xz";
}

classifies : classify_asset (codes "pwndbg_2026.02.18_macos_arm64-portable.tar.xz") ≡ portable
unfolding program
classifies = refl

x86 :
    (classify_asset (codes "pwndbg-lldb_2026.02.18_x86_64-portable.tar.xz")).platform
    ≡ codes "linux/x86_64"
unfolding program
x86 = refl

nobody : (classify_asset (codes "<script>")).variant ≡ unknown_bucket
unfolding program
nobody = refl

classify_asset-IsKnown_example : IsKnown (classify_asset (codes "<script>_1_x"))
classify_asset-IsKnown_example = classify_asset-IsKnown (codes "<script>_1_x")
