-- ===== src/Prelude/Assoc.antt =====
-- Go maps with text keys, as association lists that hold each key once.
use Prim.Native.String.{String}
use mathlib.Core.Path.{◌≡◌}
use mathlib.Core.List.{List, [], ◌∷◌}
use mathlib.Core.Option.{Option, none, some}
use native.Mathlib.Omega.{arith}
use text.Mathlib.Text.{◌==◌ as str_eq}
use text.Mathlib.TextEquality.{eq_iff}
use debuginfod_pwndbg_re.Prelude.Tests.{if◌then◌else◌}

module _ {ℓ} {V : Type ℓ} where
  -- `v, ok := m[key]`
  unfoldable pub lookup : String → List (String × V) → Option V
  lookup key [] = none
  lookup key (e ∷ rest) = if str_eq e.0 key then some e.1 else lookup key rest

  -- `delete(m, key)`
  unfoldable pub erase : String → List (String × V) → List (String × V)
  erase key [] = []
  erase key (e ∷ rest) = let kept = erase key rest in if str_eq e.0 key then kept else e ∷ kept

  -- `m[key] = v`
  unfoldable pub put : String → V → List (String × V) → List (String × V)
  unfolding erase
  put key v entries = (key, v) ∷ erase key entries

  pub lookup-erase :
      (gone key : String) (entries : List (String × V))
      → lookup key (erase gone entries) ≡ (if str_eq gone key then none else lookup key entries)
  unfolding lookup erase
  lookup-erase gone key [] = ground arith
  lookup-erase gone key (e ∷ rest) =
      ground (arith, lookup-erase gone key rest, eq_iff gone key, eq_iff e.0 gone, eq_iff e.0 key)

  pub lookup-put :
      (set key : String) (v : V) (entries : List (String × V))
      → lookup key (put set v entries) ≡ (if str_eq set key then some v else lookup key entries)
  unfolding lookup put
  lookup-put set key v entries = ground (arith, lookup-erase set key entries)
