-- ===== src/NixStore/Images/Links.antt =====
-- cmd/nix-debuginfod/store.go: the names of images and the links of build ids.
use debuginfod_pwndbg_re.Prelude.{
  Bool, true, false, [], ◌∷◌, ◌++◌, Option, none, some, Bytes, codes, bytes_eq_refl, base, base_lem,
  all_by, All, All-append, ◌≡◌, ◌≢◌, refl, ap, ◌∙◌, subst, arith, Bool-cases, inl, inr,
  if◌then◌else◌,
}
use mathlib.Core.Option.{some-injective}
use mathlib.Core.List.{reverse, reverse-append, reverse-reverse}
use debuginfod_pwndbg_re.NixStore.Paths.{cut_prefix-append}
use debuginfod_pwndbg_re.NixStore.Images.{
  is_key_char, is_archive_key, image_name, cut_suffix, checked_key, key_from_image_name, ImageStore,
  insert, link_target, remembered,
}

cut_suffix-append : (s p : Bytes) → cut_suffix (s ++ p) p ≡ some s
unfolding cut_suffix
cut_suffix-append s p =
    rw
      (cut_suffix, reverse-append s p, cut_prefix-append (reverse p) (reverse s), reverse-reverse s)
      refl

all_key_chars : (s : Bytes) → all_by is_key_char s ≡ true → All (λ c. c ≢ b'/') s
unfolding is_key_char
all_key_chars [] h = tt
all_key_chars (c ∷ s) h = (ground (arith, h), all_key_chars s (ground (arith, h)))

image_name_slashes :
    (key : Bytes) → is_archive_key key ≡ true → All (λ c. c ≢ b'/') (image_name key)
unfolding image_name is_archive_key
image_name_slashes key h =
    All-append (λ c. c ≢ b'/') (codes "archive-") (key ++ codes ".erofs") (omega arith)
      (All-append (λ c. c ≢ b'/') key (codes ".erofs") (all_key_chars key (ground (arith, h)))
        (omega arith))

-- The link of a build id reads back.
key_from_image_name-image_name :
    (key : Bytes) → is_archive_key key ≡ true → key_from_image_name (image_name key) ≡ some key
unfolding key_from_image_name image_name
key_from_image_name-image_name key h =
    rw
      (
        key_from_image_name,
        image_name,
        cut_prefix-append (codes "archive-") (key ++ codes ".erofs"),
        cut_suffix-append key (codes ".erofs"),
        h,
      )
      refl

image_name-nonempty : (key : Bytes) → image_name key ≢ []
unfolding image_name
image_name-nonempty key e = cc

pub link_target-key :
    (key : Bytes)
    → is_archive_key key ≡ true
    → key_from_image_name (base (link_target key)) ≡ some key
link_target-key key h =
    ap key_from_image_name
      (base_lem (codes "..") (image_name key) (image_name-nonempty key) (image_name_slashes key h))
    ∙ key_from_image_name-image_name key h

pub checked_key-valid :
    (o : Option Bytes) (key : Bytes) → checked_key o ≡ some key → is_archive_key key ≡ true
checked_key-valid none key h = absurd cc
checked_key-valid (some k) key h = elim (Bool-cases (is_archive_key k)) [
  | inl e ↦ subst (λ x. is_archive_key x ≡ true) (some-injective _ _ (rw e at h)) e
  | inr e ↦ absurd (cc (rw e at h))
]

pub insert_self : {A : Type 0} (key : Bytes) (v : A) (m : Bytes → A) → insert key v m key ≡ v
insert_self key v m = rw (bytes_eq_refl key) refl

-- A property of both branches of a test.
pub both :
    {A : Type 0} (P : A → Type 0) (b : Bool) {x y : A}
    → (b ≡ true → P x)
    → (b ≡ false → P y)
    → P (if b then x else y)
both P true p q = p refl
both P false p q = q refl

-- The symlink, the image and the mount of a build id are there.
unfoldable pub IsWarm : Bytes → Bytes → ImageStore → Type 0
IsWarm build_id key s =
    (remembered build_id s ≡ some key) × (s.images key ≡ true) × (s.mounted key ≡ true)
