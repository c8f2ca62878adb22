-- ===== src/DebUnpack/Volume/Sound.antt =====
-- cmd/deb-unpack: what holds of all unpacks in progress, whatever runs beside them.
use debuginfod_pwndbg_re.Prelude.{
  ℕ, true, false, ◌&&◌, List, [], ◌∷◌, Option, none, some, Bytes, codes, bytes_eq, bytes_eq_sound,
  has_suffix, ◌==◌, ==_iff, ◌≡◌, ◌≢◌, ◌⊎◌, inl, inr, refl, sym, ap, ◌∙◌, subst, arith, Bool-cases,
  Option-cases,
}
use mathlib.Core.Option.{some-injective}
use debuginfod_pwndbg_re.DebUnpack.{
  UnpackRequest, is_valid, tree_name, starts_with_dot, is_component, is_deleting, safe_key,
  SourceFile, stale_unpack_age, is_abandoned,
}
use debuginfod_pwndbg_re.DebUnpack.Names.{tree_name-IsPlain, safe_key_iff, IsPlainOrRoot}
use debuginfod_pwndbg_re.DebUnpack.Volume.{
  Node, Volume, same_place, put, Phase, starting, Answers, staging_name, advance, doomed_name,
  withdraw, Job, Unpacker, work_of, set_job, is_free, modified_of, IsYoung, Uses, Step, arrive,
  work, crash, delete, delete_component, remove_component, remove, sweep, wait, withdraw_component,
  remove_doomed,
}
use debuginfod_pwndbg_re.DebUnpack.Volume.Places.{
  put_elsewhere, same_place_sound, doomed-is_deleting,
}
use debuginfod_pwndbg_re.DebUnpack.Volume.Jobs.{OnWork, IsStaged, Staged, advance-Staged}
use debuginfod_pwndbg_re.DebUnpack.Volume.Writes.{
  next_work, next_work-cases, advance_work, advance_elsewhere,
}

module _ (extract : Bytes → Bytes → List SourceFile) where
  -- Requests are valid, each staging directory is as its unpack left it, and no two unpacks share
  -- one.
  pub record IsSound (s : Unpacker) : Type 0 where
    pub valid : (i : ℕ) (j : Job) → s.jobs i ≡ some j → is_valid j.request ≡ true
    pub staged :
        (i : ℕ) (j : Job) → s.jobs i ≡ some j → Staged extract s.now j.request j.phase s.volume
    pub apart :
        (i k : ℕ) (j j' : Job) (c w : Bytes)
        → s.jobs i ≡ some j
        → s.jobs k ≡ some j'
        → Uses j c w
        → Uses j' c w
        → i ≡ k

set_job-cases :
    (i k : ℕ) (new j : Job) (jobs : ℕ → Option Job)
    → set_job i (some new) jobs k ≡ some j
    → ((i ≡ k) × (new ≡ j)) ⊎ ((i ≢ k) × (jobs k ≡ some j))
set_job-cases i k new j jobs h = elim (Bool-cases (i == k)) [
  | inl e ↦ inl ((==_iff i k).0 e, some-injective _ _ (rw e at h))
  | inr e ↦ inr (ground (arith, e), rw e at h)
]

OnWork-map :
    (P Q : Bytes → Type 0) (o : Option Bytes)
    → ((w : Bytes) → o ≡ some w → P w → Q w)
    → OnWork P o
    → OnWork Q o
OnWork-map P Q none f h = tt
OnWork-map P Q (some w) f h = f w refl h

OnWork-at : (P : Bytes → Type 0) (o : Option Bytes) (w : Bytes) → o ≡ some w → OnWork P o → P w
OnWork-at P none w e h = cc
OnWork-at P (some x) w e h = subst P (some-injective _ _ e) h

-- Hidden names and the others are apart.
pub dotted_elsewhere :
    (c n c' w : Bytes)
    → starts_with_dot n ≡ false
    → starts_with_dot w ≡ true
    → same_place c n c' w ≡ false
dotted_elsewhere c n c' w f t = elim (Bool-cases (same_place c n c' w)) [
  | inr e ↦ e
  | inl e ↦ let same = (same_place_sound c n c' w e).1 in absurd (cc (ap starts_with_dot same))
]

root_name : (n : Bytes) → IsPlainOrRoot n → starts_with_dot n ≡ false
root_name n (inl r) = subst (λ m. starts_with_dot m ≡ false) (sym r) refl
root_name n (inr p) = p.2

pub safe_key_shown : (c n : Bytes) → safe_key c n ≡ true → starts_with_dot n ≡ false
safe_key_shown c n h = root_name n ((safe_key_iff c n).0 h).1

plain_doomed :
    (n : Bytes) → n ≢ [] → starts_with_dot n ≡ false → starts_with_dot (doomed_name n) ≡ false
unfolding doomed_name
plain_doomed [] e h = absurd (e refl)
plain_doomed (c ∷ n) e h = h

root_filled : (n : Bytes) → IsPlainOrRoot n → n ≢ []
root_filled n (inl r) = cc
root_filled n (inr p) = p.0

pub doomed_shown : (c n : Bytes) → safe_key c n ≡ true → starts_with_dot (doomed_name n) ≡ false
doomed_shown c n h =
    let p = ((safe_key_iff c n).0 h).1 in plain_doomed n (root_filled n p) (root_name n p)

pub withdraw_lem :
    (c n : Bytes) (v v' : Volume)
    → withdraw c n v ≡ some v'
    → (node : Node) × (v c n ≡ some node)
      × (v' ≡ put c (doomed_name n) (some node) (put c n none v))
unfolding withdraw
withdraw_lem c n v v' h = elim (Option-cases (v c n)) [
  | inl e ↦ absurd (cc (rw (e, withdraw) at h))
  | inr (node, e) ↦ elim (Bool-cases (is_free (v c (doomed_name n)))) [
    | inr f ↦ absurd (cc (rw (e, f, withdraw) at h))
    | inl f ↦ (node, e, sym (some-injective _ _ (rw (e, f, withdraw) at h)))
  ]
]

idle_user : (new j : Job) (c w : Bytes) → new ≡ j → work_of new.phase ≡ none → ¬ Uses j c w
idle_user new j c w e idle (u, _) =
    let idle' : work_of j.phase ≡ none = subst (λ x. work_of x.phase ≡ none) e idle in cc

component-cases :
    (c : Bytes)
    → is_component c ≡ true
    → (c ≡ codes "main")
      ⊎ (c ≡ codes "contrib")
      ⊎ (c ≡ codes "non-free")
      ⊎ (c ≡ codes "non-free-firmware")
unfolding is_component
component-cases c h = elim (Bool-cases (bytes_eq c (codes "main"))) [
  | inl e ↦ inl (bytes_eq_sound c _ e)
  | inr e ↦ elim (Bool-cases (bytes_eq c (codes "contrib"))) [
    | inl e' ↦ inr (inl (bytes_eq_sound c _ e'))
    | inr e' ↦ elim (Bool-cases (bytes_eq c (codes "non-free"))) [
      | inl e'' ↦ inr (inr (inl (bytes_eq_sound c _ e'')))
      | inr e'' ↦ inr (inr (inr (bytes_eq_sound c _ (rw (e, e', e'') at h))))
    ]
  ]
]

component_lasting : (c : Bytes) → is_component c ≡ true → is_deleting c ≡ false
unfolding is_deleting has_suffix bytes_eq
component_lasting c h = elim (component-cases c h) [
  | inl e ↦ rw e refl
  | inr (inl e) ↦ rw e refl
  | inr (inr (inl e)) ↦ rw e refl
  | inr (inr (inr e)) ↦ rw e refl
]

-- No component is one that was renamed.
pub doomed_component : (c c' : Bytes) → is_component c' ≡ true → bytes_eq (doomed_name c) c' ≡ false
doomed_component c c' h = elim (Bool-cases (bytes_eq (doomed_name c) c')) [
  | inr e ↦ e
  | inl e ↦
      let same = bytes_eq_sound (doomed_name c) c' e in
      let lasting : is_deleting c' ≡ false = component_lasting c' h in
      let gone : is_deleting c' ≡ true =
        subst (λ x. is_deleting x ≡ true) same (doomed-is_deleting c) in
      absurd (cc)
]

pub valid_component : (r : UnpackRequest) → is_valid r ≡ true → is_component r.component ≡ true
unfolding is_valid
valid_component r h = ground (arith, h)

module _ (extract : Bytes → Bytes → List SourceFile) where
  IsStaged-none :
      (now : ℕ) (r : UnpackRequest) (p : Phase) (w : Bytes) (found : Option Node)
      → IsStaged extract now r p w found
      → IsStaged extract now r p w none
  IsStaged-none now r p w found st = record {
    dotted = st.dotted;
    young = tt;
    ready = λ _ t e. absurd (cc);
  }

  -- The staging directory of an unpack, where it is left alone or its component goes.
  Staged-gone :
      (now : ℕ) (r : UnpackRequest) (p : Phase) (c : Bytes) (v : Volume)
      → is_valid r ≡ true
      → Staged extract now r p v
      → Staged extract now r p (withdraw_component c v)
  unfolding withdraw_component
  Staged-gone now r p c v ok = OnWork-map _ _ (work_of p) λ w e st.
      let elsewhere = doomed_component c r.component (valid_component r ok) in
      elim (Bool-cases (bytes_eq c r.component)) [
        | inl f ↦ rw (elsewhere, f) (IsStaged-none now r p w (v r.component w) st)
        | inr f ↦ rw (elsewhere, f) st
      ]

  Staged-same :
      (now : ℕ) (r : UnpackRequest) (p : Phase) (v v' : Volume)
      → ((w : Bytes)
          → work_of p ≡ some w
          → starts_with_dot w ≡ true
          → IsYoung now (v r.component w)
          → v' r.component w ≡ v r.component w)
      → Staged extract now r p v
      → Staged extract now r p v'
  Staged-same now r p v v' same =
      OnWork-map _ _ (work_of p)
        λ w e st. subst (IsStaged extract now r p w) (sym (same w e st.dotted st.young)) st

  -- The same for all unpacks, if another call writes the volume.
  volume-IsSound :
      (s : Unpacker) (v : Volume)
      → ((i : ℕ) (j : Job) (w : Bytes)
          → s.jobs i ≡ some j
          → work_of j.phase ≡ some w
          → starts_with_dot w ≡ true
          → IsYoung s.now (s.volume j.request.component w)
          → v j.request.component w ≡ s.volume j.request.component w)
      → IsSound extract s
      → IsSound extract (record s { volume = v })
  volume-IsSound s v same h = record {
    valid = h.valid;
    staged = λ i j e.
        Staged-same s.now j.request j.phase s.volume v (λ w. same i j w e) (h.staged i j e);
    apart = h.apart;
  }

  aged :
      (now : ℕ) (n : Bytes) (node : Node)
      → is_abandoned now stale_unpack_age n (some (modified_of node)) ≡ true
      → ¬ IsYoung now (some node)
  unfolding is_abandoned
  aged now n node h y = ground (arith, h, y)

  swept :
      (c n c' w : Bytes) (v : Volume) (node : Node) (now : ℕ)
      → v c n ≡ some node
      → is_abandoned now stale_unpack_age n (some (modified_of node)) ≡ true
      → IsYoung now (v c' w)
      → same_place c n c' w ≡ false
  swept c n c' w v node now there old young = elim (Bool-cases (same_place c n c' w)) [
    | inr e ↦ e
    | inl e ↦
        let (p, q) = same_place_sound c n c' w e in
        let same : v c' w ≡ some node =
          subst (λ d. v d w ≡ some node) p (subst (λ m. v c m ≡ some node) q there) in
        absurd (aged now n node old (subst (IsYoung now) same young))
  ]

  -- An unpack and another one never use one staging directory.
  no_clash :
      (s : Unpacker) (i k : ℕ) (j j' : Job) (a : Answers) (w : Bytes)
      → IsSound extract s
      → s.jobs i ≡ some j
      → s.jobs k ≡ some j'
      → i ≢ k
      → ((random : Bytes) (n : ℕ) (other : Job)
          → a.temp ≡ some random
          → s.jobs n ≡ some other
          → ¬ Uses other j.request.component (staging_name j.request random))
      → next_work a j.request j.phase ≡ some w
      → ¬ Uses j' j.request.component w
  no_clash s i k j j' a w h e e' ne fresh n (u, c) =
      elim (next_work-cases a j.request j.phase w n) [
        | inl old ↦ ne (h.apart i k j j' j.request.component w e e' (old, refl) (u, c))
        | inr (random, t, q) ↦ fresh random k j' t e' (u ∙ ap some (sym q), c)
      ]

  module _ (s : Unpacker) (i : ℕ) (j : Job) (a : Answers) (h : IsSound extract s)
      (e : s.jobs i ≡ some j)
      (fresh : (random : Bytes) (n : ℕ) (other : Job)
        → a.temp ≡ some random
        → s.jobs n ≡ some other
        → ¬ Uses other j.request.component (staging_name j.request random)) where
    abbrev p' : Phase
    p' = (advance a s.now j.request j.phase s.volume).0

    abbrev v' : Volume
    v' = (advance a s.now j.request j.phase s.volume).1

    others_staged :
        (k : ℕ) (j' : Job)
        → i ≢ k
        → s.jobs k ≡ some j'
        → Staged extract s.now j'.request j'.phase v'
    others_staged k j' ne e' =
        Staged-same s.now j'.request j'.phase s.volume v'
          (λ w u dotted _.
            advance_elsewhere j'.request.component w a s.now j.request j.phase s.volume
              (dotted_elsewhere j.request.component (tree_name j.request) j'.request.component w
                (tree_name-IsPlain j.request (h.valid i j e)).2 dotted)
              (λ x n.
                apart_places x w j' n (λ q.
                  no_clash s i k j j' a x h e e' ne fresh n (u ∙ ap some (sym q.1), sym q.0))))
          (h.staged k j' e')
      where
        apart_places :
            (x w : Bytes) (j' : Job)
            → next_work a j.request j.phase ≡ some x
            → ¬ ((j.request.component ≡ j'.request.component) × (x ≡ w))
            → same_place j.request.component x j'.request.component w ≡ false
        apart_places x w j' n differ =
            elim (Bool-cases (same_place j.request.component x j'.request.component w)) [
              | inr f ↦ f
              | inl f ↦
                  absurd (differ (same_place_sound j.request.component x j'.request.component w f))
            ]

    one_new :
        (k : ℕ) (j' : Job) (c w : Bytes)
        → i ≢ k
        → s.jobs k ≡ some j'
        → Uses (record j { phase = p' }) c w
        → ¬ Uses j' c w
    one_new k j' c w ne e' (u, c1) (u', c2) =
        no_clash s i k j j' a w h e e' ne fresh
          (advance_work a s.now j.request j.phase s.volume w u) (u', c2 ∙ sym c1)

    work_apart :
        (k m : ℕ) (j1 j2 : Job) (c w : Bytes)
        → set_job i (some (record j { phase = p' })) s.jobs k ≡ some j1
        → set_job i (some (record j { phase = p' })) s.jobs m ≡ some j2
        → Uses j1 c w
        → Uses j2 c w
        → k ≡ m
    work_apart k m j1 j2 c w e1 e2 u1 u2 =
        elim (set_job-cases i k (record j { phase = p' }) j1 s.jobs e1) [
          | inl (q, n) ↦ elim (set_job-cases i m (record j { phase = p' }) j2 s.jobs e2) [
            | inl (q', n') ↦ sym q ∙ q'
            | inr (ne, o) ↦ absurd (one_new m j2 c w ne o (subst (λ x. Uses x c w) (sym n) u1) u2)
          ]
          | inr (ne, o) ↦ elim (set_job-cases i m (record j { phase = p' }) j2 s.jobs e2) [
            | inl (q', n') ↦ absurd (one_new k j1 c w ne o (subst (λ x. Uses x c w) (sym n') u2) u1)
            | inr (ne', o') ↦ h.apart k m j1 j2 c w o o' u1 u2
          ]
        ]

    work-IsSound :
        (a.exits && a.succeeds ≡ true
          → a.extracted ≡ extract j.request.component (tree_name j.request))
        → IsSound extract
            (record s { volume = v'; jobs = set_job i (some (record j { phase = p' })) s.jobs })
    work-IsSound ex = record {
      valid = λ k j1 e1. elim (set_job-cases i k (record j { phase = p' }) j1 s.jobs e1) [
        | inl (q, n) ↦ subst (λ x. is_valid x.request ≡ true) n (h.valid i j e)
        | inr (ne, o) ↦ h.valid k j1 o
      ];
      staged = λ k j1 e1. elim (set_job-cases i k (record j { phase = p' }) j1 s.jobs e1) [
        | inl (q, n) ↦
            subst (λ x. Staged extract s.now x.request x.phase v') n
              (advance-Staged extract a s.now j.request j.phase s.volume ex (h.staged i j e))
        | inr (ne, o) ↦ others_staged k j1 ne o
      ];
      apart = work_apart;
    }

  young_again :
      (now now' : ℕ) (r : UnpackRequest) (p : Phase) (v : Volume)
      → ((w : Bytes) → work_of p ≡ some w → IsYoung now' (v r.component w))
      → Staged extract now r p v
      → Staged extract now' r p v
  young_again now now' r p v young =
      OnWork-map _ _ (work_of p)
        λ w e st. record { dotted = st.dotted; young = young w e; ready = st.ready }

  pub Step-IsSound : {s t : Unpacker} → Step extract s t → IsSound extract s → IsSound extract t
  Step-IsSound (arrive i r s ok free) h =
      let new : Job = record { request = r; phase = starting } in
      record {
        valid = λ k j e. elim (set_job-cases i k new j s.jobs e) [
          | inl (q, n) ↦ subst (λ x. is_valid x.request ≡ true) n ok
          | inr (ne, o) ↦ h.valid k j o
        ];
        staged = λ k j e. elim (set_job-cases i k new j s.jobs e) [
          | inl (q, n) ↦ subst (λ x. Staged extract s.now x.request x.phase s.volume) n tt
          | inr (ne, o) ↦ h.staged k j o
        ];
        apart = λ k m j j' c w e e' u u'. elim (set_job-cases i k new j s.jobs e) [
          | inl (q, n) ↦ absurd (idle_user new j c w n refl u)
          | inr (ne, o) ↦ elim (set_job-cases i m new j' s.jobs e') [
            | inl (q, n) ↦ absurd (idle_user new j' c w n refl u')
            | inr (ne', o') ↦ h.apart k m j j' c w o o' u u'
          ]
        ];
      }
  Step-IsSound (work i j a s e ex fresh) h = work-IsSound s i j a h e fresh ex
  Step-IsSound (crash s) h = record {
    valid = λ i j e. absurd (cc);
    staged = λ i j e. absurd (cc);
    apart = λ i k j j' c w e. absurd (cc);
  }
  Step-IsSound (delete c n v s ok root e) h =
      let (node, there, eq) = withdraw_lem c n s.volume v e in
      volume-IsSound s v
        (λ i j w _ _ dotted _.
          ap (λ u. u j.request.component w) eq
          ∙ put_elsewhere c (doomed_name n) _ _ _ w
              (dotted_elsewhere c _ _ w (doomed_shown c n ok) dotted)
          ∙ put_elsewhere c n _ _ _ w (dotted_elsewhere c n _ w (safe_key_shown c n ok) dotted))
        h
  Step-IsSound (delete_component c s ok) h = record {
    valid = h.valid;
    staged =
        λ i j e. Staged-gone s.now j.request j.phase c s.volume (h.valid i j e) (h.staged i j e);
    apart = h.apart;
  }
  Step-IsSound (remove_component c remains s) h =
      volume-IsSound s (remove_doomed c remains s.volume)
        (λ i j w e _ _ _.
          unfold remove_doomed in
          rw (doomed_component c j.request.component (valid_component j.request (h.valid i j e)))
            refl)
        h
  Step-IsSound (remove c n remains s del shown) h =
      volume-IsSound s _
        (λ i j w _ _ dotted _. put_elsewhere c n _ _ _ w (dotted_elsewhere c n _ w shown dotted)) h
  Step-IsSound (sweep c n node remains s there old) h =
      volume-IsSound s _
        (λ i j w _ _ dotted young.
          put_elsewhere c n _ _ _ w
            (swept c n j.request.component w s.volume node s.now there old young))
        h
  Step-IsSound (wait now' s young) h = record {
    valid = h.valid;
    staged = λ i j e.
        young_again s.now now' j.request j.phase s.volume (λ w. young i j w e) (h.staged i j e);
    apart = h.apart;
  }
