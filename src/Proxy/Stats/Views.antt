-- ===== src/Proxy/Stats/Views.antt =====
-- cmd/proxy/stats.go: which page a request for /stats gets.
use debuginfod_pwndbg_re.Prelude.{
  ℕ, ◌<◌, Bool, true, String, List, [], ◌∷◌, Option, none, some, Bytes, bytes_eq, bytes_eq_sound,
  bytes_eq_refl, length, ◌≢◌, leb, ◌&&◌, ◌||◌, sort, insert_sorted, ◌==◌, ==_iff, ◌≡◌, refl, ap,
  ◌∙◌, arith, Bool-cases, Option-cases, inl, inr, if◌then◌else◌,
}
use debuginfod_pwndbg_re.Proxy.Headers.{Headers, set}
use debuginfod_pwndbg_re.Proxy.Response.{
  LoggingWriter, new_writer, send_header, send_body, call, calls, http_error,
}
use debuginfod_pwndbg_re.Proxy.Stats.{Snapshot, slice_snapshot}
use debuginfod_pwndbg_re.Proxy.Stats.Pages.{
  contains_view, add_views, new_views, default_view, StatsPage, Pages, find_page, make_page,
  make_pages, refresh, view_from_request, page_for, page_etag, page_headers, answer_page, handler,
}

-- The longest view is the whole collection.
default_view-new_views : (days : ℕ) → 0 < days → default_view days (new_views days) ≡ days
unfolding default_view new_views add_views contains_view sort insert_sorted
default_view-new_views days h = ground arith

contains_view-new_views : (days : ℕ) → 0 < days → contains_view (new_views days) days ≡ true
unfolding new_views add_views contains_view sort insert_sorted
contains_view-new_views days h = ground arith

-- A view is offered if it is the whole collection, or one of four lengths within it.
unfoldable pub is_offered : ℕ → ℕ → Bool
is_offered days v = v == days || (leb v days && (v == 7 || (v == 30 || (v == 180 || v == 360))))

contains_view-is_offered :
    (days v : ℕ) → 0 < days → contains_view (new_views days) v ≡ is_offered days v
unfolding new_views add_views contains_view sort insert_sorted is_offered
contains_view-is_offered days v h = ground arith

-- The view that a request means: the one that it asks for, if it is offered, else the longest.
unfoldable pub meant_view : (Bytes → Option ℕ) → ℕ → Bytes → ℕ
meant_view atoi days raw =
    let asked : ℕ = elim (atoi raw) [
      | none ↦ days
      | some v ↦ if is_offered days v then v else days
    ] in
    if bytes_eq raw [] then days else asked

-- The last collection that succeeded.
unfoldable pub last_success : List (Option (ℕ × Snapshot)) → Option (ℕ × Snapshot)
last_success [] = none
last_success (r ∷ rest) = elim (last_success rest) [ none ↦ r | some s ↦ some s ]

module _ (less : String → String → Bool) (render : List ℕ → Snapshot → Bytes)
    (http_date : ℕ → Bytes) (atoi : Bytes → Option ℕ) where
  -- The refreshes of Worker, one behind the other.
  unfoldable pub refreshes : List ℕ → List (Option (ℕ × Snapshot)) → Option Pages → Option Pages
  refreshes views [] pages = pages
  refreshes views (r ∷ rest) pages =
      refreshes views rest (refresh less render http_date atoi views r pages)

  find_page-make_pages :
      (all : List ℕ) (unix : ℕ) (snap : Snapshot) (views : List ℕ) (v : ℕ)
      → find_page v (make_pages less render http_date atoi all unix snap views) ≡ (
          if contains_view views v
          then some (make_page less render http_date atoi all unix snap v)
          else none)
  unfolding find_page make_pages contains_view
  find_page-make_pages all unix snap [] v = refl
  find_page-make_pages all unix snap (x ∷ views) v = elim (Bool-cases (x == v)) [
    | inl e ↦
        rw e
          (ap (λ y. some (make_page less render http_date atoi all unix snap y)) ((==_iff x v).0 e))
    | inr e ↦ rw e (find_page-make_pages all unix snap views v)
  ]

  view_from_request-refresh :
      (days : ℕ) (raw : Bytes) (unix : ℕ) (snap : Snapshot)
      → 0 < days
      → (view_from_request less render http_date atoi days
            (new_views days)
            raw
            (make_pages less render http_date atoi (new_views days) unix snap (new_views days))
          ≡ meant_view atoi days raw)
        × (contains_view (new_views days) (meant_view atoi days raw) ≡ true)
  unfolding view_from_request meant_view
  view_from_request-refresh days raw unix snap pos =
      let d = default_view-new_views days pos in
      let known = contains_view-new_views days pos in
      elim (Bool-cases (bytes_eq raw [])) [
        | inl e ↦ rw (e, d) (refl, known)
        | inr e ↦ elim (Option-cases (atoi raw)) [
          | inl a ↦ rw (e, a, d) (refl, known)
          | inr (v, a) ↦
              let found = find_page-make_pages (new_views days) unix snap (new_views days) v in
              let offered = contains_view-is_offered days v pos in
              elim (Bool-cases (is_offered days v)) [
                | inl c ↦ rw (e, a, found, offered, c) (refl, offered ∙ c)
                | inr c ↦ rw (e, a, found, offered, c, d) (refl, known)
              ]
        ]
      ]

  page_for-refresh :
      (days : ℕ) (raw : Bytes) (unix : ℕ) (snap : Snapshot)
      → 0 < days
      → page_for less render http_date atoi days
          (new_views days)
          raw
          (some (make_pages less render http_date atoi (new_views days) unix snap (new_views days)))
        ≡ some (
            make_page less render http_date atoi
              (new_views days)
              unix
              snap
              (meant_view atoi days raw))
  unfolding page_for
  page_for-refresh days raw unix snap pos =
      let shown = view_from_request-refresh days raw unix snap pos in
      rw
        (
          shown.0,
          find_page-make_pages (new_views days) unix snap (new_views days)
              (meant_view atoi days raw),
          shown.1,
        )
        refl

  abbrev published : List ℕ → Option (ℕ × Snapshot) → Option Pages → Option Pages
  published views none pages = pages
  published views (some (unix, snap)) pages =
      some (make_pages less render http_date atoi views unix snap views)

  published_step :
      (views : List ℕ) (later r : Option (ℕ × Snapshot)) (pages : Option Pages)
      → published views later (refresh less render http_date atoi views r pages)
        ≡ published views (elim later [ none ↦ r | some s ↦ some s ]) pages
  unfolding refresh
  published_step views none none pages = refl
  published_step views none (some (unix, snap)) pages = refl
  published_step views (some (unix, snap)) r pages = refl

  refreshes_lem :
      (views : List ℕ) (results : List (Option (ℕ × Snapshot))) (pages : Option Pages)
      → refreshes views results pages ≡ published views (last_success results) pages
  unfolding refreshes refresh last_success
  refreshes_lem views [] pages = refl
  refreshes_lem views (r ∷ rest) pages =
      refreshes_lem views rest (refresh less render http_date atoi views r pages)
      ∙ published_step views (last_success rest) r pages

  abbrev pub shown_page : ℕ → Bytes → Option (ℕ × Snapshot) → Option StatsPage
  shown_page days raw none = none
  shown_page days raw (some (unix, snap)) =
      some
        (make_page less render http_date atoi (new_views days) unix snap (meant_view atoi days raw))

  shown_lem :
      (days : ℕ) (raw : Bytes) (last : Option (ℕ × Snapshot))
      → 0 < days
      → page_for less render http_date atoi days
          (new_views days)
          raw
          (published (new_views days) last none)
        ≡ shown_page days raw last
  unfolding page_for
  shown_lem days raw none pos = refl
  shown_lem days raw (some (unix, snap)) pos = page_for-refresh days raw unix snap pos

  handler-shown :
      (now days : ℕ) (raw if_none_match : Bytes) (results : List (Option (ℕ × Snapshot)))
      → 0 < days
      → handler less render http_date atoi now days
          (new_views days)
          raw
          if_none_match
          (refreshes (new_views days) results none)
        ≡ answer_page less render http_date atoi now if_none_match
            (shown_page days raw (last_success results))
  unfolding handler
  handler-shown now days raw if_none_match results pos =
      ap (answer_page less render http_date atoi now if_none_match) (
        ap (page_for less render http_date atoi days (new_views days) raw)
          (refreshes_lem (new_views days) results none)
        ∙ shown_lem days raw (last_success results) pos)

  -- A response with no page.
  pub record IsUnready (w : LoggingWriter) : Type 0 where
    pub headers : Headers
    pub committed_eq : w.committed ≡ some (503, headers)

  -- A response with a page of this body and tag, or with no body for a client that holds the tag.
  pub record IsPage (if_none_match tag body : Bytes) (unix : ℕ) (w : LoggingWriter) : Type 0 where
    pub headers : Headers
    pub tagged : headers "etag" ≡ tag
    pub dated : headers "last-modified" ≡ http_date unix
    pub fresh : if_none_match ≡ tag → (w.committed ≡ some (304, headers)) × (w.body ≡ [])
    pub stale : if_none_match ≢ tag → (w.committed ≡ some (200, headers)) × (w.body ≡ body)

  -- The body of a view of a collection.
  abbrev pub page_body : ℕ → Bytes → Snapshot → Bytes
  page_body days raw snap =
      render (new_views days) (slice_snapshot less snap (meant_view atoi days raw))

  -- What is due behind a collection that succeeded, or behind none.
  abbrev pub IsDue : ℕ → Bytes → Bytes → Option (ℕ × Snapshot) → LoggingWriter → Type 0
  IsDue days raw if_none_match none w = IsUnready w
  IsDue days raw if_none_match (some (unix, snap)) w =
      let body = page_body days raw snap in
      IsPage if_none_match (page_etag unix (meant_view atoi days raw) (length body)) body unix w

  answer_page-IsDue :
      (start now days : ℕ) (raw if_none_match : Bytes) (last : Option (ℕ × Snapshot))
      → IsDue days raw if_none_match last (
          calls
            (answer_page less render http_date atoi now if_none_match (shown_page days raw last))
            (new_writer start))
  unfolding answer_page page_headers make_page calls call send_header send_body http_error set
  answer_page-IsDue start now days raw if_none_match none = record {
    headers = _;
    committed_eq = refl;
  }
  answer_page-IsDue start now days raw if_none_match (some (unix, snap)) =
      let body = page_body days raw snap in
      let tag = page_etag unix (meant_view atoi days raw) (length body) in
      elim (Bool-cases (bytes_eq if_none_match tag)) [
        | inl same ↦ rw same (record {
          headers = _;
          tagged = refl;
          dated = refl;
          fresh = λ e. (refl, refl);
          stale = λ ne. absurd (ne (bytes_eq_sound if_none_match tag same));
        })
        | inr other ↦ rw other (record {
          headers = _;
          tagged = refl;
          dated = refl;
          fresh = λ e. absurd (ground (arith, bytes_eq_refl tag, e, other));
          stale = λ ne. (refl, refl);
        })
      ]

  -- What a client of /stats gets after any refreshes, if at least one day is collected. If none has
  -- succeeded, the status is 503. Otherwise the last one that succeeded is shown, whatever failed
  -- behind it: with its time, and with the tag of its page, under 304 with no body if the client
  -- named this tag, and under 200 with the page if not. The page is that of the view that the
  -- request asks for, if this is 7, 30, 180 or 360 days and within the collection, and of the whole
  -- collection otherwise.
  pub handler-refreshes :
      (start now days : ℕ) (raw if_none_match : Bytes) (results : List (Option (ℕ × Snapshot)))
      → 0 < days
      → IsDue days raw if_none_match (last_success results) (
          calls
            (handler less render http_date atoi now days
              (new_views days)
              raw
              if_none_match
              (refreshes (new_views days) results none))
            (new_writer start))
  handler-refreshes start now days raw if_none_match results pos =
      rw (handler-shown now days raw if_none_match results pos)
        (answer_page-IsDue start now days raw if_none_match (last_success results))
