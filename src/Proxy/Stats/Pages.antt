-- ===== src/Proxy/Stats/Pages.antt =====
-- cmd/proxy/stats.go: statsCollector, the finished pages and the handler of /stats. renderStats, the
-- format of HTTP dates and strconv.Atoi are arguments. The views are natural numbers: a request for
-- any other number finds no page, as here one that `atoi` refuses.
use debuginfod_pwndbg_re.Prelude.{
  ℕ, Bool, false, not, ◌&&◌, ◌||◌, String, List, [], ◌∷◌, ◌++◌, Option, none, some, Bytes, codes,
  bytes_eq, length, sort, ltb, leb, ◌==◌, if◌then◌else◌,
}
use debuginfod_pwndbg_re.Proxy.Headers.{set, format_int}
use debuginfod_pwndbg_re.Proxy.Response.{Call, edit, write_header, write, http_error}
use debuginfod_pwndbg_re.Proxy.Stats.{Snapshot, slice_snapshot}

abbrev pub stats_view_lengths : List ℕ
stats_view_lengths = 7 ∷ 30 ∷ 180 ∷ 360 ∷ []

unfoldable pub contains_view : List ℕ → ℕ → Bool
contains_view [] v = false
contains_view (x ∷ xs) v = x == v || contains_view xs v

-- The loop of NewStatsCollector.
unfoldable pub add_views : ℕ → List ℕ → List ℕ → List ℕ
add_views days views [] = views
add_views days views (v ∷ rest) =
    let views' =
      if ltb 0 v && leb v days && not (contains_view views v) then views ++ v ∷ [] else views in
    add_views days views' rest

unfoldable pub new_views : ℕ → List ℕ
new_views days = sort ltb (add_views days [] (stats_view_lengths ++ days ∷ []))

abbrev last_view : ℕ → List ℕ → ℕ
last_view d [] = d
last_view d (v ∷ rest) = last_view v rest

unfoldable pub default_view : ℕ → List ℕ → ℕ
default_view days views = last_view days views

pub record StatsPage : Type 0 where
  pub html : Bytes
  pub generated_at : ℕ
  pub etag : Bytes

abbrev pub Pages : Type 0
Pages = List (ℕ × StatsPage)

unfoldable pub find_page : ℕ → Pages → Option StatsPage
find_page v [] = none
find_page v (p ∷ pages) = if p.0 == v then some p.1 else find_page v pages

-- `W/"%d-%d-%d"` with the seconds of the snapshot.
unfoldable pub page_etag : ℕ → ℕ → ℕ → Bytes
page_etag unix view size =
    codes "W/"
    ++ b'"' ∷ format_int unix
    ++ b'-' ∷ format_int view
    ++ b'-' ∷ format_int size
    ++ b'"' ∷ []

module _ (less : String → String → Bool) (render : List ℕ → Snapshot → Bytes)
    (http_date : ℕ → Bytes) (atoi : Bytes → Option ℕ) where
  unfoldable pub make_page : List ℕ → ℕ → Snapshot → ℕ → StatsPage
  make_page views unix snap v =
      let body = render views (slice_snapshot less snap v) in
      record { html = body; generated_at = unix; etag = page_etag unix v (length body) }

  unfoldable pub make_pages : List ℕ → ℕ → Snapshot → List ℕ → Pages
  make_pages views unix snap [] = []
  make_pages views unix snap (v ∷ rest) =
      (v, make_page views unix snap v) ∷ make_pages views unix snap rest

  -- refresh: the pages behind it, by the result of CollectStats with the time of the snapshot.
  unfoldable pub refresh : List ℕ → Option (ℕ × Snapshot) → Option Pages → Option Pages
  refresh views none pages = pages
  refresh views (some (unix, snap)) pages = some (make_pages views unix snap views)

  -- viewFromRequest; `raw` is the parameter `days`.
  unfoldable pub view_from_request : ℕ → List ℕ → Bytes → Pages → ℕ
  view_from_request days views raw pages =
      let asked : ℕ = elim (atoi raw) [
        | none ↦ default_view days views
        | some v ↦ elim (find_page v pages) [ none ↦ default_view days views | some _ ↦ v ]
      ] in
      if bytes_eq raw [] then default_view days views else asked

  unfoldable pub page_for : ℕ → List ℕ → Bytes → Option Pages → Option StatsPage
  page_for days views raw none = none
  page_for days views raw (some pages) = find_page (view_from_request days views raw pages) pages

  unfoldable pub page_headers : StatsPage → List Call
  page_headers page =
      edit (set "content-type" (codes "text/html; charset=utf-8"))
      ∷ edit (set "etag" page.etag)
      ∷ edit (set "last-modified" (http_date page.generated_at))
      ∷ edit (set "cache-control" (codes "public, max-age=300"))
      ∷ []

  unfoldable pub answer_page : ℕ → Bytes → Option StatsPage → List Call
  answer_page now if_none_match none =
      edit (set "retry-after" (codes "30")) ∷ http_error now 503 (codes "stats not generated yet")
  answer_page now if_none_match (some page) =
      page_headers page
      ++ (if bytes_eq if_none_match page.etag
          then write_header 304 ∷ []
          else write_header 200 ∷ write now page.html ∷ [])

  -- Handler
  unfoldable pub handler : ℕ → ℕ → List ℕ → Bytes → Bytes → Option Pages → List Call
  handler now days views raw if_none_match pages =
      answer_page now if_none_match (page_for days views raw pages)
