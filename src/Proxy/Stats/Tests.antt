-- ===== src/Proxy/Stats/Tests.antt =====
-- Three days of two hosts, and the page of the last one.
use debuginfod_pwndbg_re.Prelude.{
  ℕ, ◌+◌, Bool, false, String, List, [], ◌∷◌, Option, none, some, Bytes, codes, bytes_eq, lookup,
  erase, put, sort, insert_sorted, ◌≡◌, refl, arith, if◌then◌else◌,
}
use debuginfod_pwndbg_re.Proxy.Headers.{set, format_int, digits}
use debuginfod_pwndbg_re.Proxy.Response.{new_writer, calls, http_error}
use debuginfod_pwndbg_re.Proxy.Stats
use debuginfod_pwndbg_re.Proxy.Stats.{
  StatusCounts, ProbeDay, TrafficRow, Rows, Snapshot, total, replicate, set_day, record_day,
  day_index, day_list, smooth_window_for, sum_u, keys, host_before, sort_hosts_by_volume,
  country_before, sort_countries, traffic_weight, probe_weight, record_traffic, record_all_traffic,
  record_clients, record_probes, probe_sum, record_countries, record_recent, collect_stats,
  cut_series, cut_snapshot, slice_snapshot, is_offline, count_offline, offline_count,
}
use debuginfod_pwndbg_re.Proxy.Stats.Pages.{
  contains_view, add_views, new_views, default_view, find_page, page_etag, make_page, make_pages,
  refresh, view_from_request, page_for, page_headers, answer_page, handler,
}
use debuginfod_pwndbg_re.Proxy.Stats.Windows.{ShowsSame, slice_snapshot-collect_stats}
use debuginfod_pwndbg_re.Proxy.Stats.Views.{
  is_offered, meant_view, last_success, refreshes, IsDue, handler-refreshes,
}

program : Unit {0}
unfolding bytes_eq lookup erase put sort insert_sorted set format_int digits http_error total
    replicate Stats.set set_day record_day day_index day_list smooth_window_for sum_u keys
    host_before sort_hosts_by_volume country_before sort_countries traffic_weight probe_weight
    record_traffic record_all_traffic record_clients record_probes probe_sum record_countries
    record_recent collect_stats cut_series cut_snapshot slice_snapshot is_offline count_offline
    offline_count contains_view add_views new_views default_view find_page page_etag make_page
    make_pages refresh view_from_request page_for page_headers answer_page handler is_offered
    meant_view last_success refreshes
program = tt

abbrev never : String → String → Bool
never a b = false

abbrev served : ℕ → StatusCounts
served n = record { served = n; aborted = 0; not_found = 0; err5xx = 0 }

abbrev probed : ℕ → ℕ → ProbeDay
probed n m = record { succeeded = n; failed = m; p50 = 9; p95 = 12; fail_p50 = 0; fail_p95 = 0 }

abbrev rows : Rows
rows = record {
  traffic =
      record { day = 98; host = "fedora"; endpoint = "source"; counts = served 7 }
      ∷ record { day = 100; host = "debian"; endpoint = "debuginfo"; counts = served 5 }
      ∷ record { day = 98; host = "unresolved"; endpoint = "source"; counts = served 1 }
      ∷ record { day = 90; host = "debian"; endpoint = "source"; counts = served 3 }
      ∷ [];
  clients = record { day = 99; ips = 2; build_ids = 4; requests = 5 } ∷ [];
  probes =
      record { day = 98; host = "fedora"; probes = probed 3 1 }
      ∷ record { day = 100; host = "debian"; probes = probed 6 2 }
      ∷ [];
  countries = record { day = 100; country = "PL"; requests = 5; uniques = 2 } ∷ [];
  recent = ("debian", 8) ∷ [];
}

abbrev three_days : Snapshot
three_days = collect_stats never 100 2 rows

three_days_hosts : three_days.hosts ≡ "unresolved" ∷ "fedora" ∷ "debian" ∷ []
unfolding program
three_days_hosts = refl

one_day_hosts : (slice_snapshot never three_days 0).hosts ≡ "unresolved" ∷ "debian" ∷ "fedora" ∷ []
unfolding program
one_day_hosts = refl

one_day_probes : (slice_snapshot never three_days 0).probe_total ≡ 8
unfolding program
one_day_probes = refl

offline_fedora : offline_count three_days ≡ 1
unfolding program
offline_fedora = refl

three_days_clients : three_days.clients ≡ 0 ∷ 2 ∷ 0 ∷ []
unfolding program
three_days_clients = refl

abbrev atoi : Bytes → Option ℕ
atoi raw = if bytes_eq raw (codes "7") then some 7 else none

abbrev render : List ℕ → Snapshot → Bytes
render views s = format_int s.smooth

abbrev date : ℕ → Bytes
date t = format_int t

new_views_30 : new_views 30 ≡ 7 ∷ 30 ∷ []
unfolding program
new_views_30 = refl

slice_snapshot-collect_stats_example :
    ShowsSame
      (slice_snapshot never (collect_stats never 100 (0 + 2) rows) 0)
      (collect_stats never 100 0 rows)
slice_snapshot-collect_stats_example = slice_snapshot-collect_stats never 100 0 2 rows

handler-refreshes_example :
    IsDue never render date atoi 30
      (codes "7")
      []
      (last_success (some (4, three_days) ∷ none ∷ []))
      (calls
        (handler never render date atoi 5 30
          (new_views 30)
          (codes "7")
          []
          (refreshes never render date atoi (new_views 30) (some (4, three_days) ∷ none ∷ []) none))
        (new_writer 1))
handler-refreshes_example =
    handler-refreshes never render date atoi 1 5 30 (codes "7") []
      (some (4, three_days) ∷ none ∷ []) (omega arith)

meant_view_7 : meant_view atoi 30 (codes "7") ≡ 7
unfolding program
meant_view_7 = refl
