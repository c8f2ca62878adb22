-- ===== src/Proxy/Headers.antt =====
-- cmd/proxy: response headers, the list of those that travel from an upstream to a client
-- (filecache.go), and strToUInt64 (context.go) against the decimals that the services print.
-- A header that is not set reads as the empty text, as http.Header.Get has it; every name is
-- written in lower case.
use debuginfod_pwndbg_re.Prelude.{
  ℕ, zero, suc, ◌+◌, ◌-◌, ◌*◌, ◌/◌, ◌%◌, ◌^◌, Bool, true, false, ◌&&◌, String, str_eq, List, [],
  ◌∷◌, ◌++◌, Option, none, some, Bytes, ltb, leb, ◌==◌, if◌then◌else◌,
}
use debuginfod_pwndbg_re.Proxy.Finder.{StateHeaders}
pub mod Numbers
mod Tests

abbrev pub Headers : Type 0
Headers = String → Bytes

abbrev pub no_header : Headers
no_header = λ _. []

unfoldable pub set : String → Bytes → Headers → Headers
set name value h = λ n. if str_eq name n then value else h n

unfoldable pub del : String → Headers → Headers
del name h = λ n. if str_eq name n then [] else h n

abbrev pub proxy_headers : List String
proxy_headers =
    "x-debuginfod-size" ∷ "x-debuginfod-archive" ∷ "x-debuginfod-file" ∷ "x-debuginfod-imasignature"
    ∷ "content-type" ∷ "content-encoding" ∷ "content-length" ∷ []

-- The loop that copies the listed headers over those of the response.
unfoldable pub copy_headers : List String → Headers → Headers → Headers
copy_headers [] from h = h
copy_headers (name ∷ rest) from h = copy_headers rest from (set name (from name) h)

is_digit : ℕ → Bool
is_digit c = leb b'0' c && leb c b'9'

-- strconv.ParseUint(s, 10, 64) behind the test for the empty text.
unfoldable pub parse_uint : ℕ → Bytes → Option ℕ
unfolding is_digit
parse_uint acc [] = some acc
parse_uint acc (c ∷ s) =
    let acc' = acc * 10 + (c - b'0') in
    let rest = parse_uint acc' s in if is_digit c && ltb acc' (2 ^ 64) then rest else none

unfoldable pub str_to_uint64 : Bytes → ℕ
str_to_uint64 [] = 0
str_to_uint64 (c ∷ s) = elim (parse_uint 0 (c ∷ s)) [ none ↦ 0 | some v ↦ v ]

-- The digits of `n`, by fuel.
unfoldable pub digits : ℕ → ℕ → Bytes
digits zero n = []
digits (suc fuel) n =
    let front = digits fuel (n / 10) in
    if ltb n 10 then (b'0' + n) ∷ [] else front ++ (b'0' + n % 10) ∷ []

-- strconv.FormatInt(n, 10) for a size. An int64 has 19 digits at most.
unfoldable pub format_int : ℕ → Bytes
unfolding digits
format_int n = digits 20 n

-- The `x-debuginfod-*` headers of a response.
unfoldable pub state_headers : Headers → StateHeaders
state_headers h = record {
  size = str_to_uint64 (h "x-debuginfod-size");
  file = h "x-debuginfod-file";
  archive = h "x-debuginfod-archive";
  ima_signature = h "x-debuginfod-imasignature";
}
