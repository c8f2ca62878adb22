-- ===== src/Proxy/Headers/Tests.antt =====
-- Sizes in headers.
use debuginfod_pwndbg_re.Prelude.{◌≡◌, refl, codes}
use debuginfod_pwndbg_re.Proxy.Headers.{parse_uint, str_to_uint64, digits, format_int}

program : Unit {0}
unfolding parse_uint str_to_uint64 digits format_int
program = tt

prints : format_int 1234567 ≡ codes "1234567"
unfolding program
prints = refl

zero_size : format_int 0 ≡ codes "0"
unfolding program
zero_size = refl

overflow : str_to_uint64 (codes "18446744073709551616") ≡ 0
unfolding program
overflow = refl

largest : str_to_uint64 (codes "18446744073709551615") ≡ 18446744073709551615
unfolding program
largest = refl

not_a_number : str_to_uint64 (codes "12k") ≡ 0
unfolding program
not_a_number = refl
