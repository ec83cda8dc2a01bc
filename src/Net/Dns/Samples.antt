-- ===== src/Net/Dns/Samples.antt =====
-- An answer that was filtered, and one whose name points at itself.
use pins.Prelude.{ℕ, ◌≡◌, refl, true, [], ◌∷◌, ◌++◌, any, all}
use pins.Go.Text.{Str, codes, text_eq, join}
use pins.Go.Wire.{take}
use pins.Net.Dns.{
  refused, ok, at, slice, word, long, sees, finish_name, name_loop, dns_name, is_filtered,
  options_loop, read_opt, read_record, records_loop, parse_records, parse_question, parse_dns,
}
use pins.Net.Dns.Safe.{Ends, parse_dns-Ends}

abbrev same : Str → Str
same s = s

abbrev header : ℕ → Str
header more = 18 ∷ 52 ∷ 129 ∷ 128 ∷ 0 ∷ 1 ∷ 0 ∷ 0 ∷ 0 ∷ 0 ∷ 0 ∷ more ∷ []

abbrev filtered : Str
filtered =
    header 1
    ++ (1 ∷ 97 ∷ 0 ∷ 0 ∷ 1 ∷ 0 ∷ 1 ∷ 0 ∷ 0 ∷ 41 ∷ 4 ∷ 208 ∷ 0 ∷ 0 ∷ 0 ∷ 0 ∷ 0 ∷ 6 ∷ 0 ∷ 15 ∷ 0 ∷ 2
        ∷ 0 ∷ 15 ∷ [])

abbrev pointing_at_itself : Str
pointing_at_itself = header 0 ++ (192 ∷ 12 ∷ 0 ∷ 1 ∷ 0 ∷ 1 ∷ [])

answers :
    (parse_dns same filtered 4660 (codes "a")
      ≡ ok (record { valid = true; filter = true; rcode = 0 }))
    × (parse_dns same pointing_at_itself 4660 (codes "a") ≡ refused)
unfolding at slice word long sees finish_name name_loop dns_name is_filtered options_loop read_opt
    read_record records_loop parse_records parse_question parse_dns text_eq join take any all
answers = (refl, refl)

parse_dns-Ends_example : Ends (λ _. Unit {0}) (parse_dns same filtered 4660 (codes "a"))
parse_dns-Ends_example = parse_dns-Ends same filtered 4660 (codes "a")
