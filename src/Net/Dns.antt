-- ===== src/Net/Dns.antt =====
-- The reader of DNS messages of internal/netpolicy/dns.go: `dnsName` and `parseDNS`. An index or a slice
-- out of range is a panic, and the loop over options has its length as fuel.
pub mod Safe
pub mod Samples
use pins.Prelude.{
  ℕ, zero, suc, ◌+◌, ◌-◌, ◌*◌, ◌/◌, ◌%◌, Bool, true, false, not, ◌&&◌, ◌||◌, List, [], ◌∷◌, ◌++◌,
  Option, none, some, ltb, leb, ◌==◌, all, any, length, drop, if◌then◌else◌,
}
use pins.Go.Text.{Str, codes, text_eq, is_empty, join}
use pins.Go.Wire.{take}

pub data Outcome (T : Type 0) : Type 0 where
  panic looping refused : Outcome T
  ok : T → Outcome T

infixl 5 ◌>>=◌
abbrev pub ◌>>=◌ : {S T : Type 0} → Outcome S → (S → Outcome T) → Outcome T
panic >>= k = panic
looping >>= k = looping
refused >>= k = refused
ok a >>= k = k a

-- `if b { return ErrInvalid }`, and what follows it.
abbrev pub refuse_if : {T : Type 0} → Bool → Outcome T → Outcome T
refuse_if true rest = refused
refuse_if false rest = rest

-- `data[i]`
unfoldable pub at : Str → ℕ → Outcome ℕ
at [] i = panic
at (c ∷ s) zero = ok c
at (c ∷ s) (suc i) = at s i

-- `data[a:b]`
unfoldable pub slice : Str → ℕ → ℕ → Outcome Str
slice s a b = if leb a b && leb b (length s) then ok (take (b - a) (drop a s)) else panic

-- `binary.BigEndian.Uint16(message[a:a+2])` and `Uint32(message[a:a+4])`
unfoldable pub word : Str → ℕ → Outcome ℕ
word s a = at s a >>= λ x. at s (a + 1) >>= λ y. ok (x * 256 + y)

unfoldable pub long : Str → ℕ → Outcome ℕ
long s a = word s a >>= λ x. word s (a + 2) >>= λ y. ok (x * 65536 + y)

abbrev pub first_end : Option ℕ → ℕ → ℕ
first_end none e = e
first_end (some e') e = e'

abbrev pub printable : ℕ → Bool
printable v = leb 33 v && leb v 126

unfoldable pub sees : ℕ → List ℕ → Bool
sees off seen = any (λ i. i == off) seen

module _ (to_lower : Str → Str) (message : Str) where
  unfoldable pub finish_name : List Str → ℕ → Outcome (Str × ℕ)
  finish_name labels e =
      let name = to_lower (join (codes ".") labels) in
      refuse_if (ltb 253 (length name)) (ok (name, e))

  -- The loop of `dnsName`, with the rounds that are left.
  unfoldable pub name_loop : ℕ → List Str → Option ℕ → List ℕ → ℕ → Outcome (Str × ℕ)
  name_loop zero labels e seen off = refused
  name_loop (suc count) labels e seen off = elim (leb (length message) off || sees off seen) [
    | true ↦ refused
    | false ↦ at message off >>= λ n. elim (n / 64 == 3) [
      | true ↦ elim (leb (length message) (off + 1)) [
        | true ↦ refused
        | false ↦ at message (off + 1) >>= λ m.
            name_loop count labels (some (first_end e (off + 2))) (off ∷ seen) (n % 64 * 256 + m)
      ]
      | false ↦ elim (not (n / 64 == 0) || ltb (length message) (off + 1 + n)) [
        | true ↦ refused
        | false ↦ elim (n == 0) [
          | true ↦ finish_name labels (first_end e (off + 1))
          | false ↦ slice message (off + 1) (off + 1 + n) >>= λ label. elim (all printable label) [
            | true ↦ name_loop count (labels ++ (label ∷ [])) e (off ∷ seen) (off + 1 + n)
            | false ↦ refused
          ]
        ]
      ]
    ]
  ]

  -- `dnsName`
  unfoldable pub dns_name : ℕ → Outcome (Str × ℕ)
  dns_name off = name_loop 128 [] none [] off

  -- An option of the code 15 whose first word is 15 or 17.
  unfoldable pub is_filtered : ℕ → ℕ → ℕ → Outcome Bool
  is_filtered code n p = elim (code == 15 && leb 2 n) [
    | false ↦ ok false
    | true ↦ word message p >>= λ ede. ok (ede == 15 || ede == 17)
  ]

  -- The loop over the options between `p` and `e`.
  unfoldable pub options_loop : ℕ → ℕ → ℕ → Bool → Outcome Bool
  options_loop zero p e filtered = if ltb p e then looping else ok filtered
  options_loop (suc fuel) p e filtered = elim (ltb p e) [
    | false ↦ ok filtered
    | true ↦ elim (ltb e (p + 4)) [
      | true ↦ refused
      | false ↦ word message p >>= λ code. word message (p + 2) >>= λ n. elim (ltb e (p + 4 + n)) [
        | true ↦ refused
        | false ↦ is_filtered code n (p + 4) >>= λ found.
            options_loop fuel (p + 4 + n) e (filtered || found)
      ]
    ]
  ]

  -- What the loop over the records keeps: the offset, and whether an OPT record and a filter were seen.
  pub record Reading : Type 0 where
    pub off : ℕ
    pub opt : Bool
    pub filtered : Bool

  -- The record that begins at `off`, past its name, whose end is `e`; `early` is `i < an+ns`.
  unfoldable pub read_opt : Bool → Str → ℕ → ℕ → ℕ → ℕ → Reading → Outcome Reading
  read_opt early name kind ttl off e r = elim (kind == 41) [
    | false ↦ ok (record r { off = e })
    | true ↦ refuse_if (r.opt || not (is_empty name) || early || not (ttl / 65536 == 0)) (
        options_loop (e - off) off e r.filtered >>= λ filtered.
        ok (record { off = e; opt = true; filtered = filtered }))
  ]

  -- A round of the loop over the records.
  unfoldable pub read_record : Bool → Reading → Outcome Reading
  read_record early r = dns_name r.off >>= λ (name, next).
      refuse_if (ltb (length message) (next + 10)) (
        word message next >>= λ kind. long message (next + 4) >>= λ ttl.
        word message (next + 8) >>= λ size.
        refuse_if (ltb (length message) (next + 10 + size))
          (read_opt early name kind ttl (next + 10) (next + 10 + size) r))

  -- The loop, with the rounds that are left, and the index of this one.
  unfoldable pub records_loop : ℕ → ℕ → ℕ → Reading → Outcome Reading
  records_loop zero i early r = ok r
  records_loop (suc count) i early r =
      read_record (ltb i early) r >>= λ r'. records_loop count (i + 1) early r'

  -- `dnsResult`
  pub record DnsResult : Type 0 where
    pub valid : Bool
    pub filter : Bool
    pub rcode : ℕ

  abbrev pub flags_ok : ℕ → Bool
  flags_ok flags =
      not (flags / 32768 % 2 == 0)
      && flags / 2048 % 16 == 0
      && flags / 512 % 2 == 0
      && flags / 64 % 2 == 0

  -- The part of `parseDNS` after the question.
  unfoldable pub parse_records : ℕ → ℕ → ℕ → ℕ → Outcome DnsResult
  parse_records flags total early off =
      records_loop total 0 early (record { off = off; opt = false; filtered = false }) >>= λ r.
      refuse_if (not (r.off == length message))
        (ok (record { valid = true; filter = r.filtered; rcode = flags % 16 }))

  unfoldable pub parse_question : Str → ℕ → ℕ → ℕ → Outcome DnsResult
  parse_question domain flags total early = dns_name 12 >>= λ (name, off).
      refuse_if (not (text_eq name (to_lower domain)) || ltb (length message) (off + 4)) (
        word message off >>= λ kind. word message (off + 2) >>= λ class.
        refuse_if (not (kind == 1) || not (class == 1)) (parse_records flags total early (off + 4)))

  -- `parseDNS`
  unfoldable pub parse_dns : ℕ → Str → Outcome DnsResult
  parse_dns id domain = refuse_if (ltb (length message) 12) (
      word message 0 >>= λ found. refuse_if (not (found == id)) (
        word message 2 >>= λ flags. word message 4 >>= λ qd. word message 6 >>= λ an.
        word message 8 >>= λ ns. word message 10 >>= λ ar.
        refuse_if (not (flags_ok flags) || not (qd == 1) || ltb 128 (an + ns + ar))
          (parse_question domain flags (an + ns + ar) (an + ns))))
