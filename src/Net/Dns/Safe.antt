-- ===== src/Net/Dns/Safe.antt =====
-- The reader of DNS messages of internal/netpolicy/dns.go stays inside of the message and ends.
use pins.Prelude.{
  ℕ, zero, suc, ◌+◌, ◌-◌, ◌*◌, ◌/◌, ◌%◌, ◌≤◌, ◌<◌, ◌≡◌, refl, Bool, true, false, not, ◌&&◌, ◌||◌,
  ||-eq_false, List, [], ◌∷◌, ◌++◌, Option, none, some, arith, ltb, leb, le→leb, ◌==◌, all, length,
}
use pins.Go.Text.{Str, codes, text_eq, is_empty, join}
use pins.Net.Dns.{
  Outcome, panic, looping, refused, ok, ◌>>=◌, refuse_if, at, slice, word, long, first_end,
  printable, sees, finish_name, name_loop, dns_name, is_filtered, options_loop, Reading, read_opt,
  read_record, records_loop, flags_ok, parse_records, parse_question, parse_dns,
}

-- Neither a panic nor without end; and what is given is as `P` says.
abbrev pub Ends : {T : Type 0} → (T → Type 0) → Outcome T → Type 0
Ends P panic = ⊥
Ends P looping = ⊥
Ends P refused = Unit
Ends P (ok a) = P a

abbrev Any : {T : Type 0} → T → Type 0
Any _ = Unit

bind-Ends :
    {S T : Type 0} (P : S → Type 0) (Q : T → Type 0) (m : Outcome S) (k : S → Outcome T)
    → Ends P m
    → ((a : S) → P a → Ends Q (k a))
    → Ends Q (m >>= k)
bind-Ends P Q panic k h f = h
bind-Ends P Q looping k h f = h
bind-Ends P Q refused k h f = tt
bind-Ends P Q (ok a) k h f = f a h

refuse_if-Ends :
    {T : Type 0} (Q : T → Type 0) (b : Bool) (rest : Outcome T)
    → (b ≡ false → Ends Q rest)
    → Ends Q (refuse_if b rest)
refuse_if-Ends Q true rest h = tt
refuse_if-Ends Q false rest h = h refl

branch-Ends :
    {T : Type 0} (Q : T → Type 0) (b : Bool) (x y : Outcome T)
    → (b ≡ true → Ends Q x)
    → (b ≡ false → Ends Q y)
    → Ends Q (elim b [ true ↦ x | false ↦ y ])
branch-Ends Q true x y f g = f refl
branch-Ends Q false x y f g = g refl

at-Ends : (s : Str) (i : ℕ) → i < length s → Ends Any (at s i)
unfolding at
at-Ends [] i h = absurd (omega (arith, h))
at-Ends (c ∷ s) zero h = tt
at-Ends (c ∷ s) (suc i) h = at-Ends s i (omega (arith, h))

slice-Ends : (s : Str) (a b : ℕ) → a ≤ b → b ≤ length s → Ends Any (slice s a b)
unfolding slice
slice-Ends s a b h k = rw (le→leb a b h, le→leb b (length s) k) tt

word-Ends : (s : Str) (a : ℕ) → a + 2 ≤ length s → Ends Any (word s a)
unfolding word
word-Ends s a h =
    bind-Ends Any Any (at s a) _ (at-Ends s a (omega (arith, h)))
      λ x _. bind-Ends Any Any (at s (a + 1)) _ (at-Ends s (a + 1) (omega (arith, h))) λ y _. tt

long-Ends : (s : Str) (a : ℕ) → a + 4 ≤ length s → Ends Any (long s a)
unfolding long
long-Ends s a h =
    bind-Ends Any Any (word s a) _ (word-Ends s a (omega (arith, h)))
      λ x _. bind-Ends Any Any (word s (a + 2)) _ (word-Ends s (a + 2) (omega (arith, h))) λ y _. tt

module _ (to_lower : Str → Str) (message : Str) where
  -- The offset after a name is in the message, or at its end.
  abbrev Inside : Str × ℕ → Type 0
  Inside r = r.1 ≤ length message

  abbrev EndInside : Option ℕ → Type 0
  EndInside none = Unit
  EndInside (some e) = e ≤ length message

  first_end_lem :
      (e : Option ℕ) (off : ℕ)
      → EndInside e
      → off ≤ length message
      → first_end e off ≤ length message
  first_end_lem none off h k = k
  first_end_lem (some e) off h k = h

  finish_name-Ends :
      (labels : List Str) (e : ℕ)
      → e ≤ length message
      → Ends Inside (finish_name to_lower message labels e)
  unfolding finish_name
  finish_name-Ends labels e h =
      refuse_if-Ends Inside (ltb 253 (length (to_lower (join (codes ".") labels)))) _ λ _. h

  name_loop-Ends :
      (count : ℕ) (labels : List Str) (e : Option ℕ) (seen : List ℕ) (off : ℕ)
      → EndInside e
      → Ends Inside (name_loop to_lower message count labels e seen off)
  unfolding name_loop
  name_loop-Ends zero labels e seen off h = tt
  name_loop-Ends (suc count) labels e seen off h =
      branch-Ends Inside (leb (length message) off || sees off seen) _ _ (λ _. tt)
        λ within.
          bind-Ends Any Inside (at message off) _ (at-Ends message off (ground arith)) λ n _.
            branch-Ends Inside (n / 64 == 3) _ _
              (λ _.
                branch-Ends Inside (leb (length message) (off + 1)) _ _ (λ _. tt)
                  λ room.
                    bind-Ends Any Inside (at message (off + 1)) _
                      (at-Ends message (off + 1) (ground arith))
                      λ m _.
                        name_loop-Ends count labels (some (first_end e (off + 2))) (off ∷ seen)
                          (n % 64 * 256 + m) (first_end_lem e (off + 2) h (ground arith)))
              λ _.
                branch-Ends Inside (not (n / 64 == 0) || ltb (length message) (off + 1 + n)) _ _
                  (λ _. tt)
                  λ room.
                    branch-Ends Inside (n == 0) _ _
                      (λ _.
                        finish_name-Ends labels (first_end e (off + 1))
                          (first_end_lem e (off + 1) h (ground arith)))
                      λ _.
                        bind-Ends Any Inside (slice message (off + 1) (off + 1 + n)) _
                          (slice-Ends message (off + 1) (off + 1 + n) (omega arith) (ground arith))
                          λ label _.
                            branch-Ends Inside (all printable label) _ _
                              (λ _.
                                name_loop-Ends count (labels ++ (label ∷ [])) e (off ∷ seen)
                                  (off + 1 + n) h)
                              (λ _. tt)

  dns_name-Ends : (off : ℕ) → Ends Inside (dns_name to_lower message off)
  unfolding dns_name
  dns_name-Ends off = name_loop-Ends 128 [] none [] off tt

  is_filtered-Ends :
      (code n p : ℕ) → p + n ≤ length message → Ends Any (is_filtered to_lower message code n p)
  unfolding is_filtered
  is_filtered-Ends code n p h =
      branch-Ends Any (code == 15 && leb 2 n) _ _
        (λ two.
          bind-Ends Any Any (word message p) _ (word-Ends message p (ground arith)) λ ede _. tt)
        (λ _. tt)

  -- Each round takes four bytes at least, so the number of bytes is fuel enough.
  options_loop-Ends :
      (fuel p e : ℕ) (filtered : Bool)
      → e ≤ p + fuel
      → e ≤ length message
      → Ends Any (options_loop to_lower message fuel p e filtered)
  unfolding options_loop
  options_loop-Ends zero p e filtered h k = let over : ltb p e ≡ false = ground arith in rw over tt
  options_loop-Ends (suc fuel) p e filtered h k =
      branch-Ends Any (ltb p e) _ _
        (λ _.
          branch-Ends Any (ltb e (p + 4)) _ _ (λ _. tt)
            λ room.
              bind-Ends Any Any (word message p) _ (word-Ends message p (ground arith)) λ code _.
                bind-Ends Any Any (word message (p + 2)) _
                  (word-Ends message (p + 2) (ground arith))
                  λ n _.
                    branch-Ends Any (ltb e (p + 4 + n)) _ _ (λ _. tt)
                      λ more.
                        bind-Ends Any Any (is_filtered to_lower message code n (p + 4)) _
                          (is_filtered-Ends code n (p + 4) (ground arith))
                          λ found _.
                            options_loop-Ends fuel (p + 4 + n) e (filtered || found)
                              (omega (arith, h)) k)
        (λ _. tt)

  read_opt-Ends :
      (early : Bool) (name : Str) (kind ttl off e : ℕ) (r : Reading to_lower message)
      → off ≤ e
      → e ≤ length message
      → Ends Any (read_opt to_lower message early name kind ttl off e r)
  unfolding read_opt
  read_opt-Ends early name kind ttl off e r h k =
      branch-Ends Any (kind == 41) _ _
        (λ _.
          refuse_if-Ends Any (r.opt || not (is_empty name) || early || not (ttl / 65536 == 0)) _
            λ _.
              bind-Ends Any Any (options_loop to_lower message (e - off) off e r.filtered) _
                (options_loop-Ends (e - off) off e r.filtered (omega (arith, h)) k)
                λ filtered _. tt)
        (λ _. tt)

  read_record-Ends :
      (early : Bool) (r : Reading to_lower message)
      → Ends Any (read_record to_lower message early r)
  unfolding read_record
  read_record-Ends early r =
      bind-Ends Inside Any (dns_name to_lower message r.off) _ (dns_name-Ends r.off)
        λ (name, next) _. refuse_if-Ends Any (ltb (length message) (next + 10)) _ λ room.
          bind-Ends Any Any (word message next) _ (word-Ends message next (ground arith)) λ kind _.
            bind-Ends Any Any (long message (next + 4)) _
              (long-Ends message (next + 4) (ground arith))
              λ ttl _.
                bind-Ends Any Any (word message (next + 8)) _
                  (word-Ends message (next + 8) (ground arith))
                  λ size _. refuse_if-Ends Any (ltb (length message) (next + 10 + size)) _ λ fits.
                    read_opt-Ends early name kind ttl (next + 10) (next + 10 + size) r (omega arith)
                      (ground arith)

  records_loop-Ends :
      (count i early : ℕ) (r : Reading to_lower message)
      → Ends Any (records_loop to_lower message count i early r)
  unfolding records_loop
  records_loop-Ends zero i early r = tt
  records_loop-Ends (suc count) i early r =
      bind-Ends Any Any (read_record to_lower message (ltb i early) r) _
        (read_record-Ends (ltb i early) r) λ r' _. records_loop-Ends count (i + 1) early r'

  parse_records-Ends :
      (flags total early off : ℕ) → Ends Any (parse_records to_lower message flags total early off)
  unfolding parse_records
  parse_records-Ends flags total early off =
      bind-Ends Any Any
        (records_loop to_lower message total 0 early
          (record { off = off; opt = false; filtered = false }))
        _ (records_loop-Ends total 0 early (record { off = off; opt = false; filtered = false }))
        λ r' _. refuse_if-Ends Any (not (r'.off == length message)) _ λ _. tt

  parse_question-Ends :
      (domain : Str) (flags total early : ℕ)
      → Ends Any (parse_question to_lower message domain flags total early)
  unfolding parse_question
  parse_question-Ends domain flags total early =
      bind-Ends Inside Any (dns_name to_lower message 12) _ (dns_name-Ends 12) λ (name, off) _.
        refuse_if-Ends Any (not (text_eq name (to_lower domain)) || ltb (length message) (off + 4))
          _
          λ room.
            let fits =
              (||-eq_false (not (text_eq name (to_lower domain))) (ltb (length message) (off + 4))
                room).1 in
            bind-Ends Any Any (word message off) _ (word-Ends message off (ground arith)) λ kind _.
              bind-Ends Any Any (word message (off + 2)) _
                (word-Ends message (off + 2) (ground arith))
                λ class _.
                  refuse_if-Ends Any (not (kind == 1) || not (class == 1)) _
                    λ _. parse_records-Ends flags total early (off + 4)

-- On any bytes, `parseDNS` ends with a result or an error: no index or slice is out of range, and the
-- loop over the options ends within the number of their bytes.
pub parse_dns-Ends :
    (to_lower : Str → Str) (message : Str) (id : ℕ) (domain : Str)
    → Ends (λ _. Unit {0}) (parse_dns to_lower message id domain)
unfolding parse_dns
parse_dns-Ends to_lower message id domain = refuse_if-Ends Any (ltb (length message) 12) _ λ room.
    bind-Ends Any Any (word message 0) _ (word-Ends message 0 (ground arith)) λ found _.
      refuse_if-Ends Any (not (found == id)) _ λ _.
        bind-Ends Any Any (word message 2) _ (word-Ends message 2 (ground arith)) λ flags _.
          bind-Ends Any Any (word message 4) _ (word-Ends message 4 (ground arith)) λ qd _.
            bind-Ends Any Any (word message 6) _ (word-Ends message 6 (ground arith)) λ an _.
              bind-Ends Any Any (word message 8) _ (word-Ends message 8 (ground arith)) λ ns _.
                bind-Ends Any Any (word message 10) _ (word-Ends message 10 (ground arith)) λ ar _.
                  refuse_if-Ends Any
                    (not (flags_ok to_lower message flags)
                      || not (qd == 1)
                      || ltb 128 (an + ns + ar))
                    _
                    λ _. parse_question-Ends to_lower message domain flags (an + ns + ar) (an + ns)
