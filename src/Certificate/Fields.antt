-- ===== src/Certificate/Fields.antt =====
-- Reading one field of a certificate, and the bytes that stand for it.
use pins.Prelude.{
  ℕ, ◌+◌, ◌%◌, ◌^◌, ◌<◌, ◌≡◌, refl, true, ◌&&◌, ◌++◌, some, arith, ◌==◌, ==_iff, ==_refl, length,
  bind_cases, guard_cases, &&-eq_true, Option-cases, inl, inr,
}
use pins.Go.Text.{Str, text_eq, text_eq_iff, text_eq_refl}
use pins.Go.Wire.{
  IsBytes, read_4, read_8, read_string, put_4, put_8, put_string, put_4-read_4, put_8-read_8,
  put_string-read_string, read_4-put_4, length-put_string_self, read_8-put_8,
  read_string-put_string,
}
use pins.Certificate.{expect_string, expect_4, expect_8, principal_ok, expect_principal}

pub expect_string-IsBytes :
    (v s : Str) {rest : Str}
    → IsBytes s
    → expect_string v s ≡ some rest
    → (s ≡ put_string v ++ rest) × (length v < 2 ^ 32) × IsBytes rest
unfolding expect_string
expect_string-IsBytes v s {rest} h e = bind_cases (read_string s) _ e λ (found, more) read after.
    let (same, small, bytes, own) = put_string-read_string s h read in
    guard_cases (text_eq found v) _ after λ equal done.
      let one : found ≡ v = (text_eq_iff found v).0 equal in
      let two : more ≡ rest = cc in (rw (← one, ← two) same, rw (← one) small, rw (← two) bytes)

pub expect_string-put_string :
    (v rest : Str) → length v < 2 ^ 32 → expect_string v (put_string v ++ rest) ≡ some rest
unfolding expect_string
expect_string-put_string v rest h = rw (read_string-put_string v rest h, text_eq_refl v) refl

pub expect_8-IsBytes :
    (v : ℕ) (s : Str) {rest : Str}
    → IsBytes s
    → expect_8 v s ≡ some rest
    → (s ≡ put_8 v ++ rest) × IsBytes rest
unfolding expect_8
expect_8-IsBytes v s {rest} h e = bind_cases (read_8 s) _ e λ (found, more) read after.
    let (same, bytes) = put_8-read_8 s h read in
    guard_cases (found == v) _ after λ equal done.
      let one : found ≡ v = (==_iff found v).0 equal in
      let two : more ≡ rest = cc in (rw (← one, ← two) same, rw (← two) bytes)

pub expect_8-put_8 : (v : ℕ) (rest : Str) → v < 2 ^ 64 → expect_8 v (put_8 v ++ rest) ≡ some rest
unfolding expect_8
expect_8-put_8 v rest h = rw (read_8-put_8 v rest h, ==_refl v) refl

pub expect_4-IsBytes :
    (v : ℕ) (s : Str) {rest : Str}
    → IsBytes s
    → expect_4 v s ≡ some rest
    → (s ≡ put_4 v ++ rest) × IsBytes rest
unfolding expect_4
expect_4-IsBytes v s {rest} h e = bind_cases (read_4 s) _ e λ (found, more) read after.
    let (same, small, bytes) = put_4-read_4 s h read in
    guard_cases (found == v) _ after λ equal done.
      let one : found ≡ v = (==_iff found v).0 equal in
      let two : more ≡ rest = cc in (rw (← one, ← two) same, rw (← two) bytes)

pub expect_4-put_4 : (v : ℕ) (rest : Str) → v < 2 ^ 32 → expect_4 v (put_4 v ++ rest) ≡ some rest
unfolding expect_4
expect_4-put_4 v rest h = rw (read_4-put_4 v rest h, ==_refl v) refl

-- A text whose first four bytes are its length, as `principal_ok` asks, is one that was put.
principal_ok_bytes :
    (name found : Str)
    → IsBytes found
    → length found < 2 ^ 32
    → principal_ok name found ≡ true
    → found ≡ put_string name
unfolding principal_ok put_string
principal_ok_bytes name found h small ok = elim (Option-cases (read_4 found)) [
  | inl missing ↦ let bad = rw missing at ok in ground arith
  | inr ((n, rest), read) ↦
      let (same, _, _) = put_4-read_4 found h read in
      let facts =
        &&-eq_true (length found == length name + 4)
          (n == length name % 2 ^ 32 && text_eq rest name) (rw read at ok) in
      let more = &&-eq_true (n == length name % 2 ^ 32) (text_eq rest name) facts.1 in
      let size : n ≡ length name = ground arith in
      rw (← size, ← (text_eq_iff rest name).0 more.1) same
]

pub expect_principal-IsBytes :
    (name s : Str) {rest : Str}
    → IsBytes s
    → expect_principal name s ≡ some rest
    → (s ≡ put_string (put_string name) ++ rest) × IsBytes rest
unfolding expect_principal
expect_principal-IsBytes name s {rest} h e =
    bind_cases (read_string s) _ e λ (found, more) read after.
      let (same, small, bytes, own) = put_string-read_string s h read in
      guard_cases (principal_ok name found) _ after λ equal done.
        let one : found ≡ put_string name = principal_ok_bytes name found own small equal in
        let two : more ≡ rest = cc in (rw (← one, ← two) same, rw (← two) bytes)

put_string_lem : (v : Str) → put_string v ≡ put_4 (length v) ++ v
unfolding put_string
put_string_lem v = refl

principal_ok-put_string :
    (name : Str) → length name < 2 ^ 32 → principal_ok name (put_string name) ≡ true
unfolding principal_ok
principal_ok-put_string name h =
    rw (put_string_lem name, read_4-put_4 (length name) name h, ← put_string_lem name)
      (ground (arith, length-put_string_self name, text_eq_refl name))

pub expect_principal-put_string :
    (name rest : Str)
    → length (put_string name) < 2 ^ 32
    → expect_principal name (put_string (put_string name) ++ rest) ≡ some rest
unfolding expect_principal
expect_principal-put_string name rest h =
    rw
      (
        read_string-put_string (put_string name) rest h,
        principal_ok-put_string name (omega (arith, length-put_string_self name)),
      )
      refl
