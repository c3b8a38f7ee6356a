-- ===== src/Buffer/Reader/Values.antt =====
-- The values that a handler takes from a message: what each call reads, on every branch.
use psql_wire.Base.{
  All, Bool-cases, Bytes, [], ap, arith, drop, drop-append_length, ge→ltb, inl, inr, length,
  length-append, none, refl, some, take, take-append_length, ℕ, ◌++◌, ◌<◌, ◌==◌, ◌∙◌, ◌∷◌, ◌≡◌, ◌≢◌,
  ◌⊎◌,
}
use psql_wire.Buffer.Failures.{new_missing_nul_terminator}
use psql_wire.Buffer.Reader.{Reader, get_bytes, get_string, get_uint16, get_uint32, split_nul}
use psql_wire.Buffer.Words.{put_uint16, put_uint32, uint16, uint32}
use psql_wire.Exec.{err, ok}

-- A text that can be sent as one that a NUL ends.
abbrev pub IsText : Bytes → Type 0
IsText s = All (λ b. b ≢ 0) s

pub split_nul-append : (s rest : Bytes) → IsText s → split_nul (s ++ 0 ∷ rest) ≡ some (s, rest)
unfolding split_nul
split_nul-append [] rest h = refl
split_nul-append (b ∷ s) rest h = ground (arith, split_nul-append s rest h.1)

pub split_nul_cases :
    (msg : Bytes)
    → ((split_nul msg ≡ none) × IsText msg)
      ⊎ ((s : Bytes) × (rest : Bytes) × (split_nul msg ≡ some (s, rest))
          × IsText s
          × (msg ≡ s ++ 0 ∷ rest))
unfolding split_nul
split_nul_cases [] = inl (refl, tt)
split_nul_cases (b ∷ msg) = elim (Bool-cases (b == 0)) [
  | inl nul ↦ inr ([], msg, rw nul, tt, ground arith)
  | inr other ↦ elim (split_nul_cases msg) [
    | inl (e, h) ↦ inl (rw (other, e), (ground arith, h))
    | inr (s, rest, e, h, m) ↦ inr (b ∷ s, rest, rw (other, e), (ground arith, h), ap (◌∷◌ b) m)
  ]
]

pub get_string-append :
    (s rest : Bytes) (r : Reader)
    → IsText s
    → r.msg ≡ s ++ 0 ∷ rest
    → get_string r ≡ (ok s, record r { msg = rest })
unfolding get_string
get_string-append s rest r h e = rw (ap split_nul e ∙ split_nul-append s rest h, get_string)

pub get_uint16-put_uint16 :
    (n : ℕ) (rest : Bytes) (r : Reader)
    → n < 65536
    → r.msg ≡ put_uint16 n ++ rest
    → get_uint16 r ≡ (ok n, record r { msg = rest })
unfolding get_uint16 put_uint16 uint16
get_uint16-put_uint16 n rest r h e = rw (ge→ltb (length r.msg) 2 (rw e (omega arith))) (
    ap (λ (m : Bytes). (ok (uint16 (take 2 m)), record r { msg = drop 2 m })) e
    ∙ ap (λ (k : ℕ). (ok k, record r { msg = rest })) (omega arith))

pub get_uint32-put_uint32 :
    (n : ℕ) (rest : Bytes) (r : Reader)
    → n < 4294967296
    → r.msg ≡ put_uint32 n ++ rest
    → get_uint32 r ≡ (ok n, record r { msg = rest })
unfolding get_uint32 put_uint32 uint32
get_uint32-put_uint32 n rest r h e = rw (ge→ltb (length r.msg) 4 (rw e (omega arith))) (
    ap (λ (m : Bytes). (ok (uint32 (take 4 m)), record r { msg = drop 4 m })) e
    ∙ ap (λ (k : ℕ). (ok k, record r { msg = rest })) (omega arith))

pub get_bytes-append :
    (v rest : Bytes) (r : Reader)
    → r.msg ≡ v ++ rest
    → get_bytes (length v) r ≡ (ok v, record r { msg = rest })
unfolding get_bytes
get_bytes-append v rest r e =
    rw (ge→ltb (length r.msg) (length v) (rw e (omega (arith, length-append {0} v rest)))) (
      ap (λ (m : Bytes). (ok (take (length v) m), record r { msg = drop (length v) m })) e
      ∙ rw (take-append_length v rest, drop-append_length v rest))

pub get_string_shrinks :
    (r : Reader)
    → (get_string r ≡ (err new_missing_nul_terminator, r))
      ⊎ ((s : Bytes) × (rest : Bytes) × (get_string r ≡ (ok s, record r { msg = rest }))
          × (length rest < length r.msg))
unfolding get_string
get_string_shrinks r = elim (split_nul_cases r.msg) [
  | inl (e, h) ↦ inl (rw (e, get_string) refl)
  | inr (s, rest, e, h, m) ↦ inr (
    s,
    rest,
    rw (e, get_string) refl,
    omega (arith, ap (length {0}) m, length-append {0} s (0 ∷ rest)),
  )
]
