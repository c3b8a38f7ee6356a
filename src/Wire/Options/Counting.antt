-- ===== src/Wire/Options/Counting.antt =====
-- How many parameters the parser of `SimpleQuery` counts.
use native.Mathlib.Nat.{le_trans}
use psql_wire.Base.{
  All, Bool-cases, Bytes, List, [], ap, arith, equal, false, if◌then◌else◌, inl, inr, leb, leb→le,
  length, le→leb, ltb, refl, true, ℕ, ◌+◌, ◌<◌, ◌∙◌, ◌∷◌, ◌≡◌, ◌≤◌,
}
use psql_wire.Exec.{ok, panic}
use psql_wire.Wire.Options.Parser.{
  Oids, add_match, add_matches, append_zero, atoi, count_parameters, find_parameters, number,
  reslice,
}

-- The greatest position.
pub greatest : List Bytes → ℕ → ℕ
greatest [] n = n
greatest (g ∷ gs) n = greatest gs (if ltb n (atoi g) then atoi g else n)

greatest_ge : (gs : List Bytes) (n : ℕ) → n ≤ greatest gs n
unfolding greatest
greatest_ge [] n = omega arith
greatest_ge (g ∷ gs) n =
    let ih = greatest_ge gs (if ltb n (atoi g) then atoi g else n) in
    le_trans (max_ge n (atoi g)) ih
  where
    max_ge : (a b : ℕ) → a ≤ (if ltb a b then b else a)
    max_ge a b = ground arith

abbrev pub ArePositional : List Bytes → Type 0
ArePositional gs = All (λ g. equal g [] ≡ false) gs

abbrev pub AreAnonymous : List Bytes → Type 0
AreAnonymous gs = All (λ g. equal g [] ≡ true) gs

module _ (grow : ℕ → ℕ) where
  positional_match :
      (g : Bytes) (p : Oids)
      → equal g [] ≡ false
      → add_match grow g p ≡ (if ltb p.len (atoi g) then reslice grow (atoi g) p else ok p)
  unfolding add_match
  positional_match g p h = rw h refl

  reslice_fits :
      (n : ℕ) (p : Oids) → leb n p.cap ≡ true → reslice grow n p ≡ ok (record p { len = n })
  unfolding reslice
  reslice_fits n p h = rw h refl

  reslice_large : (n : ℕ) (p : Oids) → leb n p.cap ≡ false → reslice grow n p ≡ panic
  unfolding reslice
  reslice_large n p h = rw h refl

  add_matches-positional :
      (gs : List Bytes) (p : Oids)
      → ArePositional gs
      → p.len ≤ p.cap
      → add_matches grow gs p ≡ (
          if leb (greatest gs p.len) p.cap
          then ok (record p { len = greatest gs p.len })
          else panic)
  unfolding add_matches greatest
  add_matches-positional [] p h b = rw (le→leb p.len p.cap b) refl
  add_matches-positional (g ∷ gs) p h b = elim (Bool-cases (ltb p.len (atoi g))) [
    | inl more ↦ elim (Bool-cases (leb (atoi g) p.cap)) [
      | inl fits ↦
          rw (positional_match g p h.0, add_matches, more, reslice_fits (atoi g) p fits)
            (add_matches-positional gs (record p { len = atoi g }) h.1 (leb→le (atoi g) p.cap fits))
      | inr large ↦
          let over : leb (greatest gs (atoi g)) p.cap ≡ false =
            ground (arith, greatest_ge gs (atoi g)) in
          rw (positional_match g p h.0, add_matches, more, reslice_large (atoi g) p large, over)
            refl
    ]
    | inr less ↦
        rw (positional_match g p h.0, add_matches, less) (add_matches-positional gs p h.1 b)
  ]

  -- A query whose parameters are all positional: the greatest position is the number of parameters,
  -- and the parser panics exactly where that position is greater than the number of places the
  -- parameters stand at.
  pub count_parameters-positional :
      (query : Bytes)
      → ArePositional (find_parameters query)
      → let matches = find_parameters query in
        count_parameters grow query ≡ (
          if leb (greatest matches 0) (length matches)
          then ok (record { len = greatest matches 0; cap = length matches })
          else panic)
  unfolding count_parameters
  count_parameters-positional query h =
      add_matches-positional (find_parameters query)
        (record { len = 0; cap = length (find_parameters query) }) h (omega arith)

  anonymous_match :
      (p : Oids) → p.len < p.cap → add_match grow [] p ≡ ok (record p { len = p.len + 1 })
  unfolding add_match append_zero atoi number equal
  anonymous_match p h = ground arith

  add_matches-anonymous :
      (gs : List Bytes) (p : Oids)
      → AreAnonymous gs
      → p.len + length gs ≤ p.cap
      → add_matches grow gs p ≡ ok (record p { len = p.len + length gs })
  unfolding add_matches
  add_matches-anonymous [] p h b = ap (λ (n : ℕ). ok (record p { len = n })) (omega arith)
  add_matches-anonymous ([] ∷ gs) p h b =
      rw (anonymous_match p (omega arith), add_matches)
        (add_matches-anonymous gs (record p { len = p.len + 1 }) h.1 (omega arith)
          ∙ ap (λ (n : ℕ). ok (record p { len = n })) (omega arith))
  add_matches-anonymous ((c ∷ g) ∷ gs) p h b = absurd (digits h.0)
    where
      digits : ¬ equal (c ∷ g) [] ≡ true
      digits = unfold equal in (λ e. cc)

  -- A query whose parameters are all question marks: one parameter for each of them.
  pub count_parameters-anonymous :
      (query : Bytes)
      → AreAnonymous (find_parameters query)
      → let matches = find_parameters query in
        count_parameters grow query ≡ ok (record { len = length matches; cap = length matches })
  unfolding count_parameters
  count_parameters-anonymous query h =
      let n = length (find_parameters query) in
      add_matches-anonymous (find_parameters query) (record { len = 0; cap = n }) h (omega arith)
      ∙ ap (λ (k : ℕ). ok (record { len = k; cap = n })) (omega arith)
