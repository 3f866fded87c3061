-- ===== src/Arguments/Decimal.antt =====
-- Numbers that are printed in decimal are read back.
use latency_lab.Base.{
  ℕ, zero, suc, ◌+◌, ◌-◌, ◌*◌, ◌/◌, ◌%◌, ◌^◌, ◌<◌, ◌≡◌, refl, ap, ◌∙◌, true, false, if◌then◌else◌,
  ltb, leb, none, some, List, [], ◌∷◌, ◌++◌, length, length-append, arith, inl, inr, All,
  Bool-cases,
}
use latency_lab.Base.Int.{ℤ, pos, negsuc, int32}
use latency_lab.Arguments.{
  Parsed, parsed, out_of_range, is_digit, skip_spaces, read_sign, read_digits, read_magnitude,
  stoull_of, stoull, signed, stoi_of, stoi,
}

-- The digits of `n`, of which there are at most as many as the fuel.
unfoldable pub digits : ℕ → ℕ → List ℕ
digits zero n = []
digits (suc fuel) n =
    let front = digits fuel (n / 10) in
    if ltb n 10 then (48 + n) ∷ [] else front ++ ((48 + n % 10) ∷ [])

-- As `<<` prints an unsigned number and an int.
abbrev pub decimal : ℕ → List ℕ
decimal n = digits (suc n) n

abbrev pub decimal_int : ℤ → List ℕ
decimal_int (pos n) = decimal n
decimal_int (negsuc n) = 45 ∷ decimal (suc n)

abbrev AreDigits : List ℕ → Type 0
AreDigits = All (λ c. is_digit c ≡ true)

append-AreDigits : (cs : List ℕ) (d : ℕ) → d < 10 → AreDigits cs → AreDigits (cs ++ ((48 + d) ∷ []))
append-AreDigits [] d h v = (ground (arith, h), tt)
append-AreDigits (c ∷ cs) d h v = (v.0, append-AreDigits cs d h v.1)

digits-AreDigits : (fuel n : ℕ) → AreDigits (digits fuel n)
unfolding digits
digits-AreDigits zero n = tt
digits-AreDigits (suc fuel) n = elim (Bool-cases (ltb n 10)) [
  | inl small ↦ rw (small, digits) (ground (arith, small), tt)
  | inr large ↦
      rw (large, digits)
        (append-AreDigits (digits fuel (n / 10)) (n % 10) (omega arith)
          (digits-AreDigits fuel (n / 10)))
]

some_digits : (fuel n : ℕ) → 0 < length (digits (suc fuel) n)
unfolding digits
some_digits fuel n = ground (arith, length-append (digits fuel (n / 10)) ((48 + n % 10) ∷ []))

-- A digit behind others makes ten times their number and itself.
read_digits-append :
    (cs : List ℕ) (a d : ℕ)
    → d < 10
    → AreDigits cs
    → read_digits a (cs ++ ((48 + d) ∷ [])) ≡ read_digits a cs * 10 + d
unfolding read_digits
read_digits-append [] a d h v = ground (arith, h)
read_digits-append (c ∷ cs) a d h v =
    rw (v.0, read_digits) (read_digits-append cs (a * 10 + (c - 48)) d h v.1)

read_digits-one : (n : ℕ) → n < 10 → read_digits 0 ((48 + n) ∷ []) ≡ n
unfolding read_digits
read_digits-one n h = ground (arith, h)

read_digits-digits : (fuel n : ℕ) → n < fuel → read_digits 0 (digits fuel n) ≡ n
unfolding digits
read_digits-digits zero n h = absurd (omega (arith, h))
read_digits-digits (suc fuel) n h = elim (Bool-cases (ltb n 10)) [
  | inl small ↦ rw (small, digits) (read_digits-one n (ground (arith, small)))
  | inr large ↦
      rw (large, digits)
        (read_digits-append (digits fuel (n / 10)) 0 (n % 10) (omega arith)
            (digits-AreDigits fuel (n / 10))
          ∙ ap (λ m. m * 10 + n % 10) (read_digits-digits fuel (n / 10) (ground (arith, large, h)))
          ∙ omega arith)
]

-- Digits are neither spaces nor signs.
read-AreDigits :
    (cs : List ℕ)
    → AreDigits cs
    → 0 < length cs
    → (skip_spaces cs ≡ cs)
      × (read_sign cs ≡ (false, cs))
      × (read_magnitude cs ≡ some (read_digits 0 cs))
unfolding skip_spaces read_sign read_magnitude
read-AreDigits [] v h = absurd (omega (arith, h))
read-AreDigits (c ∷ cs) v h = (ground (arith, v.0), ground (arith, v.0), ground (arith, v.0))

module _ (n : ℕ) where
  read-decimal :
      (skip_spaces (decimal n) ≡ decimal n)
      × (read_sign (decimal n) ≡ (false, decimal n))
      × (read_magnitude (decimal n) ≡ some n)
  read-decimal =
      let (spaces, sign, magnitude) =
        read-AreDigits (decimal n) (digits-AreDigits (suc n) n) (some_digits n n) in
      (spaces, sign, magnitude ∙ ap some (read_digits-digits (suc n) n (omega arith)))

  -- `std::stoull` reads a printed number, or throws out_of_range.
  stoull-decimal : stoull (decimal n) ≡ (if ltb n (2 ^ 64) then parsed n else out_of_range)
  unfolding stoull stoull_of
  stoull-decimal = let (spaces, sign, magnitude) = read-decimal in rw (spaces, sign, magnitude) refl

  -- `std::stoull` reads a negative number as its residue modulo 2^64.
  stoull-minus :
      0 < n
      → stoull (45 ∷ decimal n) ≡ (if ltb n (2 ^ 64) then parsed (2 ^ 64 - n) else out_of_range)
  unfolding stoull stoull_of skip_spaces read_sign
  stoull-minus h = let (spaces, sign, magnitude) = read-decimal in rw magnitude (ground (arith, h))

  stoi-decimal : stoi (decimal n) ≡ (if leb n (2 ^ 31 - 1) then parsed (pos n) else out_of_range)
  unfolding stoi stoi_of
  stoi-decimal = let (spaces, sign, magnitude) = read-decimal in rw (spaces, sign, magnitude) refl

  stoi-minus :
      stoi (45 ∷ decimal n) ≡ (if leb n (2 ^ 31) then parsed (signed true n) else out_of_range)
  unfolding stoi stoi_of skip_spaces read_sign
  stoi-minus = let (spaces, sign, magnitude) = read-decimal in rw magnitude refl

-- What an argument that prints an integer is read as: the integer, if the type holds it.
abbrev pub read_int : ℤ → Parsed ℤ
read_int z = elim (int32 z) [ none ↦ out_of_range | some w ↦ parsed w ]

-- The same for the unsigned type, where -n is the residue 2^64 - n.
abbrev pub read_u64 : ℤ → Parsed ℕ
read_u64 (pos n) = if ltb n (2 ^ 64) then parsed n else out_of_range
read_u64 (negsuc n) = if ltb (suc n) (2 ^ 64) then parsed (2 ^ 64 - suc n) else out_of_range

pub stoi-decimal_int : (z : ℤ) → stoi (decimal_int z) ≡ read_int z
stoi-decimal_int (pos n) = stoi-decimal n ∙ ground arith
stoi-decimal_int (negsuc n) = stoi-minus (suc n) ∙ ground arith

pub stoull-decimal_int : (z : ℤ) → stoull (decimal_int z) ≡ read_u64 z
stoull-decimal_int (pos n) = stoull-decimal n
stoull-decimal_int (negsuc n) = stoull-minus (suc n) (omega arith)
