-- ===== src/Sqlite/Duration.antt =====
-- sqlite/to_sql.cpp: the text of a duration in milliseconds.
use sqlgen.Prelude.{
  ℕ, ◌+◌, ◌-◌, ◌*◌, ◌/◌, ◌%◌, ◌<◌, ◌≤◌, ◌^◌, ◌≡◌, refl, ◌∙◌, inl, inr, arith, All, All-append,
  All-replicate, Bool-cases, Text, lit, ◌<<◌, length, ltb, length-append, length-replicate,
  replicate,
}
use sqlgen.Numbers.{decimal}
use sqlgen.Numbers.Decimal.{IsDigit, value, decimal_lem, value_zeros, length-decimal}
use sqlgen.Sqlite.Value.{pad_with_zeros, clock_to_sql}

-- A field of the clock: digits that spell `n`.
abbrev pub Spells : ℕ → Text → Type 0
Spells n s = All IsDigit s × (value 0 s ≡ n)

pad_with_zeros-Spells : (n k : ℕ) → Spells n (pad_with_zeros (decimal n) k)
unfolding pad_with_zeros
pad_with_zeros-Spells n k =
    let zeros = k - length (decimal n) in
    let (digits, spelled) = decimal_lem n in
    elim (Bool-cases (ltb (length (decimal n)) k)) [
      | inl q ↦ rw q (
        All-append IsDigit (replicate zeros b'0') (decimal n)
            (All-replicate IsDigit zeros b'0' (omega arith)) digits,
        value_zeros zeros (decimal n) ∙ spelled,
      )
      | inr q ↦ rw q (digits, spelled)
    ]

-- A text is filled up to `k` bytes, and not cut.
pad_with_zeros-length :
    (s : Text) (k : ℕ)
    → (k ≤ length (pad_with_zeros s k)) × (length s ≤ k → length (pad_with_zeros s k) ≡ k)
unfolding pad_with_zeros
pad_with_zeros-length s k =
    let zeros = k - length s in
    elim (Bool-cases (ltb (length s) k)) [
      | inl q ↦
          let both = length-append {A = ℕ} (replicate zeros b'0') s in
          let filled = length-replicate {A = ℕ} zeros b'0' in rw q (ground arith)
      | inr q ↦ rw q (ground arith)
    ]

padded_width : (n k : ℕ) → 0 < k → n < 10 ^ k → length (pad_with_zeros (decimal n) k) ≡ k
padded_width n k p h = (pad_with_zeros-length (decimal n) k).1 (length-decimal n k p h)

-- A number of milliseconds is printed as four fields of digits: the hours in at least two digits, the
-- minutes below 60 and the seconds below 60 in two digits each, and the milliseconds below 1000 in
-- three, which add up to the number.
pub clock_to_sql-Spells :
    (val : ℕ)
    → (h m s ms : ℕ) × (hours minutes seconds millis : Text) × (clock_to_sql val
        ≡ hours << lit ":" << minutes << lit ":" << seconds << lit "." << millis << lit "'")
      × (Spells h hours × Spells m minutes × Spells s seconds × Spells ms millis)
      × ((2 ≤ length hours) × (length minutes ≡ 2) × (length seconds ≡ 2) × (length millis ≡ 3))
      × ((m < 60) × (s < 60) × (ms < 1000))
      × (h * 3600000 + m * 60000 + s * 1000 + ms ≡ val)
unfolding clock_to_sql
clock_to_sql-Spells val =
    let h = val / 3600000 in
    let m = val / 60000 % 60 in
    let s = val / 1000 % 60 in
    let ms = val % 1000 in
    (
      h,
      m,
      s,
      ms,
      pad_with_zeros (decimal h) 2,
      pad_with_zeros (decimal m) 2,
      pad_with_zeros (decimal s) 2,
      pad_with_zeros (decimal ms) 3,
      refl,
      (
        pad_with_zeros-Spells h 2,
        pad_with_zeros-Spells m 2,
        pad_with_zeros-Spells s 2,
        pad_with_zeros-Spells ms 3,
      ),
      (
        (pad_with_zeros-length (decimal h) 2).0,
        padded_width m 2 (omega arith) (omega arith),
        padded_width s 2 (omega arith) (omega arith),
        padded_width ms 3 (omega arith) (omega arith),
      ),
      (omega arith, omega arith, omega arith),
      omega arith,
    )
