-- ===== src/Console/Clock.antt =====
-- The time column of the console (src/console/dto.rs).
use ohnotel.Base.{
  ℕ, ◌+◌, ◌*◌, ◌-◌, ◌/◌, ◌%◌, ◌<◌, ◌≤◌, Text, decimal, decimal_below, decimal_from, false, [], ◌∷◌,
  ◌++◌, ltb, ◌≡◌, refl, ap, ◌∙◌, Bool-cases, inl, inr, arith,
}
use ohnotel.Console.{zero_padded, render_time}

decimal_two : (n : ℕ) → 10 ≤ n → n < 100 → decimal n ≡ (48 + n / 10) ∷ (48 + n % 10) ∷ []
decimal_two n h k = rw (decimal_from n h, decimal_below (n / 10) (omega (arith, k))) refl

decimal_three :
    (n : ℕ)
    → 100 ≤ n
    → n < 1000
    → decimal n ≡ (48 + n / 100) ∷ (48 + n / 10 % 10) ∷ (48 + n % 10) ∷ []
decimal_three n h k =
    rw
      (
        decimal_from n (omega (arith, h)),
        decimal_two (n / 10) (omega (arith, h)) (omega (arith, k)),
      )
      (ap (λ d. (48 + d) ∷ (48 + n / 10 % 10) ∷ (48 + n % 10) ∷ []) (omega arith))

abbrev two_digits : ℕ → Text → Text
two_digits n rest = (48 + n / 10) ∷ (48 + n % 10) ∷ rest

zero_padded_two : (n : ℕ) (rest : Text) → n < 100 → zero_padded 2 n ++ rest ≡ two_digits n rest
unfolding zero_padded
zero_padded_two n rest k = elim (Bool-cases (ltb n 10)) [
  | inl e ↦
      let tens : n / 10 ≡ 0 = ground arith in
      let units : n % 10 ≡ n = ground arith in rw (decimal_below n (ground arith), tens, units) refl
  | inr e ↦ rw (decimal_two n (ground arith) k) refl
]

zero_padded_three : (n : ℕ) → n < 1000 → zero_padded 3 n ≡ (48 + n / 100) ∷ two_digits (n % 100) []
unfolding zero_padded
zero_padded_three n k = elim (Bool-cases (ltb n 10)) [
  | inl e ↦
      let hundreds : n / 100 ≡ 0 = ground arith in
      let tens : n % 100 / 10 ≡ 0 = ground arith in
      let units : n % 100 % 10 ≡ n = ground arith in
      rw (decimal_below n (ground arith), hundreds, tens, units) refl
  | inr e ↦ elim (Bool-cases (ltb n 100)) [
    | inl e' ↦
        let hundreds : n / 100 ≡ 0 = ground arith in
        let rest : n % 100 ≡ n = ground arith in
        rw (decimal_two n (ground arith) (ground arith), hundreds, rest) refl
    | inr e' ↦
        let tens : n % 100 / 10 ≡ n / 10 % 10 = ground arith in
        let units : n % 100 % 10 ≡ n % 10 = ground arith in
        rw (decimal_three n (ground arith) k, tens, units) refl
  ]
]

pad_two :
    (n : ℕ) {rest rest' : Text}
    → n < 100
    → rest ≡ rest'
    → zero_padded 2 n ++ rest ≡ two_digits n rest'
pad_two n {rest} k e = zero_padded_two n rest k ∙ ap (two_digits n) e

-- `hh:mm:ss.mmm`
abbrev pub clock_text : ℕ → ℕ → ℕ → ℕ → Text
clock_text h m s ms =
    two_digits h
      (58 ∷ two_digits m (58 ∷ two_digits s (46 ∷ (48 + ms / 100) ∷ two_digits (ms % 100) [])))

-- A time that is not before the Unix epoch is rendered as two digits for an hour below 24, for a
-- minute and a second below 60, and three for a millisecond, which together are the milliseconds of
-- its day.
pub render_time_lem :
    (unix_epoch time : ℕ)
    → unix_epoch ≤ time
    → (h : ℕ) × (m : ℕ) × (s : ℕ) × (ms : ℕ) × (render_time unix_epoch time ≡ clock_text h m s ms)
      × (h < 24)
      × (m < 60)
      × (s < 60)
      × (ms < 1000)
      × (((h * 60 + m) * 60 + s) * 1000 + ms ≡ (time - unix_epoch) / 1000000 % 86400000)
unfolding render_time
render_time_lem unix_epoch time after =
    let d = time - unix_epoch in
    let sec = d / 1000000000 % 86400 in
    let h : sec / 3600 < 24 = omega arith in
    let m : sec / 60 % 60 < 60 = omega arith in
    let s : sec % 60 < 60 = omega arith in
    let ms : d % 1000000000 / 1000000 < 1000 = omega arith in
    let late : ltb time unix_epoch ≡ false = ground arith in
    (
      sec / 3600,
      sec / 60 % 60,
      sec % 60,
      d % 1000000000 / 1000000,
      rw late (
          pad_two (sec / 3600) (omega (arith, h)) (
            ap (λ r. 58 ∷ r)
              (pad_two (sec / 60 % 60) (omega (arith, m)) (
                ap (λ r. 58 ∷ r)
                  (pad_two (sec % 60) (omega (arith, s))
                    (ap (λ r. 46 ∷ r) (zero_padded_three (d % 1000000000 / 1000000) ms))))))),
      h,
      m,
      s,
      ms,
      omega arith,
    )
