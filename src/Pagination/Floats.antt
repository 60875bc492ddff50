-- ===== src/Pagination/Floats.antt =====
-- `int(math.Ceil(a / b))` of pkg/paginationutils/paginationutils.go by the laws of the float64 operations: the
-- rounding of the quotient does not reach the next integer.
use news_tracker.Prelude.{
  ℕ, zero, suc, ◌+◌, ◌-◌, ◌*◌, ◌/◌, ◌%◌, ◌^◌, ◌≤◌, ◌<◌, ◌≡◌, refl, sym, ap, ◌∙◌, inl, inr, ltb, leb,
  ltb→lt, leb→le, Bool-cases, arith,
}
use native.Mathlib.Nat.{
  mul-le-mul_right, mul-lt-mul_of_pos_right, lt_of_mul-lt-mul_right, div-eq_of_lt-le, div-add-mod',
  mod-lt, div-le_self,
}
use news_tracker.Prelude.Int.{pos}
use news_tracker.Pagination.{Float64}

abbrev M : ℕ
M = 2 ^ 53

-- `p / q` is `a / b` rounded, with a relative error of 2^-53 at most.
near_below :
    (a b k r p q : ℕ)
    → a ≡ k * b + r
    → 0 < r
    → a < M
    → 0 < q
    → a * q * M ≤ p * b * M + a * q
    → k * q < p
near_below a b k r p q e pos_r small pos_q near = elim (Bool-cases (ltb (k * q) p)) [
  | inl y ↦ ltb→lt _ _ y
  | inr n ↦
      let low : p ≤ k * q = ground arith in
      let pb : p * b ≤ k * q * b = mul-le-mul_right b low in
      let aq : a * q ≡ k * q * b + r * q = rw e (omega arith) in
      let rq : 1 * q ≤ r * q = mul-le-mul_right q pos_r in
      let bound : a * q < M * q = mul-lt-mul_of_pos_right small pos_q in
      absurd (omega (arith, near, pb, aq, rq, bound))
]

near_above :
    (a b k r p q : ℕ)
    → a ≡ k * b + r
    → r < b
    → a < M
    → 0 < q
    → p * b * M ≤ a * q * M + a * q
    → p ≤ (k + 1) * q
near_above a b k r p q e small_r small pos_q near = elim (Bool-cases (leb p ((k + 1) * q))) [
  | inl y ↦ leb→le _ _ y
  | inr n ↦
      let high : (k + 1) * q + 1 ≤ p = ground arith in
      let pb : ((k + 1) * q + 1) * b ≤ p * b = mul-le-mul_right b high in
      let expanded : ((k + 1) * q + 1) * b ≡ k * q * b + q * b + b = omega arith in
      let aq : a * q ≡ k * q * b + r * q = rw e (omega arith) in
      let rq : (r + 1) * q ≤ b * q = mul-le-mul_right q (omega arith) in
      let rq' : (r + 1) * q ≡ r * q + q = omega arith in
      let flipped : b * q ≡ q * b = omega arith in
      let bound : a * q < M * q = mul-lt-mul_of_pos_right small pos_q in
      absurd (omega (arith, near, pb, expanded, aq, rq, rq', flipped, bound))
]

one_more : (k q : ℕ) → (k + 1) * q ≡ k * q + q
one_more k q = omega arith

-- The multiple of `q` from `p` on lies with `p` between `k * q` and the next multiple.
next_of_quotient :
    (k n p q : ℕ) → k * q < p → p ≤ (k + 1) * q → p ≤ n * q → n * q < p + q → n ≡ k + 1
next_of_quotient k n p q low high from upto =
    let k_lt : k < n = lt_of_mul-lt-mul_right q (omega arith) in
    let expanded : (k + 1 + 1) * q ≡ (k + 1) * q + q = omega arith in
    let upper : n * q < (k + 1 + 1) * q = omega (arith, expanded) in
    let n_lt : n < k + 1 + 1 = lt_of_mul-lt-mul_right q upper in omega (arith, k_lt, n_lt)

-- The quotient that is rounded up, for a dividend with the remainder `r`.
quotient_up :
    (a b k r p q n : ℕ)
    → a ≡ k * b + r
    → r < b
    → a < M
    → 0 < q
    → (r ≡ 0 → p ≡ k * q)
    → a * q * M ≤ p * b * M + a * q
    → p * b * M ≤ a * q * M + a * q
    → p ≤ n * q
    → n * q < p + q
    → (a + b - 1) / b ≡ n
quotient_up a b k zero p q n e small_r small pos_q exact near near' from upto =
    let same : p ≡ k * q = exact refl in
    let k_le : k < n + 1 = lt_of_mul-lt-mul_right q (omega (arith, (one_more n q))) in
    let n_lt : n < k + 1 = lt_of_mul-lt-mul_right q (omega (arith, (one_more k q))) in
    let n_eq : n ≡ k = omega arith in
    let times : n * b ≡ k * b = ap (λ m. m * b) n_eq in
    div-eq_of_lt-le b (omega (arith, times, e)) (omega (arith, one_more n b, times, e))
quotient_up a b k (suc r) p q n e small_r small pos_q exact near near' from upto =
    let n_eq : n ≡ k + 1 =
      next_of_quotient k n p q (near_below a b k (suc r) p q e (omega arith) small pos_q near)
        (near_above a b k (suc r) p q e small_r small pos_q near') from upto in
    let times : n * b ≡ (k + 1) * b = ap (λ m. m * b) n_eq in
    div-eq_of_lt-le b (omega (arith, times, one_more k b, e))
      (omega (arith, one_more n b, one_more k b, times, e))

module _ (floats : Float64) where
  pub ceil_divide :
      (a b : ℕ)
      → a < 2 ^ 53
      → 0 < b
      → b < 2 ^ 53
      → floats.to_int (floats.ceil (floats.divide (floats.of_int (pos a)) (floats.of_int (pos b))))
        ≡ pos ((a + b - 1) / b)
  ceil_divide a b small_a pos_b small_b =
      let x = floats.divide (floats.of_int (pos a)) (floats.of_int (pos b)) in
      let finite = floats.divide_finite a b small_a pos_b small_b in
      let (n, finite_up, whole, from, upto) = floats.ceil_least x finite in
      let near = floats.divide_near a b small_a pos_b small_b in
      let split : a ≡ a / b * b + a % b = sym (div-add-mod' a b) in
      let up : (a + b - 1) / b ≡ n =
        quotient_up a b (a / b) (a % b) (floats.value x).0 (floats.value x).1 n split
          (mod-lt a pos_b) small_a (floats.has_denominator x finite)
          (λ z. floats.divide_exact a b (a / b) small_a pos_b small_b (omega (arith, split, z)))
          near.0 near.1 from upto in
      let bound : (a + b - 1) / b ≤ a + b - 1 = div-le_self (a + b - 1) b in
      floats.to_int_exact (floats.ceil x) n finite_up (omega (arith, up, bound, small_a, small_b))
        whole
      ∙ ap pos (sym up)
