-- ===== src/Database/Memory/Search.antt =====
-- What a search of the tables in memory finds.
use centrauth.Base.{
  ℕ, zero, suc, ◌<◌, ◌≡◌, Bool, true, false, inl, inr, Option, none, some, arith, nat_eq,
  nat_eq_iff, Bool-cases, Option-cases,
}
use centrauth.Database.Memory.{check, seek, matching}

module _ {R : Type 0} (get : ℕ → Option R) (p : R → Bool) where
  pub check-eq-some : (o : Option R) (r : R) → check get p o ≡ some r → (o ≡ some r) × (p r ≡ true)
  check-eq-some none r h = cc
  check-eq-some (some s) r h = ground arith

  pub check-eq-none : (o : Option R) (r : R) → check get p o ≡ none → o ≡ some r → p r ≡ false
  check-eq-none none r h e = cc
  check-eq-none (some s) r h e = ground arith

  pub seek-some :
      (n : ℕ) (r : R) → seek get p n ≡ some r → (k : ℕ) × (k < n) × (get k ≡ some r) × (p r ≡ true)
  unfolding seek
  seek-some zero r h = absurd (ground arith)
  seek-some (suc n) r h = elim (Option-cases (seek get p n)) [
    | inl e ↦
        let (here, holds) = check-eq-some (get n) r (rw (e, seek) at h) in
        (n, omega arith, here, holds)
    | inr (s, e) ↦
        let (k, lt, here, holds) = seek-some n r (ground arith) in (k, omega arith, here, holds)
  ]

  pub seek-none :
      (n : ℕ) → seek get p n ≡ none → (k : ℕ) → k < n → (r : R) → get k ≡ some r → p r ≡ false
  unfolding seek
  seek-none zero h k lt r e = absurd (omega arith)
  seek-none (suc n) h k lt r e = elim (Bool-cases (nat_eq k n)) [
    | inl here ↦
        let same : k ≡ n = (nat_eq_iff k n).0 here in
        check-eq-none (get n) r (ground arith) (rw same at e)
    | inr other ↦ seek-none n (ground arith) k (ground arith) r e
  ]

  pub matching_zero :
      (n : ℕ) → matching get p n ≡ 0 → (k : ℕ) → k < n → (r : R) → get k ≡ some r → p r ≡ false
  unfolding matching
  matching_zero zero h k lt r e = absurd (omega arith)
  matching_zero (suc n) h k lt r e = elim (Bool-cases (nat_eq k n)) [
    | inl here ↦
        let same : k ≡ n = (nat_eq_iff k n).0 here in
        check-eq-none (get n) r (ground arith) (rw same at e)
    | inr other ↦ matching_zero n (omega arith) k (ground arith) r e
  ]

  pub matching-some :
      (n j : ℕ) → matching get p n ≡ suc j → (k : ℕ) × (r : R) × (get k ≡ some r) × (p r ≡ true)
  unfolding matching
  matching-some zero j h = absurd (ground arith)
  matching-some (suc n) j h = elim (Option-cases (check get p (get n))) [
    | inl e ↦ matching-some n j (ground arith)
    | inr (r, e) ↦ let (here, holds) = check-eq-some (get n) r e in (n, r, here, holds)
  ]
