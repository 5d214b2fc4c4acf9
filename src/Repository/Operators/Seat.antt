-- ===== src/Repository/Operators/Seat.antt =====
-- internal/repository/operator_repo.go: the seat that CreateFirstOperator gives.
use centrauth.Base.{ℕ, zero, suc, ◌≡◌, refl, sym, ◌∙◌, none, some}
use centrauth.Models.{Operator, operators}
use centrauth.Database.{Sql, IsSql, ok, or_fail, ◌>>=◌, ◌>>◌}
use centrauth.Database.Facts.{create_self}
use centrauth.Database.Inversion.{>>=-eq-ok, or_fail-eq-ok}
use centrauth.Repository.{passed_on}
use centrauth.Repository.Operators.{
  seat_free, create_if_first, create_first_operator, setup_seat_key,
}

module _ {World : Type 0} {sql : Sql World} (laws : IsSql sql) where
  seat_free_ok : (n : ℕ) (w v : World) → seat_free sql n w ≡ ok tt v → (n ≡ 0) × (w ≡ v)
  seat_free_ok zero w v h = (refl, cc)
  seat_free_ok (suc n) w v h = absurd (cc)

  -- CreateFirstOperator succeeds only in a table without operators, and then the operator it was
  -- given is stored.
  pub create_first_operator_ok :
      (operator stored : Operator) (w v : World)
      → create_first_operator sql operator w ≡ ok stored v
      → ((k : ℕ) → sql.row operators w k ≡ none)
        × (sql.row operators v stored.id ≡ some stored)
        × (stored.email ≡ operator.email)
        × (stored.password_hash ≡ operator.password_hash)
  unfolding create_first_operator create_if_first
  create_first_operator_ok operator stored w v h =
      let body = laws.transaction_ok Operator (create_if_first sql operator) w v stored h in
      let lock = or_fail (sql.lock setup_seat_key) passed_on in
      let count = or_fail (sql.count operators) passed_on in
      let make = or_fail (sql.create operators operator) passed_on in
      let (_, w₁, locked, rest₁) =
        >>=-eq-ok lock (λ _. count >>= λ n. seat_free sql n >> make) w body in
      let (n, w₂, counted, rest₂) = >>=-eq-ok count (λ n. seat_free sql n >> make) w₁ rest₁ in
      let (_, w₃, free, made) = >>=-eq-ok (seat_free sql n) (λ _. make) w₂ rest₂ in
      let (empty, same) = seat_free_ok n w₂ w₃ free in
      let zero_rows = or_fail-eq-ok (sql.count operators) passed_on w₁ counted in
      let created = or_fail-eq-ok (sql.create operators operator) passed_on w₃ made in
      let held = laws.lock_keeps setup_seat_key w in
      let took = or_fail-eq-ok (sql.lock setup_seat_key) passed_on w locked in
      let (k, at, filled) = laws.create_filled operators operator w₃ v stored created in
      (
        λ j.
            sym (rw took at held operators j)
            ∙ laws.count_zero operators w₁ w₂ (rw empty at zero_rows) j,
        create_self laws operators operator stored w₃ v created,
        rw filled,
        rw filled,
      )
