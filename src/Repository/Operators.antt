-- ===== src/Repository/Operators.antt =====
-- internal/repository/operator_repo.go. The column email is citext: how it compares is an argument.
pub mod Seat
use centrauth.Base.{ℕ, zero, suc, String, Bool, nat_eq}
use centrauth.Models.{Operator, operators}
use centrauth.Database.{M, Sql, RepoError, seat_taken, or_fail, ◌>>=◌, ◌>>◌, pure, throw}
use centrauth.Repository.{passed_on, first_or_not_found}

abbrev pub setup_seat_key : String
setup_seat_key = "centrauth:setup_seat"

module _ {World : Type 0} (sql : Sql World) where
  unfoldable pub get_by_email : (String → String → Bool) → String → M World RepoError Operator
  get_by_email same_email email = first_or_not_found sql operators λ o. same_email o.email email

  unfoldable pub get_by_id : ℕ → M World RepoError Operator
  get_by_id id = first_or_not_found sql operators λ o. nat_eq o.id id

  unfoldable pub count : M World RepoError ℕ
  count = or_fail (sql.count operators) passed_on

  -- `if count > 0 { return ErrSeatTaken }`
  abbrev pub seat_free : ℕ → M World RepoError (Unit {0})
  seat_free zero = pure tt
  seat_free (suc n) = throw seat_taken

  -- The body of CreateFirstOperator's transaction.
  unfoldable pub create_if_first : Operator → M World RepoError Operator
  create_if_first operator = do
    or_fail (sql.lock setup_seat_key) passed_on
    operators_so_far ← or_fail (sql.count operators) passed_on
    seat_free operators_so_far
    or_fail (sql.create operators operator) passed_on

  unfoldable pub create_first_operator : Operator → M World RepoError Operator
  unfolding create_if_first
  create_first_operator operator = sql.transaction Operator (create_if_first operator)
