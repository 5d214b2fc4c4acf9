-- ===== src/Repository/Found.antt =====
-- What a row that a repository found is, where its lookup was followed by a success.
use centrauth.Base.{◌≡◌, Bool, true, some}
use centrauth.Models.{Table, Row, id_of}
use centrauth.Database.{ok, M, Sql, IsSql, Same, RepoError, or_fail, ◌>>=◌}
use centrauth.Database.Facts.{first-Same}
use centrauth.Database.Inversion.{or_fail-eq-ok, or_fail>>=-eq-ok}
use centrauth.Repository.{translated, first_or_not_found}

module _ {World : Type 0} {sql : Sql World} (laws : IsSql sql) (t : Table) (p : Row t → Bool) where
  pub found-eq-ok :
      (w v : World) (r : Row t)
      → first_or_not_found sql t p w ≡ ok r v
      → (sql.row t w (id_of t r) ≡ some r) × (p r ≡ true) × Same sql w v
  found-eq-ok w v r h =
      let e = or_fail-eq-ok (sql.first t p) translated w h in
      let (there, holds) = laws.first_ok t p w v r e in (there, holds, first-Same laws t p w v e)

  pub found>>=-eq-ok :
      {E B : Type 0} (handle : RepoError → E) (f : Row t → M World E B) (w v : World) {b : B}
      → (or_fail (first_or_not_found sql t p) handle >>= f) w ≡ ok b v
      → (r : Row t) × (u : World) × (sql.row t w (id_of t r) ≡ some r)
        × (p r ≡ true)
        × Same sql w u
        × (f r u ≡ ok b v)
  found>>=-eq-ok handle f w v h =
      let (r, u, e, rest) = or_fail>>=-eq-ok (first_or_not_found sql t p) handle f w h in
      let (there, holds, same) = found-eq-ok w u r e in (r, u, there, holds, same, rest)
