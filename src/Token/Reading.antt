-- ===== src/Token/Reading.antt =====
-- What a request that was read holds.
use centrauth.Base.{◌≡◌, ◌≢◌, sym, ◌∙◌, some, arith, eq_iff}
use centrauth.Runtime.{Values, get}
use centrauth.Database.{ok}
use centrauth.Database.Inversion.{>>=-eq-ok}
use centrauth.Token.Grant.{TokenRequest, Grant, read_grant, read_form, check_grant, read_request}

module _ {World : Type 0} where
  read_form_ok :
      (w v : World) (r : TokenRequest) (form : Values)
      → read_form r w ≡ ok form v
      → (r.form ≡ some form) × (get "grant_type" form ≡ "authorization_code") × (w ≡ v)
  unfolding read_form
  read_form_ok w v r form h = ground (arith, eq_iff (get "grant_type" form) "authorization_code")

  check_grant_ok :
      (w v : World) (g g' : Grant) → check_grant g w ≡ ok g' v → (g ≡ g') × (w ≡ v) × (g.code ≢ "")
  unfolding check_grant
  check_grant_ok w v g g' h = (ground arith, ground arith, ground (arith, eq_iff g.code ""))

  -- The grant is the one of the form, its code is given, and the database was not asked.
  pub read_request_ok :
      (w v : World) (r : TokenRequest) (g : Grant)
      → read_request r w ≡ ok g v
      → (form : Values) × (r.form ≡ some form)
        × (get "grant_type" form ≡ "authorization_code")
        × (g ≡ read_grant form r.basic)
        × (g.code ≢ "")
        × (w ≡ v)
  unfolding read_request
  read_request_ok w v r g h =
      let (form, u, e, rest) =
        >>=-eq-ok (read_form r) (λ form. check_grant (read_grant form r.basic)) w h in
      let (given, type, same) = read_form_ok w u r form e in
      let (eq, left, code_given) = check_grant_ok u v (read_grant form r.basic) g rest in
      (form, given, type, sym eq, rw eq at code_given, same ∙ left)
