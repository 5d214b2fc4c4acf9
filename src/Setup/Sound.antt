-- ===== src/Setup/Sound.antt =====
-- internal/setup.go: who becomes the first operator.
use centrauth.Base.{
  ℕ, ◌+◌, suc, zero, ◌≤◌, ◌≡◌, ◌≢◌, refl, sym, ap, ◌∙◌, String, true, not, ◌||◌, List, [], ◌∷◌,
  Option, none, some, inl, inr, ◌==◌, eq_iff, ltb, len, arith,
}
use centrauth.Runtime.{Runtime, Values, get}
use centrauth.Text.{trim_space, contains_text}
use centrauth.Models.{Operator, OperatorSession, operators, operator_sessions, micros}
use centrauth.Database.{M, Sql, IsSql, ok, or_fail, ◌>>=◌}
use centrauth.Database.Inversion.{
  Run-cases, >>=-eq-ok, or_fail-eq-ok, or_fail>>=-eq-ok, guard>>-eq-ok, ok-injective,
}
use centrauth.Repository.{passed_on}
use centrauth.Repository.Operators
use centrauth.Repository.Operators.Seat.{create_first_operator_ok}
use centrauth.Repository.OperatorSessions
use centrauth.Service.Password.{Argon, hash_password, default_password_hash_params}
use centrauth.Session
use centrauth.Session.OperatorManager
use centrauth.Session.OperatorManager.{set_cookie}
use centrauth.Database.Facts.{create_self}
use centrauth.Setup.Bare.{setup_steps-Fails}
use centrauth.Setup.{
  SetupRequest, Answer, need, none_yet, server_error, setup_available, check_form, setup_steps,
  setup_handler,
}

-- What must be true for the form to make its sender the operator.
pub record IsSetUp {World : Type 0} (sql : Sql World) (rt : Runtime) (argon : Argon)
    (config : Session.Config) (r : SetupRequest) (w : World) (o : Answer × World) : Type 0 where
  pub operator : Operator
  pub token : String
  pub session : OperatorSession
  pub empty : (k : ℕ) → sql.row operators w k ≡ none
  pub stored : sql.row operators o.1 operator.id ≡ some operator
  pub session_stored : sql.row operator_sessions o.1 session.id ≡ some session
  pub session_own : session.operator_id ≡ operator.id
  pub session_hash : session.token_hash ≡ rt.sha256 token
  pub session_unrevoked : session.revoked_at ≡ none
  pub session_expiry : session.expires_at ≡ micros (r.now + config.ttl)
  pub cookie : o.0.cookies ≡ set_cookie config token ∷ []
  pub email : operator.email ≡ trim_space (get "email" r.form)
  pub email_at : contains_text operator.email "@" ≡ true
  pub confirmed : get "password" r.form ≡ get "password_confirm" r.form
  pub long : 8 ≤ len (get "password" r.form)
  pub hashed :
      hash_password argon (get "password" r.form) default_password_hash_params r.salt
      ≡ some operator.password_hash

module _ {World : Type 0} {sql : Sql World} (laws : IsSql sql) (rt : Runtime) (argon : Argon)
    (config : Session.Config) where
  needed :
      {A B : Type 0} (o : Option A) (f : A → M World Answer B) (w v : World) (b : B)
      → (need o server_error >>= f) w ≡ ok b v
      → (a : A) × (o ≡ some a) × (f a w ≡ ok b v)
  needed none f w v b h = absurd (cc)
  needed (some a) f w v b h = (a, refl, h)

  none_yet-eq-ok : (n : ℕ) (w v : World) → none_yet n w ≡ ok tt v → w ≡ v
  none_yet-eq-ok zero w v h = cc
  none_yet-eq-ok (suc n) w v h = absurd (cc)

  setup_available_ok :
      (w v : World)
      → setup_available rt sql argon config w ≡ ok tt v
      → (k : ℕ) → sql.row operators v k ≡ sql.row operators w k
  unfolding setup_available Operators.count
  setup_available_ok w v h k =
      let (n, u, e, rest) = or_fail>>=-eq-ok (or_fail (sql.count operators) passed_on) _ _ w h in
      let counted = or_fail-eq-ok (sql.count operators) passed_on w e in
      let kept = laws.count_keeps operators w operators k in
      let same = none_yet-eq-ok n u v rest in
      let there : sql.row operators u k ≡ sql.row operators w k = rw counted at kept in
      rw same at there

  check_form_ok :
      (form : Values) (w v : World) (email : String)
      → check_form rt sql argon config form w ≡ ok email v
      → (email ≡ trim_space (get "email" form))
        × (contains_text email "@" ≡ true)
        × (get "password" form ≡ get "password_confirm" form)
        × (8 ≤ len (get "password" form))
        × (w ≡ v)
  unfolding check_form
  check_form_ok form w v email h =
      let given = trim_space (get "email" form) in
      let (equal, rest₁) =
        guard>>-eq-ok (get "password" form == get "password_confirm" form) _ _ w h in
      let (valid, rest₂) =
        guard>>-eq-ok (not (given == "" || not (contains_text given "@"))) _ _ w rest₁ in
      let (long, last) = guard>>-eq-ok (not (ltb (len (get "password" form)) 8)) _ _ w rest₂ in
      let (same, left) = ok-injective last in
      let at : contains_text given "@" ≡ true = ground arith in
      (
        sym same,
        rw same at at,
        (eq_iff (get "password" form) (get "password_confirm" form)).0 equal,
        ground arith,
        left,
      )

  -- A new session leaves the operators as they were.
  create-keeps_operators :
      (operator_id now : ℕ) (random : Option (List ℕ)) (w v : World) (token : String)
      → OperatorManager.create rt sql config operator_id now random w ≡ ok token v
      → (k : ℕ) → sql.row operators v k ≡ sql.row operators w k
  unfolding OperatorManager.create OperatorManager.create_with OperatorSessions.create
  create-keeps_operators operator_id now none w v token h k = absurd (cc)
  create-keeps_operators operator_id now (some b) w v token h k =
      let row = OperatorManager.new_session rt (rt.base64_url b) operator_id config.ttl now in
      let (s, u, e, last) =
        or_fail>>=-eq-ok (or_fail (sql.create operator_sessions row) passed_on) Session.repository _
          w h in
      let (_, left) = ok-injective last in
      let made = or_fail-eq-ok (sql.create operator_sessions row) passed_on w e in
      let kept = laws.create_frame operator_sessions row w operators (λ e. absurd (cc)) k in
      let here : sql.row operators u k ≡ sql.row operators w k = rw made at kept in rw left at here

  -- The session that a token stands for is stored for the operator it was made for.
  operator_create_stores :
      (operator_id now : ℕ) (random : Option (List ℕ)) (w v : World) (token : String)
      → OperatorManager.create rt sql config operator_id now random w ≡ ok token v
      → (s : OperatorSession) × (sql.row operator_sessions v s.id ≡ some s)
        × (s.operator_id ≡ operator_id)
        × (s.token_hash ≡ rt.sha256 token)
        × (s.revoked_at ≡ none)
        × (s.expires_at ≡ micros (now + config.ttl))
  unfolding OperatorManager.create OperatorManager.create_with OperatorSessions.create
  operator_create_stores operator_id now none w v token h = absurd (cc)
  operator_create_stores operator_id now (some b) w v token h =
      let row = OperatorManager.new_session rt (rt.base64_url b) operator_id config.ttl now in
      let (s, u, e, last) =
        or_fail>>=-eq-ok (or_fail (sql.create operator_sessions row) passed_on) Session.repository _
          w h in
      let (same, left) = ok-injective last in
      let made = or_fail-eq-ok (sql.create operator_sessions row) passed_on w e in
      let (k, at, filled) = laws.create_filled operator_sessions row w u s made in
      let there = create_self laws operator_sessions row s w u made in
      (
        s,
        rw left at there,
        rw filled refl,
        rw filled (ap rt.sha256 same),
        rw filled refl,
        rw filled refl,
      )

  setup_steps-IsSetUp :
      (r : SetupRequest) (w v : World) (answer : Answer)
      → setup_steps rt sql argon config r w ≡ ok answer v
      → IsSetUp sql rt argon config r w (answer, v)
  unfolding setup_steps
  setup_steps-IsSetUp r w v answer h =
      let (_, w₁, e₁, rest₁) = >>=-eq-ok (setup_available rt sql argon config) _ w h in
      let (email, w₂, e₂, rest₂) = >>=-eq-ok (check_form rt sql argon config r.form) _ w₁ rest₁ in
      let (trimmed, at, confirmed, long, same) = check_form_ok r.form w₁ w₂ email e₂ in
      let (hash, hashed, rest₃) =
        needed (hash_password argon (get "password" r.form) default_password_hash_params r.salt) _
          w₂ v answer rest₂ in
      let row : Operator = record { id = 0; email = email; password_hash = hash } in
      let (created, w₃, e₃, rest₄) =
        or_fail>>=-eq-ok (Operators.create_first_operator sql row) _ _ w₂ rest₃ in
      let (empty, there, own_email, own_hash) =
        create_first_operator_ok laws row created w₂ w₃ e₃ in
      let (token, u, e₄, last) =
        or_fail>>=-eq-ok (OperatorManager.create rt sql config created.id r.now r.random) _ _ w₃
          rest₄ in
      let (answered, left) = ok-injective last in
      let (session, made, own, hash_of, unrevoked, expiry) =
        operator_create_stores created.id r.now r.random w₃ u token e₄ in
      let kept = create-keeps_operators created.id r.now r.random w₃ u token e₄ created.id in
      record {
        operator = created;
        token = token;
        session = session;
        session_stored = ap (λ u. sql.row operator_sessions u session.id) (sym left) ∙ made;
        session_own = own;
        session_hash = hash_of;
        session_unrevoked = unrevoked;
        session_expiry = expiry;
        cookie = sym (ap (λ (a : Answer). a.cookies) answered);
        empty = λ k. sym (setup_available_ok w w₁ e₁ k) ∙ rw (← same) at empty k;
        stored = (rw left at kept) ∙ there;
        email = own_email ∙ trimmed;
        email_at = rw own_email at;
        confirmed = confirmed;
        long = long;
        hashed = hashed ∙ rw own_hash refl;
      }

  -- The setup form signs its sender in only as the first operator: there was none before, the
  -- password was given twice and has 8 bytes or more, the email has an @ and is trimmed, the
  -- operator is stored with the email and the hash of the password, and the cookie is the token of
  -- a session that is stored for this operator.
  pub setup-IsSetUp :
      (r : SetupRequest) (w : World)
      → (setup_handler rt sql argon config r w).0.cookies ≢ []
      → IsSetUp sql rt argon config r w (setup_handler rt sql argon config r w)
  unfolding setup_handler
  setup-IsSetUp r w h = elim (Run-cases (setup_steps rt sql argon config r w)) [
    | inl (answer, v, e) ↦ rw e (setup_steps-IsSetUp r w v answer e)
    | inr (answer, v, e) ↦
        absurd ((rw e at h) (setup_steps-Fails sql rt argon config r w v answer e))
  ]
