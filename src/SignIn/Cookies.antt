-- ===== src/SignIn/Cookies.antt =====
-- internal/upstream_flow.go: what is read from the cookie of an upstream sign-in.
use centrauth.Base.{
  ℕ, ◌≡◌, refl, sym, ap, ◌∙◌, String, Bool-cases, true, false, not, ◌||◌, List, Option,
  Option-cases, none, some, inl, inr, arith, ◌==◌, eq_iff,
}
use centrauth.Runtime.{Runtime}
use centrauth.Text.{has_prefix}
use centrauth.Http.{Cookie}
use centrauth.Secrets.{Aead, count, encrypt, decrypt, decrypt-encrypt}
use centrauth.SignIn.{
  UpstreamState, Json, sealed_cookie, set_upstream_state_cookie, checked_state, opened, decoded,
  read_upstream_state_cookie,
}

nonempty_target : (s : String) → has_prefix s "/authorize?" ≡ true → (s == "") ≡ false
unfolding has_prefix
nonempty_target s h = elim (Bool-cases (s == "")) [
  | inl met ↦
      let same = (eq_iff s "").0 met in
      absurd (let never : false ≡ true = sym (ap (λ x. has_prefix x "/authorize?") same) ∙ h in cc)
  | inr unmet ↦ unmet
]

module _ (rt : Runtime) (aead : Aead) (json : Json) (issuer : String) where
  checked_state-eq-some :
      (o : Option UpstreamState) (payload : UpstreamState)
      → checked_state rt aead json issuer o ≡ some payload
      → has_prefix payload.return_to "/authorize?" ≡ true
  checked_state-eq-some none payload h = absurd (cc)
  checked_state-eq-some (some p) payload h =
      elim (Bool-cases (p.return_to == "" || not (has_prefix p.return_to "/authorize?"))) [
        | inl met ↦ absurd (let gone : none ≡ some payload = rw met at h in cc)
        | inr unmet ↦
            let same : p ≡ payload = (let kept : some p ≡ some payload = rw unmet at h in cc) in
            rw (← same) (ground arith)
      ]

  opened-eq-some :
      (o : Option (List ℕ)) (payload : UpstreamState)
      → opened rt aead json issuer o ≡ some payload
      → has_prefix payload.return_to "/authorize?" ≡ true
  opened-eq-some none payload h = absurd (cc)
  opened-eq-some (some text) payload h = checked_state-eq-some (json.unmarshal text) payload h

  decoded-eq-some :
      (o : Option (List ℕ)) (payload : UpstreamState)
      → decoded rt aead json issuer o ≡ some payload
      → has_prefix payload.return_to "/authorize?" ≡ true
  decoded-eq-some none payload h = absurd (cc)
  decoded-eq-some (some encrypted) payload h = opened-eq-some (decrypt aead encrypted) payload h

  -- The target of a payload that was read is an authorization request.
  pub read_upstream_state_cookie-target :
      (cookie : Option String) (payload : UpstreamState)
      → read_upstream_state_cookie rt aead json issuer cookie ≡ some payload
      → has_prefix payload.return_to "/authorize?" ≡ true
  unfolding read_upstream_state_cookie
  read_upstream_state_cookie-target none payload h = absurd (cc)
  read_upstream_state_cookie-target (some value) payload h =
      decoded-eq-some (rt.base64_url_decode value) payload h

  sealed_value :
      (o : Option (List ℕ)) (cookie : Cookie)
      → sealed_cookie rt aead json issuer o ≡ some cookie
      → (encrypted : List ℕ) × (o ≡ some encrypted) × (cookie.value ≡ rt.base64_url encrypted)
  sealed_value none cookie h = absurd (cc)
  sealed_value (some encrypted) cookie h =
      let same = ap (λ (o : Option Cookie). elim o [ none ↦ "" | some c ↦ c.value ]) h in
      (encrypted, refl, sym same)

  -- The payload that was put into the cookie is read back from it, where its target is an
  -- authorization request, base64, the AEAD and, for this payload, JSON take back what they made, and the nonce has
  -- the AEAD's size.
  pub read-set_upstream_state_cookie :
      ((b : List ℕ) → rt.base64_url_decode (rt.base64_url b) ≡ some b)
      → ((nonce plaintext : List ℕ)
          → aead.unseal nonce (aead.seal nonce plaintext) ≡ some plaintext)
      → (nonce : List ℕ) (payload : UpstreamState) (cookie : Cookie)
      → ((text : List ℕ) → json.marshal payload ≡ some text → json.unmarshal text ≡ some payload)
      → count nonce ≡ aead.nonce_size
      → has_prefix payload.return_to "/authorize?" ≡ true
      → set_upstream_state_cookie rt aead json issuer (some nonce) payload ≡ some cookie
      → read_upstream_state_cookie rt aead json issuer (some cookie.value) ≡ some payload
  unfolding set_upstream_state_cookie read_upstream_state_cookie
  read-set_upstream_state_cookie decodes opens nonce payload cookie reads sized target h =
      elim (Option-cases (json.marshal payload)) [
        | inl missing ↦ absurd (let gone : none ≡ some cookie = rw missing at h in cc)
        | inr (text, made) ↦
            let (encrypted, e, value) =
              sealed_value (encrypt aead (some nonce) text) cookie (rw made at h) in
            let back = decrypt-encrypt aead opens nonce text encrypted sized e in
            let given = nonempty_target payload.return_to target in
            rw (value, decodes encrypted, back, reads text made, given, target) refl
      ]
