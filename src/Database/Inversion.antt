-- ===== src/Database/Inversion.antt =====
-- How a chain of steps ended: the inversions of `>>=`, `or_fail` and `guard`.
use centrauth.Base.{◌≡◌, refl, Bool, true, false, ◌⊎◌, inl, inr}
use centrauth.Database.{Run, ok, err, M, or_fail, guard, ◌>>=◌, ◌>>◌}

module _ {World Error : Type 0} where
  pub Run-cases :
      {A : Type 0} (o : Run World Error A)
      → ((a : A) × (w : World) × (o ≡ ok a w)) ⊎ ((e : Error) × (w : World) × (o ≡ err e w))
  Run-cases (ok a w) = inl (a, w, refl)
  Run-cases (err e w) = inr (e, w, refl)

  bind-eq-ok_run :
      {A B : Type 0} (o : Run World Error A) (f : A → M World Error B) {b : B} {w' : World}
      → let r : Run World Error B = elim o [ ok a v ↦ f a v | err e v ↦ err e v ] in
        r ≡ ok b w' → (a : A) × (v : World) × (o ≡ ok a v) × (f a v ≡ ok b w')
  bind-eq-ok_run (ok a v) f h = (a, v, refl, h)
  bind-eq-ok_run (err e v) f h = cc

  -- A step that was followed by a success, and what followed.
  pub >>=-eq-ok :
      {A B : Type 0} (m : M World Error A) (f : A → M World Error B) (w : World) {b : B}
      {w' : World}
      → (m >>= f) w ≡ ok b w'
      → (a : A) × (v : World) × (m w ≡ ok a v) × (f a v ≡ ok b w')
  >>=-eq-ok m f w h = bind-eq-ok_run (m w) f h

  or_fail-eq-ok_run :
      {A E : Type 0} (o : Run World E A) (handle : E → Error) {a : A} {w' : World}
      → let r : Run World Error A = elim o [ ok a v ↦ ok a v | err e v ↦ err (handle e) v ] in
        r ≡ ok a w' → o ≡ ok a w'
  or_fail-eq-ok_run (ok a v) handle h = cc
  or_fail-eq-ok_run (err e v) handle h = cc

  pub or_fail-eq-ok :
      {A E : Type 0} (m : M World E A) (handle : E → Error) (w : World) {a : A} {w' : World}
      → or_fail m handle w ≡ ok a w'
      → m w ≡ ok a w'
  or_fail-eq-ok m handle w h = or_fail-eq-ok_run (m w) handle h

  pub guard-eq-ok :
      (b : Bool) (e : Error) (w : World) {w' : World}
      → guard b e w ≡ ok tt w'
      → (b ≡ true) × (w ≡ w')
  guard-eq-ok true e w h = (refl, cc)
  guard-eq-ok false e w h = cc

  bind-eq-err_run :
      {A B : Type 0} (o : Run World Error A) (f : A → M World Error B) {x : Error} {w' : World}
      → let r : Run World Error B = elim o [ ok a v ↦ f a v | err e v ↦ err e v ] in
        r ≡ err x w' → (o ≡ err x w') ⊎ ((a : A) × (v : World) × (o ≡ ok a v) × (f a v ≡ err x w'))
  bind-eq-err_run (ok a v) f h = inr (a, v, refl, h)
  bind-eq-err_run (err e v) f h = inl (cc)

  -- A failure came from the step, or from what followed it.
  pub >>=-eq-err :
      {A B : Type 0} (m : M World Error A) (f : A → M World Error B) (w : World) {x : Error}
      {w' : World}
      → (m >>= f) w ≡ err x w'
      → (m w ≡ err x w') ⊎ ((a : A) × (v : World) × (m w ≡ ok a v) × (f a v ≡ err x w'))
  >>=-eq-err m f w h = bind-eq-err_run (m w) f h

  or_fail-eq-err_run :
      {A E : Type 0} (o : Run World E A) (handle : E → Error) {x : Error} {w' : World}
      → let r : Run World Error A = elim o [ ok a v ↦ ok a v | err e v ↦ err (handle e) v ] in
        r ≡ err x w' → (e : E) × (o ≡ err e w') × (handle e ≡ x)
  or_fail-eq-err_run (ok a v) handle h = absurd (cc)
  or_fail-eq-err_run (err e v) handle h = (e, cc, cc)

  pub or_fail-eq-err :
      {A E : Type 0} (m : M World E A) (handle : E → Error) (w : World) {x : Error} {w' : World}
      → or_fail m handle w ≡ err x w'
      → (e : E) × (m w ≡ err e w') × (handle e ≡ x)
  or_fail-eq-err m handle w h = or_fail-eq-err_run (m w) handle h

  pub guard-eq-err :
      (b : Bool) (e : Error) (w : World) {x : Error} {w' : World}
      → guard b e w ≡ err x w'
      → (b ≡ false) × (w ≡ w') × (e ≡ x)
  guard-eq-err true e w h = cc
  guard-eq-err false e w h = (refl, cc, cc)

  -- The chain after a step whose outcome is known.
  pub >>=-of-ok :
      {A B : Type 0} (m : M World Error A) (f : A → M World Error B) (w : World) {a : A} {v : World}
      → m w ≡ ok a v
      → (m >>= f) w ≡ f a v
  >>=-of-ok {A} {B} m f w e i = elim (e i) [ ok a v ↦ f a v | err x v ↦ err x v ]

  pub >>=-of-err :
      {A B : Type 0} (m : M World Error A) (f : A → M World Error B) (w : World) {x : Error}
      {v : World}
      → m w ≡ err x v
      → (m >>= f) w ≡ err x v
  >>=-of-err m f w e i = elim (e i) [ ok a v ↦ f a v | err x v ↦ err x v ]

  pub or_fail-of-ok :
      {A E : Type 0} (m : M World E A) (handle : E → Error) (w : World) {a : A} {v : World}
      → m w ≡ ok a v
      → or_fail m handle w ≡ ok a v
  or_fail-of-ok m handle w e i = elim (e i) [ ok a v ↦ ok a v | err x v ↦ err (handle x) v ]

  pub or_fail-of-err :
      {A E : Type 0} (m : M World E A) (handle : E → Error) (w : World) {x : E} {v : World}
      → m w ≡ err x v
      → or_fail m handle w ≡ err (handle x) v
  or_fail-of-err m handle w e i = elim (e i) [ ok a v ↦ ok a v | err x v ↦ err (handle x) v ]

  -- A check that was followed by a success.
  pub guard>>-eq-ok :
      {B : Type 0} (b : Bool) (e : Error) (m : M World Error B) (w : World) {r : B} {v : World}
      → (guard b e >> m) w ≡ ok r v
      → (b ≡ true) × (m w ≡ ok r v)
  guard>>-eq-ok true e m w h = (refl, h)
  guard>>-eq-ok false e m w h = cc

  -- A call with its own answer for an error, that was followed by a success.
  pub or_fail>>=-eq-ok :
      {A B E : Type 0} (m : M World E A) (handle : E → Error) (f : A → M World Error B) (w : World)
      {r : B} {v : World}
      → (or_fail m handle >>= f) w ≡ ok r v
      → (a : A) × (u : World) × (m w ≡ ok a u) × (f a u ≡ ok r v)
  or_fail>>=-eq-ok m handle f w h =
      let (a, u, e, rest) = >>=-eq-ok (or_fail m handle) f w h in
      (a, u, or_fail-eq-ok m handle w e, rest)

  pub ok-injective :
      {A : Type 0} {a b : A} {v w : World}
      → ◌≡◌ {A = Run World Error A} (ok a v) (ok b w)
      → (a ≡ b) × (v ≡ w)
  ok-injective h = (cc, cc)
