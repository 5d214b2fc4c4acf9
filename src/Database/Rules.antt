-- ===== src/Database/Rules.antt =====
-- Rules for chains of steps: what all their failures satisfy, and what they leave as it was.
use centrauth.Base.{◌≡◌, Bool, true, false}
use centrauth.Database.{Run, ok, err, M, or_fail, guard, ◌>>=◌, world, pure}

module _ {World Error : Type 0} where
  -- Every failure of the chain satisfies P.
  abbrev pub Fails : {A : Type 0} → (Error → Type 0) → M World Error A → Type 0
  Fails P m = (w v : World) (e : Error) → m w ≡ err e v → P e

  module _ (P : Error → Type 0) where
    bind_run :
        {A B : Type 0} (o : Run World Error A) (f : A → M World Error B)
        → ((e : Error) (v : World) → o ≡ err e v → P e)
        → ((a : A) → Fails P (f a))
        → (e : Error) (v : World)
        → (let r : Run World Error B = elim o [ ok a u ↦ f a u | err x u ↦ err x u ] in r ≡ err e v)
        → P e
    bind_run (ok a u) f h k e v eq = k a u v e eq
    bind_run (err x u) f h k e v eq = h e v (cc)

    pub Fails->>= :
        {A B : Type 0} (m : M World Error A) (f : A → M World Error B)
        → Fails P m
        → ((a : A) → Fails P (f a))
        → Fails P (m >>= f)
    Fails->>= m f h k w v e eq = bind_run (m w) f (λ x u. h w u x) k e v eq

    pub Fails-guard : (b : Bool) (x : Error) → P x → Fails P (guard b x)
    Fails-guard true x p w v e eq = absurd (cc)
    Fails-guard false x p w v e eq = let same : x ≡ e = cc in rw (← same) p

    fail_run :
        {A E : Type 0} (o : Run World E A) (handle : E → Error)
        → ((e : E) → P (handle e))
        → (x : Error) (v : World)
        → (let r : Run World Error A = elim o [ ok a u ↦ ok a u | err y u ↦ err (handle y) u ] in
            r ≡ err x v)
        → P x
    fail_run (ok a u) handle h x v eq = absurd (cc)
    fail_run (err y u) handle h x v eq = let same : handle y ≡ x = cc in rw (← same) (h y)

    pub Fails-or_fail :
        {A E : Type 0} (m : M World E A) (handle : E → Error)
        → ((e : E) → P (handle e))
        → Fails P (or_fail m handle)
    Fails-or_fail m handle h w v e eq = fail_run (m w) handle h e v eq

    pub Fails-pure : {A : Type 0} (a : A) → Fails P (pure a)
    Fails-pure a w v e eq = absurd (cc)

-- What a chain keeps, for a relation between the worlds before and after that is reflexive and
-- transitive.
module _ {World : Type 0} (R : World → World → Type 0) (R-refl : (w : World) → R w w)
    (R-trans : (u v w : World) → R u v → R v w → R u w) where
  abbrev pub Keeps : {Error A : Type 0} → M World Error A → Type 0
  Keeps m = (w : World) → R w (world (m w))

  keep_run :
      {Error A B : Type 0} (w : World) (o : Run World Error A) (f : A → M World Error B)
      → R w (world o)
      → ((a : A) → Keeps (f a))
      → (let r : Run World Error B = elim o [ ok a u ↦ f a u | err x u ↦ err x u ] in R w (world r))
  keep_run w (ok a u) f h k = R-trans w u (world (f a u)) h (k a u)
  keep_run w (err x u) f h k = h

  pub Keeps->>= :
      {Error A B : Type 0} (m : M World Error A) (f : A → M World Error B)
      → Keeps m
      → ((a : A) → Keeps (f a))
      → Keeps (m >>= f)
  Keeps->>= m f h k w = keep_run w (m w) f (h w) k

  pub Keeps-guard : {Error : Type 0} (b : Bool) (x : Error) → Keeps (guard b x)
  Keeps-guard true x w = R-refl w
  Keeps-guard false x w = R-refl w

  fail_keeps :
      {Error E A : Type 0} (w : World) (o : Run World E A) (handle : E → Error)
      → R w (world o)
      → (let r : Run World Error A = elim o [ ok a u ↦ ok a u | err y u ↦ err (handle y) u ] in
          R w (world r))
  fail_keeps w (ok a u) handle h = h
  fail_keeps w (err y u) handle h = h

  pub Keeps-or_fail :
      {Error E A : Type 0} (m : M World E A) (handle : E → Error)
      → Keeps m
      → Keeps (or_fail m handle)
  Keeps-or_fail m handle h w = fail_keeps w (m w) handle (h w)

  -- What a chain keeps where it fails.
  abbrev pub KeepsFailed : {Error A : Type 0} → M World Error A → Type 0
  KeepsFailed {Error} m = (w v : World) (e : Error) → m w ≡ err e v → R w v

  failed_run :
      {Error A B : Type 0} (w : World) (o : Run World Error A) (f : A → M World Error B)
      → R w (world o)
      → ((a : A) → KeepsFailed (f a))
      → (e : Error) (v : World)
      → (let r : Run World Error B = elim o [ ok a u ↦ f a u | err x u ↦ err x u ] in r ≡ err e v)
      → R w v
  failed_run w (ok a u) f h k e v eq = R-trans w u v h (k a u v e eq)
  failed_run w (err x u) f h k e v eq = let same : u ≡ v = cc in rw same at h

  pub KeepsFailed->>= :
      {Error A B : Type 0} (m : M World Error A) (f : A → M World Error B)
      → Keeps m
      → ((a : A) → KeepsFailed (f a))
      → KeepsFailed (m >>= f)
  KeepsFailed->>= m f h k w v e eq = failed_run w (m w) f (h w) k e v eq
