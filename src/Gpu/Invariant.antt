-- ===== src/Gpu/Invariant.antt =====
-- What holds of the device between two calls, and rules by which a method keeps it.
pub mod Resources
pub mod Contexts
pub mod Calls
pub mod Ends
pub mod Screen
pub mod Scanout
pub mod Pointer
use vhost_gpu_backend.Protocol.Response.{display_err, rutabaga_error}
use vhost_gpu_backend.Prelude.{
  if◌then◌else◌, ap, ◌⊎◌, inl, inr, ℕ, ◌≡◌, ◌≢◌, refl, ◌∙◌, sym, Bool, true, false, if◌then◌else◌,
  ◌&&◌, ◌||◌, Option, none, some, ◌==◌,
}
use vhost_gpu_backend.Prelude.Result.{Result, ok, err}
use vhost_gpu_backend.Prelude.Table
use vhost_gpu_backend.Libraries.{Libraries, Call}
use vhost_gpu_backend.Gpu.State.{
  display_try, of_result, VirtioGpu, VirtioGpuResource, Response, Outcome, done, raised, panicked,
  library_panicked, Action, ◌>>=◌, pure, raise, gets, ok_or, rutabaga_call, display_do,
}

pub of_result-done :
    {E F A : Type 0} (f : E → F) (x : Result E A) (a : A) → of_result f x ≡ done a → x ≡ ok a
of_result-done f (ok b) a p = cc
of_result-done f (err e) a p = cc

pub of_result-raised :
    {E F A : Type 0} (f : E → F) (x : Result E A) (y : F)
    → of_result f x ≡ raised y
    → (e : E) × (x ≡ err e) × (y ≡ f e)
of_result-raised f (ok b) y p = cc
of_result-raised f (err e) y p = (e, refl, cc)

-- Whether an optional id is this id.
abbrev pub is_at : ℕ → Option ℕ → Bool
is_at j none = false
is_at j (some a) = j == a

module _ {l : Libraries} where
  open l use {rutabaga as r, display as d}

  -- The device holds exactly the live surfaces of its display.
  abbrev pub holds : ℕ → VirtioGpu l → Bool
  holds j g = is_at j g.scanout_surface_id || is_at j g.cursor_surface_id

  pub record IsValid (g : VirtioGpu l) : Type 0 where
    -- The device and the renderer know the same resources.
    pub mirrors : (id : ℕ) → Table.contains_key id g.resources ≡ r.has_resource g.rutabaga id
    -- Each resource is stored under its own id.
    pub keyed :
        (id : ℕ) (res : VirtioGpuResource)
        → Table.get id g.resources ≡ some res
        → res.resource_id ≡ id
    -- No surface leaks, and none is used after its release.
    pub surfaces : (j : ℕ) → d.is_live g.display j ≡ holds j g
    -- The screen and the cursor have different surfaces.
    pub apart : (j : ℕ) → (is_at j g.scanout_surface_id && is_at j g.cursor_surface_id) ≡ false
    -- `NonZeroU32`
    pub non_zero_scanout : g.scanout_resource_id ≢ some 0
    pub non_zero_cursor : g.cursor_resource_id ≢ some 0

module _ (l : Libraries) where
  open l use {rutabaga as r, display as d}

  -- Why a call of a library panics in a valid state: the renderer has no default component to poll, or
  -- the display has no framebuffer for a surface, or none that has a region as large as the display.
  abbrev pub PollPanics : Type 0
  PollPanics = (g : VirtioGpu l) × IsValid g × (r.poll g.rutabaga ≡ none)

  abbrev pub FramebufferPanics : Type 0
  FramebufferPanics =
      (g : VirtioGpu l) × IsValid g × (surface_id : ℕ) × (d.framebuffer surface_id g.display ≡ none)

  abbrev pub RegionPanics : Type 0
  RegionPanics =
      (g : VirtioGpu l) × IsValid g
      × (surface_id : ℕ) × (d.framebuffer_region surface_id 0 0 g.display_width g.display_height
            g.display
          ≡ none)

  -- An end that is no panic, and one that is a panic only in a library's call and only if `P`.
  abbrev pub Returns : {A : Type 0} → Outcome (Response l) A → Type 0
  Returns (done a) = Unit
  Returns (raised e) = Unit
  Returns panicked = ⊥
  Returns library_panicked = ⊥

  abbrev pub Calm : (P : Type 0) {A : Type 0} → Outcome (Response l) A → Type 0
  Calm P (done a) = Unit
  Calm P (raised e) = Unit
  Calm P panicked = ⊥
  Calm P library_panicked = P

  pub Calm-cases :
      {P : Type 0}
      → {A : Type 0} (o : Outcome (Response l) A) → Calm P o
      → (o ≢ panicked) × ((o ≢ library_panicked) ⊎ P)
  Calm-cases (done a) c = (λ p. cc, inl (λ p. cc))
  Calm-cases (raised e) c = (λ p. cc, inl (λ p. cc))
  Calm-cases panicked c = absurd c
  Calm-cases library_panicked c = (λ p. cc, inr c)

  pub of_result-Returns :
      {E A : Type 0} (f : E → Response l) (x : Result E A) → Returns (of_result f x)
  of_result-Returns f (ok a) = tt
  of_result-Returns f (err e) = tt

  pub Returns-Calm : (P : Type 0) → {A : Type 0} (o : Outcome (Response l) A) → Returns o → Calm P o
  Returns-Calm P (done a) c = tt
  Returns-Calm P (raised e) c = tt
  Returns-Calm P panicked c = absurd c
  Returns-Calm P library_panicked c = absurd c

  -- A method keeps the invariant, however it ends, and panics only in a library's call and only if `P`.
  pub record Keeps (P : Type 0) {A : Type 0} (m : Action l A) : Type 0 where
    pub valid : (g : VirtioGpu l) → IsValid g → IsValid (m g).1
    pub calm : (g : VirtioGpu l) → IsValid g → Calm P (m g).0

  after_valid :
      {A B : Type 0} (f : A → Action l B) (o : Outcome (Response l) A) (g : VirtioGpu l)
      → ((a : A) → o ≡ done a → IsValid (f a g).1)
      → ((e : Response l) → o ≡ raised e → IsValid g)
      → Returns o
      → IsValid (◌>>=◌ (λ _. (o, g)) f g).1
  after_valid f (done a) g goes fails h = goes a refl
  after_valid f (raised e) g goes fails h = fails e refl
  after_valid f panicked g goes fails h = absurd h
  after_valid f library_panicked g goes fails h = absurd h

  after_calm :
      (P : Type 0)
      → {A B : Type 0} (f : A → Action l B) (o : Outcome (Response l) A) (g : VirtioGpu l)
      → ((a : A) → o ≡ done a → Calm P (f a g).0)
      → Returns o
      → Calm P (◌>>=◌ (λ _. (o, g)) f g).0
  after_calm P f (done a) g goes h = goes a refl
  after_calm P f (raised e) g goes h = tt
  after_calm P f panicked g goes h = absurd h
  after_calm P f library_panicked g goes h = absurd h

  -- The rule for a first step whose result says something of the state behind it.
  pub >>=-Keeps_after :
      {P : Type 0}
      → {A B : Type 0} (m : Action l A) (f : A → Action l B)
      → ((g : VirtioGpu l) → IsValid g → Returns (m g).0)
      → ((g : VirtioGpu l) (a : A)
          → IsValid g
          → (m g).0 ≡ done a
          → IsValid (f a (m g).1).1 × Calm P (f a (m g).1).0)
      → ((g : VirtioGpu l) (e : Response l) → IsValid g → (m g).0 ≡ raised e → IsValid (m g).1)
      → Keeps P (m >>= f)
  >>=-Keeps_after m f returns goes fails = record {
    valid = λ g v.
        after_valid f (m g).0 (m g).1 (λ a e. (goes g a v e).0) (λ x e. fails g x v e)
          (returns g v);
    calm = λ g v. after_calm _ f (m g).0 (m g).1 (λ a e. (goes g a v e).1) (returns g v);
  }

  bind_valid :
      {P : Type 0}
      → {A B : Type 0} (f : A → Action l B) → ((a : A) → Keeps P (f a))
      → (o : Outcome (Response l) A) (g : VirtioGpu l) → IsValid g
      → IsValid (◌>>=◌ (λ _. (o, g)) f g).1
  bind_valid f k (done a) g v = (k a).valid g v
  bind_valid f k (raised e) g v = v
  bind_valid f k panicked g v = v
  bind_valid f k library_panicked g v = v

  bind_calm :
      {P : Type 0}
      → {A B : Type 0} (f : A → Action l B) → ((a : A) → Keeps P (f a))
      → (o : Outcome (Response l) A) (g : VirtioGpu l) → IsValid g
      → Calm P o
      → Calm P (◌>>=◌ (λ _. (o, g)) f g).0
  bind_calm f k (done a) g v h = (k a).calm g v
  bind_calm f k (raised e) g v h = tt
  bind_calm f k panicked g v h = h
  bind_calm f k library_panicked g v h = h

  pub >>=-Keeps :
      {P : Type 0}
      → {A B : Type 0} (m : Action l A) (f : A → Action l B) → Keeps P m
      → ((a : A) → Keeps P (f a))
      → Keeps P (m >>= f)
  >>=-Keeps m f km kf = record {
    valid = λ g v. bind_valid f kf (m g).0 (m g).1 (km.valid g v);
    calm = λ g v. bind_calm f kf (m g).0 (m g).1 (km.valid g v) (km.calm g v);
  }

  pub pure-Keeps : {P : Type 0} → {A : Type 0} (a : A) → Keeps P (pure a)
  pure-Keeps a = record { valid = λ g v. v; calm = λ g v. tt }

  pub raise-Keeps : {P : Type 0} → {A : Type 0} (e : Response l) → Keeps P (raise {A = A} e)
  raise-Keeps e = record { valid = λ g v. v; calm = λ g v. tt }

  pub gets-Keeps : {P : Type 0} → {A : Type 0} (f : VirtioGpu l → A) → Keeps P (gets f)
  gets-Keeps f = record { valid = λ g v. v; calm = λ g v. tt }

  pub ok_or-Keeps :
      {P : Type 0} → {A : Type 0} (o : Option A) (e : Response l) → Keeps P (ok_or o e)
  ok_or-Keeps none e = raise-Keeps e
  ok_or-Keeps (some a) e = pure-Keeps a

  pub if-Keeps :
      {P : Type 0}
      → {A : Type 0} (b : Bool) (m n : Action l A) → Keeps P m
      → Keeps P n
      → Keeps P (if b then m else n)
  if-Keeps true m n km kn = km
  if-Keeps false m n km kn = kn
