-- ===== src/Gpu/Invariant/Ends.antt =====
-- Rules for a method that runs from one given state.
use mathlib.Core.Option.{some-injective}
use vhost_gpu_backend.Protocol.Response.{display_err}
use vhost_gpu_backend.Prelude.Result.{err, ok}
use mathlib.Core.Path.{subst}
use vhost_gpu_backend.Gpu.State.{
  display_partial, of_result, display_try, ◌>>=◌, unwrap, panicked, library_panicked, done,
  Response, VirtioGpu, Action, Outcome,
}
use vhost_gpu_backend.Libraries.{Call, Libraries}
use vhost_gpu_backend.Prelude.{ap, sym, refl, ◌≢◌, ◌≡◌, Option, none, some}
use vhost_gpu_backend.Gpu.Invariant.{
  of_result-Returns, Returns, Calm, of_result-raised, of_result-done, raised, IsValid, Keeps,
}

pub raised-ne-done : {E A : Type 0} {e : E} {a : A} → ◌≢◌ {A = Outcome E A} (raised e) (done a)
raised-ne-done p = cc

pub raised-injective :
    {E A : Type 0} {x y : E} → ◌≡◌ {A = Outcome E A} (raised x) (raised y) → x ≡ y
raised-injective p = cc

pub done-injective : {E A : Type 0} (a b : A) → ◌≡◌ {A = Outcome E A} (done a) (done b) → a ≡ b
done-injective a b p = cc

module _ {l : Libraries} where
  -- A run that ends in a valid state, and not in a panic.
  abbrev pub Ends : (P : Type 0) {A : Type 0} → Outcome (Response l) A × VirtioGpu l → Type 0
  Ends P (o, g) = IsValid g × Calm l P o

  pub Keeps-Ends :
      {P : Type 0}
      → {A : Type 0} (m : Action l A) (g : VirtioGpu l) → Keeps l P m
      → IsValid g
      → Ends P (m g)
  Keeps-Ends m g k v = (k.valid g v, k.calm g v)

  after :
      (P : Type 0)
      → {A B : Type 0} (f : A → Action l B) (o : Outcome (Response l) A) (g : VirtioGpu l)
      → ((a : A) → o ≡ done a → Ends P (f a g))
      → ((e : Response l) → o ≡ raised e → IsValid g)
      → Returns l o
      → Ends P (◌>>=◌ (λ _. (o, g)) f g)
  after P f (done a) g goes fails calm = goes a refl
  after P f (raised e) g goes fails calm = (fails e refl, tt)
  after P f panicked g goes fails calm = absurd calm
  after P f library_panicked g goes fails calm = absurd calm

  ended :
      (P : Type 0)
      → {A B : Type 0} (f : A → Action l B) (o : Outcome (Response l) A) (g : VirtioGpu l)
      → Ends P (o, g)
      → ((a : A) → o ≡ done a → Ends P (f a g))
      → Ends P (◌>>=◌ (λ _. (o, g)) f g)
  ended P f (done a) g ends goes = goes a refl
  ended P f (raised e) g ends goes = (ends.0, tt)
  ended P f panicked g ends goes = absurd ends.1
  ended P f library_panicked g ends goes = ends

  -- A first step that ends in a valid state.
  pub >>=-Ends :
      (P : Type 0)
      → {A B : Type 0} (m : Action l A) (f : A → Action l B) (g : VirtioGpu l) → Ends P (m g)
      → ((a : A) → (m g).0 ≡ done a → Ends P (f a (m g).1))
      → Ends P ((m >>= f) g)
  >>=-Ends P m f g ends goes = ended P f (m g).0 (m g).1 ends goes

  -- A first step that creates a surface, which the rest then has to keep.
  pub display_try-Ends :
      (P : Type 0)
      → {A B : Type 0} (f : Call l.display.State l.display.Error A) (k : A → Action l B)
        (g : VirtioGpu l)
      → ((a : A) (s : l.display.State)
          → f g.display ≡ (ok a, s)
          → Ends P (k a (record g { display = s })))
      → ((e : l.display.Error) (s : l.display.State)
          → f g.display ≡ (err e, s)
          → IsValid (record g { display = s }))
      → Ends P ((display_try f >>= k) g)
  display_try-Ends P f k g goes fails =
      after P k (of_result display_err (f g.display).0) (record g { display = (f g.display).1 })
        (λ a e. goes a _ (ap (λ o. (o, (f g.display).1)) (of_result-done display_err _ a e)))
        (λ y e.
          let (z, failed, _) = of_result-raised display_err (f g.display).0 y e in
          fails z _ (ap (λ o. (o, (f g.display).1)) failed))
        (of_result-Returns l display_err (f g.display).0)

  asked :
      {P : Type 0}
      → {A B : Type 0} (k : A → Action l B) (g : VirtioGpu l) → IsValid g
      → (p : Option (A × l.display.State)) → (p ≡ none → P)
      → ((a : A) (s : l.display.State) → p ≡ some (a, s) → Ends P (k a (record g { display = s })))
      → Ends P ((display_partial (λ _. p) >>= k) g)
  asked k g v none why goes = (v, why refl)
  asked k g v (some (a, s)) why goes = goes a s refl

  -- A first step that asks the display for something and can panic.
  pub display_partial-Ends :
      {P : Type 0}
      → {A B : Type 0} (f : l.display.State → Option (A × l.display.State)) (k : A → Action l B)
        (g : VirtioGpu l)
      → IsValid g
      → (f g.display ≡ none → P)
      → ((a : A) (s : l.display.State)
          → f g.display ≡ some (a, s)
          → Ends P (k a (record g { display = s })))
      → Ends P ((display_partial f >>= k) g)
  display_partial-Ends f k g v why goes = asked k g v (f g.display) why goes

  assoc_at :
      {A B C : Type 0} (f : A → Action l B) (h : B → Action l C) (o : Outcome (Response l) A)
      (g : VirtioGpu l)
      → ◌>>=◌ (◌>>=◌ (λ _. (o, g)) f) h g ≡ ◌>>=◌ (λ _. (o, g)) (λ a. f a >>= h) g
  assoc_at f h (done a) g = refl
  assoc_at f h (raised e) g = refl
  assoc_at f h panicked g = refl
  assoc_at f h library_panicked g = refl

  pub >>=-assoc :
      {A B C : Type 0} (m : Action l A) (f : A → Action l B) (h : B → Action l C) (g : VirtioGpu l)
      → ((m >>= f) >>= h) g ≡ (m >>= λ a. f a >>= h) g
  >>=-assoc m f h g = assoc_at f h (m g).0 (m g).1

  pub unwrap-Ends :
      (P : Type 0)
      → {A B : Type 0} (o : Option A) (a : A) (f : A → Action l B) (g : VirtioGpu l) → o ≡ some a
      → Ends P (f a g)
      → Ends P ((unwrap o >>= f) g)
  unwrap-Ends P none a f g e ends = absurd cc
  unwrap-Ends P (some b) a f g e ends =
      subst (λ x. Ends P (f x g)) (sym (some-injective _ _ e)) ends
