-- ===== src/Gpu/Runs.antt =====
-- How a method has run, from what it has ended with.
use vhost_gpu_backend.Gpu.Invariant.{of_result-done}
use vhost_gpu_backend.Protocol.Response.{display_err, rutabaga_error}
use vhost_gpu_backend.Libraries.{Libraries, Call}
use vhost_gpu_backend.Prelude.{none, Option, inl, inr, ◌⊎◌, refl, ap, ◌≡◌}
use vhost_gpu_backend.Prelude.Result.{ok, err}
use vhost_gpu_backend.Gpu.State.{
  display_partial, of_result, Response, display_try, rutabaga_call, ◌>>=◌, VirtioGpu, Outcome,
  Action, done, raised, panicked, library_panicked,
}

module _ {l : Libraries} where
  after_done :
      {A B : Type 0} (f : A → Action l B) (o : Outcome (Response l) A) (g g' : VirtioGpu l) (b : B)
      → ◌>>=◌ (λ _. (o, g)) f g ≡ (done b, g')
      → (a : A) × (o ≡ done a) × (f a g ≡ (done b, g'))
  after_done f (done a) g g' b e = (a, refl, e)
  after_done f (raised x) g g' b e = absurd cc
  after_done f panicked g g' b e = absurd cc
  after_done f library_panicked g g' b e = absurd cc

  pub >>=_done :
      {A B : Type 0} (m : Action l A) (f : A → Action l B) (g g' : VirtioGpu l) (b : B)
      → (m >>= f) g ≡ (done b, g')
      → (a : A) × ((m g).0 ≡ done a) × (f a (m g).1 ≡ (done b, g'))
  >>=_done m f g g' b e = after_done f (m g).0 (m g).1 g' b e

  -- A first step whose run is known.
  pub >>=-run :
      {A B : Type 0} (m : Action l A) (f : A → Action l B) (g : VirtioGpu l)
      (p : Outcome (Response l) A × VirtioGpu l)
      → m g ≡ p
      → (m >>= f) g ≡ ◌>>=◌ (λ _. p) f g
  >>=-run m f g p e = ap (λ q. ◌>>=◌ (λ _. q) f g) e

  pub rutabaga_call_done :
      {A B : Type 0} (f : Call l.rutabaga.State l.rutabaga.Error A) (k : A → Action l B)
      (g g' : VirtioGpu l) (b : B)
      → (rutabaga_call f >>= k) g ≡ (done b, g')
      → (a : A) × (s : l.rutabaga.State) × (f g.rutabaga ≡ (ok a, s))
        × (k a (record g { rutabaga = s }) ≡ (done b, g'))
  rutabaga_call_done f k g g' b e =
      let (a, ran, rest) = >>=_done (rutabaga_call f) k g g' b e in
      (
        a,
        (f g.rutabaga).1,
        ap (λ o. (o, (f g.rutabaga).1)) (of_result-done rutabaga_error (f g.rutabaga).0 a ran),
        rest,
      )

  pub display_try_done :
      {A B : Type 0} (f : Call l.display.State l.display.Error A) (k : A → Action l B)
      (g g' : VirtioGpu l) (b : B)
      → (display_try f >>= k) g ≡ (done b, g')
      → (a : A) × (s : l.display.State) × (f g.display ≡ (ok a, s))
        × (k a (record g { display = s }) ≡ (done b, g'))
  display_try_done f k g g' b e =
      let (a, ran, rest) = >>=_done (display_try f) k g g' b e in
      (
        a,
        (f g.display).1,
        ap (λ o. (o, (f g.display).1)) (of_result-done display_err (f g.display).0 a ran),
        rest,
      )

  after_raised :
      {A B : Type 0} (f : A → Action l B) (o : Outcome (Response l) A) (g g' : VirtioGpu l)
      (y : Response l)
      → ◌>>=◌ (λ _. (o, g)) f g ≡ (raised y, g')
      → ((o ≡ raised y) × (g ≡ g')) ⊎ ((a : A) × (o ≡ done a) × (f a g ≡ (raised y, g')))
  after_raised f (done a) g g' y e = inr (a, refl, e)
  after_raised f (raised x) g g' y e = inl (cc, ap (λ q. q.1) e)
  after_raised f panicked g g' y e = absurd cc
  after_raised f library_panicked g g' y e = absurd cc

  pub >>=_raised :
      {A B : Type 0} (m : Action l A) (f : A → Action l B) (g g' : VirtioGpu l) (y : Response l)
      → (m >>= f) g ≡ (raised y, g')
      → (((m g).0 ≡ raised y) × ((m g).1 ≡ g'))
        ⊎ ((a : A) × ((m g).0 ≡ done a) × (f a (m g).1 ≡ (raised y, g')))
  >>=_raised m f g g' y e = after_raised f (m g).0 (m g).1 g' y e

  pub rutabaga_call_ok :
      {A B : Type 0} (f : Call l.rutabaga.State l.rutabaga.Error A) (k : A → Action l B)
      (g : VirtioGpu l) (a : A) (s : l.rutabaga.State)
      → f g.rutabaga ≡ (ok a, s)
      → (rutabaga_call f >>= k) g ≡ k a (record g { rutabaga = s })
  rutabaga_call_ok f k g a s e =
      ap (λ p. ◌>>=◌ (λ _. (of_result rutabaga_error p.0, record g { rutabaga = p.1 })) k g) e

  pub rutabaga_call_err :
      {A B : Type 0} (f : Call l.rutabaga.State l.rutabaga.Error A) (k : A → Action l B)
      (g : VirtioGpu l) (x : l.rutabaga.Error) (s : l.rutabaga.State)
      → f g.rutabaga ≡ (err x, s)
      → (rutabaga_call f >>= k) g ≡ (raised (rutabaga_error x), record g { rutabaga = s })
  rutabaga_call_err f k g x s e =
      ap (λ p. ◌>>=◌ (λ _. (of_result rutabaga_error p.0, record g { rutabaga = p.1 })) k g) e

  pub display_partial_panics :
      {A B : Type 0} (f : l.display.State → Option (A × l.display.State)) (k : A → Action l B)
      (g : VirtioGpu l)
      → f g.display ≡ none
      → (display_partial f >>= k) g ≡ (library_panicked, g)
  display_partial_panics f k g e = ap (λ p. (display_partial (λ _. p) >>= k) g) e
