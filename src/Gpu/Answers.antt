-- ===== src/Gpu/Answers.antt =====
-- src/virtio_gpu.rs: what a method can answer, and rules by which its answers list few screens.
pub mod Screens
pub mod Cursors
use vhost_gpu_backend.Gpu.Scanout.{for_some}
use vhost_gpu_backend.Prelude.{
  ◌≤◌, Bool, true, false, length, Option, none, some, if◌then◌else◌, arith,
}
use vhost_gpu_backend.Prelude.Result.{Result, ok, err}
use vhost_gpu_backend.Libraries.{Libraries, Call}
use vhost_gpu_backend.Protocol.Response.{
  VirtioGpuResponse, ok_display_info, rutabaga_error, display_err,
}
use vhost_gpu_backend.Protocol.Response.Status.{modes_count}
use vhost_gpu_backend.Gpu.State.{
  ◌>>◌, VirtioGpu, Response, Outcome, done, raised, panicked, library_panicked, Action, of_result,
  ◌>>=◌, pure, raise, gets, modify, ok_or, unwrap, rutabaga_call, rutabaga_partial, display_partial,
  display_do, display_try,
}

-- No condition on a value.
abbrev pub Any : {A : Type 0} → A → Type 0
Any a = Unit

module _ {M R I D : Type 0} where
  -- A response that lists no more screens than the structure on the wire has places for.
  abbrev pub IsShort : VirtioGpuResponse M R I D → Type 0
  IsShort (ok_display_info modes) = length modes ≤ 16
  IsShort _ = Unit

  pub IsShort-modes_count : (x : VirtioGpuResponse M R I D) → IsShort x → modes_count x ≤ 16
  IsShort-modes_count (ok_display_info modes) short = short
  IsShort-modes_count _ short = omega arith

  -- An end with a value as `Q` says, with an error that lists few screens, or in a panic.
  abbrev pub Fits : {A : Type 0} → (A → Type 0) → Outcome (VirtioGpuResponse M R I D) A → Type 0
  Fits Q (done a) = Q a
  Fits Q (raised e) = IsShort e
  Fits Q panicked = Unit
  Fits Q library_panicked = Unit

  Any-Fits :
      {A : Type 0} (Q : A → Type 0) (o : Outcome (VirtioGpuResponse M R I D) A)
      → Fits Q o
      → Fits Any o
  Any-Fits Q (done a) fits = tt
  Any-Fits Q (raised e) fits = fits
  Any-Fits Q panicked fits = tt
  Any-Fits Q library_panicked fits = tt

  of_result-Fits :
      {E A : Type 0} (f : E → VirtioGpuResponse M R I D) (x : Result E A)
      → ((e : E) → IsShort (f e))
      → Fits Any (of_result f x)
  of_result-Fits f (ok a) short = tt
  of_result-Fits f (err e) short = short e

-- The same of the responses of a device.
abbrev pub IsSendable : (l : Libraries) → Response l → Type 0
IsSendable l = IsShort

module _ (l : Libraries) where
  pub record Answers {A : Type 0} (Q : A → Type 0) (m : Action l A) : Type 0 where
    pub answer : (g : VirtioGpu l) → Fits Q (m g).0

  bound :
      {A B : Type 0} (Q : B → Type 0) (f : A → Action l B)
      → ((a : A) → Answers Q (f a))
      → (o : Outcome (Response l) A) (g : VirtioGpu l) → Fits Any o
      → Fits Q (◌>>=◌ (λ _. (o, g)) f g).0
  bound Q f k (done a) g fits = (k a).answer g
  bound Q f k (raised e) g fits = fits
  bound Q f k panicked g fits = tt
  bound Q f k library_panicked g fits = tt

  pub >>=-Answers :
      {A B : Type 0} {Q : B → Type 0} (m : Action l A) (f : A → Action l B)
      → Answers Any m
      → ((a : A) → Answers Q (f a))
      → Answers Q (m >>= f)
  >>=-Answers {Q = Q} m f km kf = record {
    answer = λ g. bound Q f kf (m g).0 (m g).1 (km.answer g);
  }

  pub pure-Answers : {A : Type 0} {Q : A → Type 0} (a : A) → Q a → Answers Q (pure a)
  pure-Answers a q = record { answer = λ g. q }

  pub raise-Answers :
      {A : Type 0} {Q : A → Type 0} (e : Response l) → IsShort e → Answers Q (raise e)
  raise-Answers e short = record { answer = λ g. short }

  pub gets-Answers : {A : Type 0} (f : VirtioGpu l → A) → Answers Any (gets f)
  gets-Answers f = record { answer = λ g. tt }

  pub modify-Answers : (f : VirtioGpu l → VirtioGpu l) → Answers Any (modify f)
  modify-Answers f = record { answer = λ g. tt }

  pub ok_or-Answers :
      {A : Type 0} (o : Option A) (e : Response l) → IsShort e → Answers Any (ok_or o e)
  ok_or-Answers none e short = record { answer = λ g. short }
  ok_or-Answers (some a) e short = record { answer = λ g. tt }

  pub unwrap-Answers : {A : Type 0} (o : Option A) → Answers Any (unwrap o)
  unwrap-Answers none = record { answer = λ g. tt }
  unwrap-Answers (some a) = record { answer = λ g. tt }

  pub rutabaga_call-Answers :
      {A : Type 0} (f : Call l.rutabaga.State l.rutabaga.Error A) → Answers Any (rutabaga_call f)
  rutabaga_call-Answers f = record {
    answer = λ g. of_result-Fits rutabaga_error (f g.rutabaga).0 (λ e. tt);
  }

  pub display_try-Answers :
      {A : Type 0} (f : Call l.display.State l.display.Error A) → Answers Any (display_try f)
  display_try-Answers f = record {
    answer = λ g. of_result-Fits display_err (f g.display).0 (λ e. tt);
  }

  pub display_do-Answers : (f : l.display.State → l.display.State) → Answers Any (display_do f)
  display_do-Answers f = record { answer = λ g. tt }

  asked-Fits :
      {A : Type 0} (p : Option (A × l.display.State)) (g : VirtioGpu l)
      → Fits Any (display_partial (λ _. p) g).0
  asked-Fits none g = tt
  asked-Fits (some (a, s)) g = tt

  pub display_partial-Answers :
      {A : Type 0} (f : l.display.State → Option (A × l.display.State))
      → Answers Any (display_partial f)
  display_partial-Answers f = record { answer = λ g. asked-Fits (f g.display) g }

  polled-Fits :
      {A : Type 0} (p : Option (A × l.rutabaga.State)) (g : VirtioGpu l)
      → Fits Any (rutabaga_partial (λ _. p) g).0
  polled-Fits none g = tt
  polled-Fits (some (a, s)) g = tt

  pub rutabaga_partial-Answers :
      {A : Type 0} (f : l.rutabaga.State → Option (A × l.rutabaga.State))
      → Answers Any (rutabaga_partial f)
  rutabaga_partial-Answers f = record { answer = λ g. polled-Fits (f g.rutabaga) g }

  pub if-Answers :
      {A : Type 0} {Q : A → Type 0} (b : Bool) (m n : Action l A)
      → Answers Q m
      → Answers Q n
      → Answers Q (if b then m else n)
  if-Answers true m n km kn = km
  if-Answers false m n km kn = kn

  pub Any-Answers : {A : Type 0} {Q : A → Type 0} (m : Action l A) → Answers Q m → Answers Any m
  Any-Answers {Q = Q} m k = record { answer = λ g. Any-Fits Q (m g).0 (k.answer g) }

  pub >>-Answers :
      {B : Type 0} {Q : B → Type 0} (m : Action l (Unit {0})) (k : Action l B)
      → Answers Any m
      → Answers Q k
      → Answers Q (m >> k)
  >>-Answers m k km kk = >>=-Answers m (λ _. k) km (λ _. kk)

  pub for_some-Answers :
      {A : Type 0} (o : Option A) (f : A → Action l (Unit {0}))
      → ((a : A) → Answers Any (f a))
      → Answers Any (for_some o f)
  for_some-Answers none f k = pure-Answers tt tt
  for_some-Answers (some a) f k = k a
