-- ===== src/Gpu/Invariant/Calls.antt =====
-- Rules for the calls of the renderer and the display, by what they leave alone and how they end.
use vhost_gpu_backend.Prelude.{ℕ, ◌≡◌, ◌∙◌, sym, ap, Option, none, some, inl, inr, Option-cases}
use vhost_gpu_backend.Prelude.Result.{ok, err}
use vhost_gpu_backend.Libraries.{Libraries, Call}
use vhost_gpu_backend.Protocol.Response.{display_err, rutabaga_error}
use vhost_gpu_backend.Gpu.State.{
  VirtioGpu, Action, ◌>>=◌, rutabaga_call, rutabaga_partial, display_partial, display_do,
  display_try,
}
use vhost_gpu_backend.Gpu.Invariant.{
  IsValid, Keeps, >>=-Keeps_after, of_result-Returns, Returns-Calm, Calm, of_result-done,
  of_result-raised,
}

module _ (l : Libraries) where
  open l use {rutabaga as r, display as d}

  pub rutabaga-IsValid :
      (g : VirtioGpu l) (s : r.State)
      → ((j : ℕ) → r.has_resource s j ≡ r.has_resource g.rutabaga j)
      → IsValid g
      → IsValid (record g { rutabaga = s })
  rutabaga-IsValid g s same v = record {
    mirrors = λ id. v.mirrors id ∙ sym (same id);
    keyed = v.keyed;
    surfaces = v.surfaces;
    apart = v.apart;
    non_zero_scanout = v.non_zero_scanout;
    non_zero_cursor = v.non_zero_cursor;
  }

  pub display-IsValid :
      (g : VirtioGpu l) (s : d.State)
      → ((j : ℕ) → d.is_live s j ≡ d.is_live g.display j)
      → IsValid g
      → IsValid (record g { display = s })
  display-IsValid g s same v = record {
    mirrors = v.mirrors;
    keyed = v.keyed;
    surfaces = λ j. same j ∙ v.surfaces j;
    apart = v.apart;
    non_zero_scanout = v.non_zero_scanout;
    non_zero_cursor = v.non_zero_cursor;
  }

  -- A call that leaves the renderer's table alone.
  pub rutabaga_call-Keeps :
      {P : Type 0}
      → {A : Type 0} (f : Call r.State r.Error A)
      → ((s : r.State) (j : ℕ) → r.has_resource (f s).1 j ≡ r.has_resource s j)
      → Keeps l P (rutabaga_call f)
  rutabaga_call-Keeps f same = record {
    valid = λ g v. rutabaga-IsValid g (f g.rutabaga).1 (same g.rutabaga) v;
    calm = λ g v. Returns-Calm l _ _ (of_result-Returns l rutabaga_error (f g.rutabaga).0);
  }

  -- A call that can panic, and that otherwise leaves the table or the surfaces alone.
  pub rutabaga_partial-Keeps :
      {P : Type 0}
      → {A : Type 0} (f : r.State → Option (A × r.State))
      → ((s s' : r.State) (a : A)
          → f s ≡ some (a, s')
          → (j : ℕ) → r.has_resource s' j ≡ r.has_resource s j)
      → ((g : VirtioGpu l) → IsValid g → f g.rutabaga ≡ none → P)
      → Keeps l P (rutabaga_partial f)
  rutabaga_partial-Keeps f same why = record {
    valid = λ g v. elim (Option-cases (f g.rutabaga)) [
      | inl panics ↦ rw (rutabaga_partial, panics) v
      | inr ((a, s), ran) ↦
          rw (rutabaga_partial, ran) (rutabaga-IsValid g s (same g.rutabaga s a ran) v)
    ];
    calm = λ g v. elim (Option-cases (f g.rutabaga)) [
      | inl panics ↦ rw (rutabaga_partial, panics) (why g v panics)
      | inr ((a, s), ran) ↦ rw (rutabaga_partial, ran) tt
    ];
  }

  pub display_partial-Keeps :
      {P : Type 0}
      → {A : Type 0} (f : d.State → Option (A × d.State))
      → ((s s' : d.State) (a : A) → f s ≡ some (a, s') → (j : ℕ) → d.is_live s' j ≡ d.is_live s j)
      → ((g : VirtioGpu l) → IsValid g → f g.display ≡ none → P)
      → Keeps l P (display_partial f)
  display_partial-Keeps f same why = record {
    valid = λ g v. elim (Option-cases (f g.display)) [
      | inl panics ↦ rw (display_partial, panics) v
      | inr ((a, s), ran) ↦
          rw (display_partial, ran) (display-IsValid g s (same g.display s a ran) v)
    ];
    calm = λ g v. elim (Option-cases (f g.display)) [
      | inl panics ↦ rw (display_partial, panics) (why g v panics)
      | inr ((a, s), ran) ↦ rw (display_partial, ran) tt
    ];
  }

  pub display_do-Keeps :
      {P : Type 0}
      → (f : d.State → d.State) → ((s : d.State) (j : ℕ) → d.is_live (f s) j ≡ d.is_live s j)
      → Keeps l P (display_do f)
  display_do-Keeps f same = record {
    valid = λ g v. display-IsValid g (f g.display) (same g.display) v;
    calm = λ g v. tt;
  }

  -- A first step that calls the renderer, by how the call ends.
  pub rutabaga_call-Keeps_after :
      {P : Type 0}
      → {A B : Type 0} (f : Call r.State r.Error A) (k : A → Action l B)
      → ((g : VirtioGpu l) (a : A) (s : r.State)
          → IsValid g
          → f g.rutabaga ≡ (ok a, s)
          → IsValid (k a (record g { rutabaga = s })).1
            × Calm l P (k a (record g { rutabaga = s })).0)
      → ((g : VirtioGpu l) (e : r.Error) (s : r.State) (j : ℕ)
          → f g.rutabaga ≡ (err e, s)
          → r.has_resource s j ≡ r.has_resource g.rutabaga j)
      → Keeps l P (rutabaga_call f >>= k)
  rutabaga_call-Keeps_after f k goes same =
      >>=-Keeps_after l (rutabaga_call f) k
        (λ g v. of_result-Returns l rutabaga_error (f g.rutabaga).0)
        (λ g a v e.
          goes g a (f g.rutabaga).1 v
            (ap (λ o. (o, (f g.rutabaga).1)) (of_result-done rutabaga_error (f g.rutabaga).0 a e)))
        (λ g x v e.
          let (y, failed, _) = of_result-raised rutabaga_error (f g.rutabaga).0 x e in
          rutabaga-IsValid g (f g.rutabaga).1
            (λ j. same g y (f g.rutabaga).1 j (ap (λ o. (o, (f g.rutabaga).1)) failed)) v)

  -- A first step that calls the display, by how the call ends.
  pub display_try-Keeps_after :
      {P : Type 0}
      → {A B : Type 0} (f : Call d.State d.Error A) (k : A → Action l B)
      → ((g : VirtioGpu l) (a : A) (s : d.State)
          → IsValid g
          → f g.display ≡ (ok a, s)
          → IsValid (k a (record g { display = s })).1
            × Calm l P (k a (record g { display = s })).0)
      → ((g : VirtioGpu l) (e : d.Error) (s : d.State) (j : ℕ)
          → f g.display ≡ (err e, s)
          → d.is_live s j ≡ d.is_live g.display j)
      → Keeps l P (display_try f >>= k)
  display_try-Keeps_after f k goes same =
      >>=-Keeps_after l (display_try f) k (λ g v. of_result-Returns l display_err (f g.display).0)
        (λ g a v e.
          goes g a (f g.display).1 v
            (ap (λ o. (o, (f g.display).1)) (of_result-done display_err (f g.display).0 a e)))
        (λ g x v e.
          let (y, failed, _) = of_result-raised display_err (f g.display).0 x e in
          display-IsValid g (f g.display).1
            (λ j. same g y (f g.display).1 j (ap (λ o. (o, (f g.display).1)) failed)) v)
