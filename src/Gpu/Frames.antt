-- ===== src/Gpu/Frames.antt =====
-- src/virtio_gpu.rs. What a method leaves alone: the size of the display, what the screen and the cursor show, the
-- resources, and which surfaces live. A method that only draws changes none of them.
pub mod Drawing
use vhost_gpu_backend.Prelude.{
  ℕ, ◌≡◌, ◌∙◌, refl, Bool, true, false, Option, none, some, inl, inr, Option-cases, if◌then◌else◌,
}
use vhost_gpu_backend.Libraries.{Libraries, Call, RutabagaLaws, DisplayLaws}
use vhost_gpu_backend.Gpu.State.{
  VirtioGpu, Response, Outcome, done, raised, panicked, library_panicked, Action, ◌>>=◌, ◌>>◌, pure,
  raise, gets, ok_or, rutabaga_call, rutabaga_partial, display_partial, display_do,
}

module _ {l : Libraries} where
  open l use {rutabaga as r, display as d}

  pub record Draws (g g' : VirtioGpu l) : Type 0 where
    pub same_width : g'.display_width ≡ g.display_width
    pub same_height : g'.display_height ≡ g.display_height
    pub same_scanout : g'.scanout_resource_id ≡ g.scanout_resource_id
    pub same_screen : g'.scanout_surface_id ≡ g.scanout_surface_id
    pub same_cursor : g'.cursor_resource_id ≡ g.cursor_resource_id
    pub same_pointer : g'.cursor_surface_id ≡ g.cursor_surface_id
    pub same_resources : g'.resources ≡ g.resources
    pub same_live : (j : ℕ) → d.is_live g'.display j ≡ d.is_live g.display j

  pub drawn :
      (g : VirtioGpu l) (s : d.State) (t : r.State)
      → ((j : ℕ) → d.is_live s j ≡ d.is_live g.display j)
      → Draws g (record g { display = s; rutabaga = t })
  drawn g s t same = record {
    same_width = refl;
    same_height = refl;
    same_scanout = refl;
    same_screen = refl;
    same_cursor = refl;
    same_pointer = refl;
    same_resources = refl;
    same_live = same;
  }

  pub Draws-self : (g : VirtioGpu l) → Draws g g
  Draws-self g = drawn g g.display g.rutabaga (λ j. refl)

  pub Draws-trans : (a b c : VirtioGpu l) → Draws a b → Draws b c → Draws a c
  Draws-trans a b c p q = record {
    same_width = q.same_width ∙ p.same_width;
    same_height = q.same_height ∙ p.same_height;
    same_scanout = q.same_scanout ∙ p.same_scanout;
    same_screen = q.same_screen ∙ p.same_screen;
    same_cursor = q.same_cursor ∙ p.same_cursor;
    same_pointer = q.same_pointer ∙ p.same_pointer;
    same_resources = q.same_resources ∙ p.same_resources;
    same_live = λ j. q.same_live j ∙ p.same_live j;
  }

module _ (l : Libraries) where
  open l use {rutabaga as r, display as d}

  -- Whatever a method answers, it only draws.
  pub record OnlyDraws {A : Type 0} (m : Action l A) : Type 0 where
    pub draws : (g : VirtioGpu l) → Draws g (m g).1

  bind :
      {A B : Type 0} (f : A → Action l B)
      → ((a : A) → OnlyDraws (f a))
      → (o : Outcome (Response l) A) (g : VirtioGpu l) → Draws g (◌>>=◌ (λ _. (o, g)) f g).1
  bind f k (done a) g = (k a).draws g
  bind f k (raised e) g = Draws-self g
  bind f k panicked g = Draws-self g
  bind f k library_panicked g = Draws-self g

  pub >>=-OnlyDraws :
      {A B : Type 0} (m : Action l A) (f : A → Action l B)
      → OnlyDraws m
      → ((a : A) → OnlyDraws (f a))
      → OnlyDraws (m >>= f)
  >>=-OnlyDraws m f km kf = record {
    draws = λ g. Draws-trans g (m g).1 _ (km.draws g) (bind f kf (m g).0 (m g).1);
  }

  pub ok_or-OnlyDraws : {A : Type 0} (o : Option A) (e : Response l) → OnlyDraws (ok_or o e)
  ok_or-OnlyDraws none e = record { draws = λ g. Draws-self g }
  ok_or-OnlyDraws (some a) e = record { draws = λ g. Draws-self g }

  pub gets-OnlyDraws : {A : Type 0} (f : VirtioGpu l → A) → OnlyDraws (gets f)
  gets-OnlyDraws f = record { draws = λ g. Draws-self g }

  pub pure-OnlyDraws : {A : Type 0} (a : A) → OnlyDraws (pure a)
  pure-OnlyDraws a = record { draws = λ g. Draws-self g }

  pub raise-OnlyDraws : {A : Type 0} (e : Response l) → OnlyDraws (raise {A = A} e)
  raise-OnlyDraws e = record { draws = λ g. Draws-self g }

  pub if-OnlyDraws :
      {A : Type 0} (b : Bool) (m n : Action l A)
      → OnlyDraws m
      → OnlyDraws n
      → OnlyDraws (if b then m else n)
  if-OnlyDraws true m n km kn = km
  if-OnlyDraws false m n km kn = kn

  pub rutabaga_call-OnlyDraws :
      {A : Type 0} (f : Call r.State r.Error A) → OnlyDraws (rutabaga_call f)
  rutabaga_call-OnlyDraws f = record { draws = λ g. drawn g g.display (f g.rutabaga).1 (λ j. refl) }

  pub rutabaga_partial-OnlyDraws :
      {A : Type 0} (f : r.State → Option (A × r.State)) → OnlyDraws (rutabaga_partial f)
  rutabaga_partial-OnlyDraws f = record {
    draws = λ g. elim (Option-cases (f g.rutabaga)) [
      | inl panics ↦ rw (rutabaga_partial, panics) (Draws-self g)
      | inr ((a, s), ran) ↦ rw (rutabaga_partial, ran) (drawn g g.display s (λ j. refl))
    ];
  }

  pub display_partial-OnlyDraws :
      {A : Type 0} (f : d.State → Option (A × d.State))
      → ((s s' : d.State) (a : A) → f s ≡ some (a, s') → (j : ℕ) → d.is_live s' j ≡ d.is_live s j)
      → OnlyDraws (display_partial f)
  display_partial-OnlyDraws f same = record {
    draws = λ g. elim (Option-cases (f g.display)) [
      | inl panics ↦ rw (display_partial, panics) (Draws-self g)
      | inr ((a, s), ran) ↦
          rw (display_partial, ran) (drawn g s g.rutabaga (same g.display s a ran))
    ];
  }

  pub display_do-OnlyDraws :
      (f : d.State → d.State)
      → ((s : d.State) (j : ℕ) → d.is_live (f s) j ≡ d.is_live s j)
      → OnlyDraws (display_do f)
  display_do-OnlyDraws f same = record {
    draws = λ g. drawn g (f g.display) g.rutabaga (same g.display);
  }
