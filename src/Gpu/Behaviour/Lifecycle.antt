-- ===== src/Gpu/Behaviour/Lifecycle.antt =====
-- The life of a resource: its creation and its release.
use mathlib.Core.Path.{subst}
use vhost_gpu_backend.Gpu.Invariant.Resources.{resource_create_3d-Keeps, entry}
use vhost_gpu_backend.Protocol.Structs.{VirtioGpuResourceUnref}
use vhost_gpu_backend.Gpu.Invariant.Ends.{done-injective}
use vhost_gpu_backend.Gpu.Runs.{rutabaga_call_err, rutabaga_call_ok, rutabaga_call_done}
use vhost_gpu_backend.Protocol.Response.{rutabaga_error, ok_no_data, err_invalid_resource_id}
use vhost_gpu_backend.Gpu.Invariant.{IsValid}
use vhost_gpu_backend.Gpu.Commands.{
  forget_resource, cmd_resource_unref, answer_created, record_created, resource_create_3d,
}
use vhost_gpu_backend.Libraries.{ResourceCreate3d, RutabagaLaws, Libraries}
use vhost_gpu_backend.Prelude.{
  Option-cases, refl, arith, ◌∙◌, ap, sym, inr, inl, ◌⊎◌, ◌==◌, ℕ, ◌≡◌, if◌then◌else◌, none, some,
  true,
}
use vhost_gpu_backend.Prelude.Table
use vhost_gpu_backend.Prelude.Result.{Result, ok, err, Result-cases}
use vhost_gpu_backend.Gpu.State.{
  ◌>>=◌, rutabaga_call, Outcome, VirtioGpuResource, Response, VirtioGpu, done, raised,
}

module _ (l : Libraries) where
  -- The answer to a creation, by whether the renderer can be asked for the resource.
  abbrev pub CreationAnswer : ℕ → l.rutabaga.State → Response l → Type 0
  CreationAnswer id s x =
      ((m : l.rutabaga.Metadata) × (l.rutabaga.query id s ≡ ok m) × (x ≡ err_invalid_resource_id))
      ⊎ ((y : l.rutabaga.Error) × (l.rutabaga.query id s ≡ err y) × (x ≡ ok_no_data))

module _ {l : Libraries} (rl : RutabagaLaws l.rutabaga) where
  open l use {rutabaga as r}

  answer_created_done :
      (id : ℕ) (g g' : VirtioGpu l) (x : Response l)
      → answer_created id g ≡ (done x, g')
      → (g' ≡ g) × CreationAnswer l id g.rutabaga x
  unfolding answer_created
  answer_created_done id g g' x e = elim (Result-cases (r.query id g.rutabaga)) [
    | inl (m, known) ↦
        let e' = rw (answer_created, known) at e in
        (sym (ap (λ q. q.1) e'), inl (m, known, sym (done-injective _ _ (ap (λ q. q.0) e'))))
    | inr (y, unknown) ↦
        let e' = rw (answer_created, unknown) at e in
        (sym (ap (λ q. q.1) e'), inr (y, unknown, sym (done-injective _ _ (ap (λ q. q.0) e'))))
  ]

  -- A creation in a valid state that does not fail is of a resource that did not exist. The device
  -- then knows it, with its width and height and the size 0, and all other resources are as before.
  -- The answer is `ErrInvalidResourceId` exactly when the renderer can be asked for the new
  -- resource, and `OkNoData` when it cannot. The renderer satisfies its laws.
  pub resource_create_3d_done :
      (id : ℕ) (c : ResourceCreate3d) (g g' : VirtioGpu l) (x : Response l)
      → IsValid g
      → resource_create_3d id c g ≡ (done x, g')
      → (Table.get id g.resources ≡ none)
        × ((j : ℕ)
            → Table.get j g'.resources ≡ (
                if j == id
                then some
                    (record { resource_id = id; width = c.width; height = c.height; size = 0 })
                else Table.get j g.resources))
        × (((m : r.Metadata) × (r.query id g'.rutabaga ≡ ok m) × (x ≡ err_invalid_resource_id))
            ⊎ ((y : r.Error) × (r.query id g'.rutabaga ≡ err y) × (x ≡ ok_no_data)))
  unfolding resource_create_3d record_created
  resource_create_3d_done id c g g' x v e =
      let (t, s, ran, rest) =
        rutabaga_call_done (r.resource_create_3d id c) (λ _. record_created id c) g g' x e in
      let (same, answer) = answer_created_done id _ g' x rest in
      (
        ground (arith, v.mirrors id, (rl.resource_create_3d_ok id c g.rutabaga s ran).0),
        λ j.
            ap (λ (h : VirtioGpu l). Table.get j h.resources) same
            ∙ Table.get-insert j id (entry id c) g.resources,
        subst (λ (h : VirtioGpu l). CreationAnswer l id h.rutabaga x) (sym same) answer,
      )

  abbrev pub Released : ℕ → VirtioGpu l → Outcome (Response l) (Response l) × VirtioGpu l → Type 0
  Released id g run =
      ((run.0 ≡ done ok_no_data)
        × (Table.contains_key id g.resources ≡ true)
        × ((j : ℕ)
            → Table.get j run.1.resources ≡ (if j == id then none else Table.get j g.resources))
        × (run.1.scanout_resource_id ≡ g.scanout_resource_id)
        × (run.1.scanout_surface_id ≡ g.scanout_surface_id))
      ⊎ ((x : r.Error) × (run.0 ≡ raised (rutabaga_error x)) × (run.1.resources ≡ g.resources))

  forget_resource-Released :
      (id : ℕ) (g : VirtioGpu l) (s : r.State) (res : VirtioGpuResource)
      → Table.get id g.resources ≡ some res
      → Released id g (forget_resource {l = l} id (record g { rutabaga = s }))
  unfolding forget_resource
  forget_resource-Released id g s res e =
      rw (forget_resource, e) (inl (refl, refl, λ j. Table.get-remove j id g.resources, refl, refl))

  unref-Released :
      (id : ℕ) (g : VirtioGpu l) (ran : Result r.Error (Unit {0}) × r.State)
      → r.unref_resource id g.rutabaga ≡ ran
      → IsValid g
      → Released id g ((rutabaga_call (r.unref_resource id) >>= λ _. forget_resource id) g)
  unref-Released id g (ok t, s) ran v =
      let known = (rl.unref_resource_ok id g.rutabaga s ran).0 in
      elim (Option-cases (Table.get id g.resources)) [
        | inl missing ↦ absurd (ground (arith, v.mirrors id, known, missing))
        | inr (res, found) ↦
            subst (Released id g)
              (sym (rutabaga_call_ok (r.unref_resource id) (λ _. forget_resource id) g t s ran))
              (forget_resource-Released id g s res found)
      ]
  unref-Released id g (err x, s) ran v =
      subst (Released id g)
        (sym (rutabaga_call_err (r.unref_resource id) (λ _. forget_resource id) g x s ran))
        (inr (x, refl, refl))

  -- A release in a valid state either succeeds, of a resource that the device knew and now does not
  -- know, with all others as before and the same one on the screen, or it fails with the error of
  -- the renderer and leaves the resources as they are. It never answers that the id is invalid. The
  -- renderer satisfies its laws.
  pub cmd_resource_unref_cases :
      (cmd : VirtioGpuResourceUnref) (g : VirtioGpu l)
      → IsValid g
      → Released cmd.resource_id g (cmd_resource_unref {l = l} cmd g)
  unfolding cmd_resource_unref
  cmd_resource_unref_cases cmd g v = unref-Released cmd.resource_id g _ refl v

  -- A resource that is created in a valid state and then released, both with success, leaves no
  -- trace: every id finds what it found before. The renderer satisfies its laws.
  pub resource_create_3d-unref :
      (c : ResourceCreate3d) (cmd : VirtioGpuResourceUnref) (g g' g'' : VirtioGpu l)
      (x y : Response l)
      → IsValid g
      → resource_create_3d cmd.resource_id c g ≡ (done x, g')
      → cmd_resource_unref cmd g' ≡ (done y, g'')
      → (j : ℕ) → Table.get j g''.resources ≡ Table.get j g.resources
  resource_create_3d-unref c cmd g g' g'' x y v made released j =
      let created = resource_create_3d_done cmd.resource_id c g g' x v made in
      let v' =
        subst IsValid (ap (λ q. q.1) made)
          ((resource_create_3d-Keeps rl {P = ⊥} cmd.resource_id c).valid g v) in
      elim (subst (Released cmd.resource_id g') released (cmd_resource_unref_cases cmd g' v')) [
        | inl (_, _, left, _, _) ↦ ground (arith, left j, created.0, created.1 j)
        | inr (e, failed, _) ↦ absurd cc
      ]
