-- ===== src/Gpu/Methods/Safety.antt =====
-- The invariant of the device, in every state that a sequence of calls reaches.
use vhost_gpu_backend.Gpu.Invariant.Ends.{done-injective}
use mathlib.Core.Path.{subst}
use vhost_gpu_backend.Prelude.{sym, ◌≡◌, refl, ℕ, false, inl, inr}
use vhost_gpu_backend.Prelude.Result.{Result-cases}
use vhost_gpu_backend.Libraries.{Libraries, RutabagaLaws, DisplayLaws}
use vhost_gpu_backend.Gpu.State.{VirtioGpu, GpuParameter, Response, Action, done}
use vhost_gpu_backend.Gpu.Invariant.{
  PollPanics, FramebufferPanics, RegionPanics, IsValid, Keeps, >>=-Keeps, pure-Keeps,
}
use vhost_gpu_backend.Gpu.New.{virglrenderer_flags, component, new, initial}
use vhost_gpu_backend.Gpu.Methods.{
  Method, answered, call, response, close_requested, fences, nothing, Reachable, made, called,
  call_context_create, call_context_destroy, call_create_fence, call_ctx_attach_resource,
  call_ctx_detach_resource, call_fence_poll, call_flush_resource, call_flush_resource_to_surface,
  call_force_ctx_0, call_get_capset, call_get_capset_info, call_get_display_info, call_get_edid,
  call_move_curosr, call_process_display, call_resource_assign_uuid, call_resource_attach_backing,
  call_resource_create_2d, call_resource_create_3d, call_resource_detach_backing,
  call_resource_unref, call_set_scanout, call_submit_3d, call_transfer_from_host_3d,
  call_transfer_to_host_2d, call_transfer_to_host_3d, call_update_cursor,
}
use vhost_gpu_backend.Gpu.Invariant.Resources.{
  cmd_get_display_info-Keeps, cmd_get_edid-Keeps, cmd_resource_assign_uuid-Keeps,
  cmd_resource_create_2d-Keeps, cmd_resource_create_3d-Keeps, cmd_resource_unref-Keeps,
}
use vhost_gpu_backend.Gpu.Invariant.Contexts.{
  cmd_context_create-Keeps, cmd_context_destroy-Keeps, cmd_ctx_attach_resource-Keeps,
  cmd_ctx_detach_resource-Keeps, cmd_get_capset-Keeps, cmd_get_capset_info-Keeps,
  cmd_resource_attach_backing-Keeps, cmd_resource_detach_backing-Keeps, cmd_submit_3d-Keeps,
  cmd_transfer_from_host_3d-Keeps, cmd_transfer_to_host_2d-Keeps, cmd_transfer_to_host_3d-Keeps,
  create_fence-Keeps, fence_poll-Keeps, force_ctx_0-Keeps,
}
use vhost_gpu_backend.Gpu.Invariant.Screen.{
  cmd_flush_resource-Keeps, flush_resource_to_surface-Keeps, process_display-Keeps,
}
use vhost_gpu_backend.Gpu.Invariant.Scanout.{cmd_set_scanout-Keeps}
use vhost_gpu_backend.Gpu.Invariant.Pointer.{cmd_move_curosr-Keeps, cmd_update_cursor-Keeps}

module _ {l : Libraries} where
  -- The calls in which a library can panic, and why it then does.
  abbrev pub MayPanic : Method l → Type 0
  MayPanic call_fence_poll = PollPanics l
  MayPanic (call_flush_resource_to_surface _ _) = RegionPanics l
  MayPanic (call_flush_resource _) = RegionPanics l
  MayPanic (call_update_cursor _) = FramebufferPanics l
  MayPanic _ = ⊥

  answered-Keeps : {P : Type 0} (m : Action l (Response l)) → Keeps l P m → Keeps l P (answered m)
  answered-Keeps m k = >>=-Keeps l m _ k (λ r. pure-Keeps l (response r))

module _ {l : Libraries} (rl : RutabagaLaws l.rutabaga) (dl : DisplayLaws l.display) where
  open l use {rutabaga as r, display as d}

  pub call-Keeps : (m : Method l) → Keeps l (MayPanic m) (call m)
  unfolding call
  call-Keeps call_process_display =
      >>=-Keeps l _ _ (process_display-Keeps rl dl) (λ b. pure-Keeps l (close_requested b))
  call-Keeps call_fence_poll = >>=-Keeps l _ _ (fence_poll-Keeps rl) (λ f. pure-Keeps l (fences f))
  call-Keeps call_force_ctx_0 = >>=-Keeps l _ _ (force_ctx_0-Keeps rl) (λ _. pure-Keeps l nothing)
  call-Keeps (call_get_display_info cmd) = answered-Keeps _ (cmd_get_display_info-Keeps cmd)
  call-Keeps (call_resource_create_2d cmd) = answered-Keeps _ (cmd_resource_create_2d-Keeps rl cmd)
  call-Keeps (call_resource_create_3d cmd) = answered-Keeps _ (cmd_resource_create_3d-Keeps rl cmd)
  call-Keeps (call_resource_unref cmd) = answered-Keeps _ (cmd_resource_unref-Keeps rl cmd)
  call-Keeps (call_context_create cmd) = answered-Keeps _ (cmd_context_create-Keeps rl cmd)
  call-Keeps (call_context_destroy cmd) = answered-Keeps _ (cmd_context_destroy-Keeps rl cmd)
  call-Keeps (call_get_edid cmd) = answered-Keeps _ (cmd_get_edid-Keeps cmd)
  call-Keeps (call_get_capset_info cmd) = answered-Keeps _ (cmd_get_capset_info-Keeps rl cmd)
  call-Keeps (call_get_capset cmd) = answered-Keeps _ (cmd_get_capset-Keeps rl cmd)
  call-Keeps (call_flush_resource_to_surface cmd arg) =
      answered-Keeps _ (flush_resource_to_surface-Keeps rl dl cmd arg)
  call-Keeps (call_flush_resource cmd) = answered-Keeps _ (cmd_flush_resource-Keeps rl dl cmd)
  call-Keeps (call_set_scanout cmd) = answered-Keeps _ (cmd_set_scanout-Keeps dl cmd)
  call-Keeps (call_resource_attach_backing cmd arg) =
      answered-Keeps _ (cmd_resource_attach_backing-Keeps rl cmd arg)
  call-Keeps (call_resource_detach_backing cmd) =
      answered-Keeps _ (cmd_resource_detach_backing-Keeps rl cmd)
  call-Keeps (call_ctx_attach_resource cmd) =
      answered-Keeps _ (cmd_ctx_attach_resource-Keeps rl cmd)
  call-Keeps (call_ctx_detach_resource cmd) =
      answered-Keeps _ (cmd_ctx_detach_resource-Keeps rl cmd)
  call-Keeps (call_submit_3d cmd arg) = answered-Keeps _ (cmd_submit_3d-Keeps rl cmd arg)
  call-Keeps (call_transfer_to_host_2d cmd) =
      answered-Keeps _ (cmd_transfer_to_host_2d-Keeps rl cmd)
  call-Keeps (call_transfer_to_host_3d cmd) =
      answered-Keeps _ (cmd_transfer_to_host_3d-Keeps rl cmd)
  call-Keeps (call_resource_assign_uuid cmd) = answered-Keeps _ (cmd_resource_assign_uuid-Keeps cmd)
  call-Keeps (call_transfer_from_host_3d cmd arg) =
      answered-Keeps _ (cmd_transfer_from_host_3d-Keeps rl cmd arg)
  call-Keeps (call_move_curosr cmd) = answered-Keeps _ (cmd_move_curosr-Keeps dl cmd)
  call-Keeps (call_update_cursor cmd) = answered-Keeps _ (cmd_update_cursor-Keeps rl dl cmd)
  call-Keeps (call_create_fence cmd) = answered-Keeps _ (create_fence-Keeps rl cmd)

  initial-IsValid :
      (p : GpuParameter) (s : d.State) (t : r.State)
      → ((j : ℕ) → d.is_live s j ≡ false)
      → ((j : ℕ) → r.has_resource t j ≡ false)
      → IsValid (initial {l = l} p s t)
  initial-IsValid p s t no_surface no_resource = record {
    mirrors = λ id. sym (no_resource id);
    keyed = λ id res found. absurd cc;
    surfaces = no_surface;
    apart = λ j. refl;
    non_zero_scanout = λ e. cc;
    non_zero_cursor = λ e. cc;
  }

  -- A device that is made: nothing is on the screen, and no resource exists.
  pub new-IsValid : (p : GpuParameter) (g : VirtioGpu l) → new p ≡ done g → IsValid g
  unfolding new
  new-IsValid p g e = elim (Result-cases d.open_x) [
    | inr (x, failed) ↦ absurd cc
    | inl (s, opened) ↦ elim (Result-cases (r.build (component p.mode) (virglrenderer_flags l p))) [
      | inr (x, failed) ↦ absurd cc
      | inl (t, built) ↦
          subst IsValid (done-injective _ _ (rw (new, opened, built) at e))
            (initial-IsValid p s t (dl.open_x_ok s opened) (rl.build_ok _ _ t built))
    ]
  ]

  -- In every state that a sequence of calls of the public methods reaches from a new device, with
  -- arbitrary arguments and errors of the libraries in between, the device and the renderer know
  -- the same resources, each resource is stored under its id, the live surfaces of the display are
  -- exactly those of the screen and the cursor, which differ, and no shown resource has the id 0.
  -- The libraries satisfy their laws.
  pub Reachable-IsValid : (g : VirtioGpu l) → Reachable l g → IsValid g
  Reachable-IsValid g (made p _ e) = new-IsValid p g e
  Reachable-IsValid g (called m h reached) = (call-Keeps m).valid h (Reachable-IsValid h reached)
