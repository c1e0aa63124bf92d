-- ===== src/Gpu/Methods/Answers.antt =====
-- Every answer of a public method can be sent to the guest.
use vhost_gpu_backend.Gpu.Answers.Screens.{
  ok_no_data-Answers, cmd_flush_resource-Answers, flush_resource_to_surface-Answers,
  cmd_set_scanout-Answers,
}
use vhost_gpu_backend.Gpu.Answers.Cursors.{cmd_update_cursor-Answers, cmd_move_curosr-Answers}
use mathlib.Core.Path.{subst}
use vhost_gpu_backend.Protocol.Structs.{VirtioGpuCtrlHdr, VirtioGpuCmdGetEdid}
use vhost_gpu_backend.Prelude.{arith, refl, ℕ, ◌≡◌, ◌⊎◌, inl, inr, List, Option, none, some}
use vhost_gpu_backend.Prelude.Result.{Result, ok, err}
use vhost_gpu_backend.Prelude.Table
use vhost_gpu_backend.Libraries.{Libraries, Call, ResourceCreate3d}
use vhost_gpu_backend.Protocol.Response.{
  ok_capset, ok_capset_info, encode, ok_no_data, err_invalid_resource_id,
}
use vhost_gpu_backend.Protocol.Response.Status.{encode_total}
use vhost_gpu_backend.Gpu.State.{
  panicked, library_panicked, VirtioGpu, VirtioGpuResource, Response, Outcome, done, raised, Action,
  ◌>>◌, pure, rutabaga_call,
}
use vhost_gpu_backend.Gpu.Edid.{write_at}
use vhost_gpu_backend.Gpu.Answers.{
  >>-Answers, IsSendable, Answers, Fits, IsShort, IsShort-modes_count, >>=-Answers, pure-Answers,
  raise-Answers, gets-Answers, rutabaga_call-Answers, rutabaga_partial-Answers, if-Answers,
}
use vhost_gpu_backend.Gpu.Commands.{
  cmd_resource_assign_uuid, force_ctx_0, fence_poll, create_fence, cmd_transfer_from_host_3d,
  cmd_transfer_to_host_3d, cmd_transfer_to_host_2d, cmd_submit_3d, cmd_ctx_detach_resource,
  cmd_ctx_attach_resource, cmd_resource_detach_backing, cmd_resource_attach_backing, cmd_get_capset,
  cmd_get_capset_info, cmd_context_destroy, cmd_context_create, cmd_resource_unref,
  cmd_resource_create_3d, cmd_resource_create_2d, to_be_bytes, assigned_uuid, cmd_get_edid,
  cmd_get_display_info, record_created, resource_create_3d, answer_created, forget_resource,
}
use vhost_gpu_backend.Gpu.Scanout.{process_display}
use vhost_gpu_backend.Gpu.Methods.{
  Answer, fences, Method, call, answered, response, call_get_display_info, call_resource_create_2d,
  call_resource_create_3d, call_resource_unref, call_context_create, call_context_destroy,
  call_get_edid, call_get_capset_info, call_get_capset, call_flush_resource_to_surface,
  call_flush_resource, call_set_scanout, call_resource_attach_backing, call_resource_detach_backing,
  call_ctx_attach_resource, call_ctx_detach_resource, call_submit_3d, call_transfer_to_host_2d,
  call_transfer_to_host_3d, call_resource_assign_uuid, call_transfer_from_host_3d, call_move_curosr,
  call_update_cursor, call_create_fence, call_process_display, call_fence_poll, call_force_ctx_0,
}

module _ {l : Libraries} where
  open l use {rutabaga as r, display as d}

  then_ok-Answers :
      (f : Call r.State r.Error (Unit {0}))
      → Answers l (IsSendable l) (rutabaga_call f >> pure ok_no_data)
  then_ok-Answers f =
      >>-Answers l (rutabaga_call {l = l} f) _ (rutabaga_call-Answers l f) ok_no_data-Answers

  created-Fits :
      (id : ℕ) (g : VirtioGpu l) (x : Result r.Error r.Metadata)
      → r.query id g.rutabaga ≡ x
      → Fits IsShort (answer_created {l = l} id g).0
  unfolding answer_created
  created-Fits id g (ok m) e = rw (answer_created, e) tt
  created-Fits id g (err x) e = rw (answer_created, e) tt

  record_created-Answers :
      (id : ℕ) (c : ResourceCreate3d) → Answers l (IsSendable l) (record_created id c)
  unfolding record_created
  record_created-Answers id c = record { answer = λ g. created-Fits id _ _ refl }

  resource_create_3d-Answers :
      (id : ℕ) (c : ResourceCreate3d) → Answers l (IsSendable l) (resource_create_3d id c)
  unfolding resource_create_3d
  resource_create_3d-Answers id c =
      >>=-Answers l (rutabaga_call (r.resource_create_3d id c)) (λ _. record_created id c)
        (rutabaga_call-Answers l (r.resource_create_3d id c)) (λ _. record_created-Answers id c)

  forgotten-Fits :
      (id : ℕ) (g : VirtioGpu l) (found : Option VirtioGpuResource)
      → Table.get id g.resources ≡ found
      → Fits IsShort (forget_resource {l = l} id g).0
  unfolding forget_resource
  forgotten-Fits id g none e = rw (forget_resource, e) tt
  forgotten-Fits id g (some res) e = rw (forget_resource, e) tt

  assigned_uuid-Answers : (id : ℕ) → Answers l (IsSendable l) (assigned_uuid id)
  unfolding assigned_uuid write_at to_be_bytes
  assigned_uuid-Answers id = record { answer = λ g. tt }

  cmd_get_edid-Answers : (cmd : VirtioGpuCmdGetEdid) → Answers l (IsSendable l) (cmd_get_edid cmd)
  unfolding cmd_get_edid write_at
  cmd_get_edid-Answers cmd = record { answer = λ g. tt }

  cmd_get_display_info-Answers :
      (cmd : VirtioGpuCtrlHdr) → Answers l (IsSendable l) (cmd_get_display_info cmd)
  unfolding cmd_get_display_info
  cmd_get_display_info-Answers cmd = record { answer = λ g. omega arith }

  -- A response among the answers of a call.
  abbrev Suits : Answer l → Type 0
  Suits (response x) = IsSendable l x
  Suits _ = Unit

  answered-Fits :
      (o : Outcome (Response l) (Response l)) (g : VirtioGpu l)
      → Fits (IsSendable l) o
      → Fits Suits (answered (λ _. (o, g)) g).0
  answered-Fits (done x) g fits = fits
  answered-Fits (raised x) g fits = fits
  answered-Fits panicked g fits = tt
  answered-Fits library_panicked g fits = tt

  answered-Answers :
      (m : Action l (Response l)) → Answers l (IsSendable l) m → Answers l Suits (answered m)
  answered-Answers m k = record { answer = λ g. answered-Fits (m g).0 (m g).1 (k.answer g) }

  call-Answers : (m : Method l) → Answers l Suits (call m)
  unfolding call cmd_resource_create_2d cmd_resource_create_3d cmd_resource_unref cmd_context_create
      cmd_context_destroy cmd_get_capset_info cmd_get_capset cmd_resource_attach_backing
      cmd_resource_detach_backing cmd_ctx_attach_resource cmd_ctx_detach_resource cmd_submit_3d
      cmd_transfer_to_host_2d cmd_transfer_to_host_3d cmd_transfer_from_host_3d create_fence
      process_display fence_poll force_ctx_0 cmd_resource_assign_uuid
  call-Answers call_process_display = record { answer = λ g. tt }
  call-Answers call_fence_poll =
      >>=-Answers l _ _ (rutabaga_partial-Answers l r.poll) (λ f. pure-Answers l (fences f) tt)
  call-Answers call_force_ctx_0 = record { answer = λ g. tt }
  call-Answers (call_get_display_info cmd) = answered-Answers _ (cmd_get_display_info-Answers cmd)
  call-Answers (call_resource_create_2d cmd) =
      answered-Answers _ (resource_create_3d-Answers cmd.resource_id _)
  call-Answers (call_resource_create_3d cmd) =
      answered-Answers _ (resource_create_3d-Answers cmd.resource_id _)
  call-Answers (call_resource_unref cmd) = answered-Answers _ (
      >>=-Answers l (rutabaga_call (r.unref_resource cmd.resource_id))
        (λ _. forget_resource cmd.resource_id)
        (rutabaga_call-Answers l (r.unref_resource cmd.resource_id))
        (λ _. record { answer = λ g. forgotten-Fits cmd.resource_id g _ refl }))
  call-Answers (call_context_create cmd) = answered-Answers _ (then_ok-Answers _)
  call-Answers (call_context_destroy cmd) = answered-Answers _ (then_ok-Answers _)
  call-Answers (call_get_edid cmd) = answered-Answers _ (cmd_get_edid-Answers cmd)
  call-Answers (call_get_capset_info cmd) = answered-Answers _ (
      >>=-Answers l _ _ (rutabaga_call-Answers l _)
        (λ (i, v, s). pure-Answers l (ok_capset_info i v s) tt))
  call-Answers (call_get_capset cmd) =
      answered-Answers _
        (>>=-Answers l _ _ (rutabaga_call-Answers l _) (λ c. pure-Answers l (ok_capset c) tt))
  call-Answers (call_flush_resource_to_surface id surface_id) =
      answered-Answers _ (flush_resource_to_surface-Answers id surface_id)
  call-Answers (call_flush_resource cmd) = answered-Answers _ (cmd_flush_resource-Answers cmd)
  call-Answers (call_set_scanout cmd) = answered-Answers _ (cmd_set_scanout-Answers cmd)
  call-Answers (call_resource_attach_backing cmd iovecs) = answered-Answers _ (then_ok-Answers _)
  call-Answers (call_resource_detach_backing cmd) = answered-Answers _ (then_ok-Answers _)
  call-Answers (call_ctx_attach_resource cmd) = answered-Answers _ (then_ok-Answers _)
  call-Answers (call_ctx_detach_resource cmd) = answered-Answers _ (then_ok-Answers _)
  call-Answers (call_submit_3d cmd commands) = answered-Answers _ (then_ok-Answers _)
  call-Answers (call_transfer_to_host_2d cmd) = answered-Answers _ (then_ok-Answers _)
  call-Answers (call_transfer_to_host_3d cmd) = answered-Answers _ (then_ok-Answers _)
  call-Answers (call_resource_assign_uuid cmd) = answered-Answers _ (
      >>=-Answers l _ _ (gets-Answers l (λ g. Table.contains_key cmd.resource_id g.resources))
        (λ known.
          if-Answers l known _ _ (assigned_uuid-Answers cmd.resource_id)
            (raise-Answers l err_invalid_resource_id tt)))
  call-Answers (call_transfer_from_host_3d cmd buf) = answered-Answers _ (then_ok-Answers _)
  call-Answers (call_move_curosr cmd) = answered-Answers _ (cmd_move_curosr-Answers cmd)
  call-Answers (call_update_cursor cmd) = answered-Answers _ (cmd_update_cursor-Answers cmd)
  call-Answers (call_create_fence cmd) = answered-Answers _ (then_ok-Answers _)

  -- Every response that a call of a public method returns or raises, in any state, is encoded
  -- without an error, whatever the flags, the fence and the context of the request are.
  pub call-encode :
      (m : Method l) (g : VirtioGpu l) (x : Response l) (flags fence_id ctx_id : ℕ)
      → ((call m g).0 ≡ done (response x)) ⊎ ((call m g).0 ≡ raised x)
      → (bs : List ℕ) × (encode x flags fence_id ctx_id ≡ ok bs)
  call-encode m g x flags fence_id ctx_id (inl e) =
      encode_total x flags fence_id ctx_id
        (IsShort-modes_count x (subst (Fits Suits) e ((call-Answers m).answer g)))
  call-encode m g x flags fence_id ctx_id (inr e) =
      encode_total x flags fence_id ctx_id
        (IsShort-modes_count x (subst (Fits Suits) e ((call-Answers m).answer g)))
