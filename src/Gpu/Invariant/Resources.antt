-- ===== src/Gpu/Invariant/Resources.antt =====
-- The methods that create, release and describe resources keep the invariant.

use vhost_gpu_backend.Protocol.Response.{err_invalid_resource_id}
use vhost_gpu_backend.Protocol.Structs.{
  VirtioGpuCtrlHdr, VirtioGpuResourceCreate2d, VirtioGpuResourceCreate3d, VirtioGpuResourceUnref,
  VirtioGpuCmdGetEdid, VirtioGpuResourceAssignUuid,
}
use vhost_gpu_backend.Gpu.Edid.{write_at}
use vhost_gpu_backend.Prelude.Result.{Result, ok}
use vhost_gpu_backend.Prelude.Table
use vhost_gpu_backend.Prelude.{refl, arith, ◌≡◌, ℕ, Option, none, some}
use vhost_gpu_backend.Libraries.{Libraries, RutabagaLaws, ResourceCreate3d}
use vhost_gpu_backend.Gpu.State.{VirtioGpu}
use vhost_gpu_backend.Gpu.Commands.{
  record_created, forget_resource, answer_created, resource_create_3d, cmd_resource_create_2d,
  cmd_resource_create_3d, cmd_resource_unref, cmd_get_edid, cmd_get_display_info,
  cmd_resource_assign_uuid, assigned_uuid, to_be_bytes,
}
use vhost_gpu_backend.Gpu.Invariant.{
  Calm, if-Keeps, raise-Keeps, gets-Keeps, err, IsValid, VirtioGpuResource, Keeps, >>=-Keeps,
}
use vhost_gpu_backend.Gpu.Invariant.Calls.{rutabaga_call-Keeps_after}

-- The entry that `resource_create_3d` makes.
abbrev pub entry : ℕ → ResourceCreate3d → VirtioGpuResource
entry id c = record { resource_id = id; width = c.width; height = c.height; size = 0 }

module _ {l : Libraries} (rl : RutabagaLaws l.rutabaga) where
  open l use {rutabaga as r}

  created-IsValid :
      (id : ℕ) (c : ResourceCreate3d) (g : VirtioGpu l) (s : r.State)
      → r.resource_create_3d id c g.rutabaga ≡ (ok tt, s)
      → IsValid g
      → IsValid (record g { rutabaga = s; resources = Table.insert id (entry id c) g.resources })
  created-IsValid id c g s e v = record {
    mirrors = λ j. ground (
      arith,
      v.mirrors j,
      Table.get-insert j id (entry id c) g.resources,
      (rl.resource_create_3d_ok id c g.rutabaga s e).1 j,
    );
    keyed = λ j res found.
        ground (arith, v.keyed j res, Table.get-insert j id (entry id c) g.resources);
    surfaces = v.surfaces;
    apart = v.apart;
    non_zero_scanout = v.non_zero_scanout;
    non_zero_cursor = v.non_zero_cursor;
  }

  released-IsValid :
      (id : ℕ) (g : VirtioGpu l) (s : r.State)
      → r.unref_resource id g.rutabaga ≡ (ok tt, s)
      → IsValid g
      → IsValid (record g { rutabaga = s; resources = Table.remove id g.resources })
  released-IsValid id g s e v = record {
    mirrors = λ j. ground (
      arith,
      v.mirrors j,
      Table.get-remove j id g.resources,
      (rl.unref_resource_ok id g.rutabaga s e).1 j,
    );
    keyed = λ j res found. ground (arith, v.keyed j res, Table.get-remove j id g.resources);
    surfaces = v.surfaces;
    apart = v.apart;
    non_zero_scanout = v.non_zero_scanout;
    non_zero_cursor = v.non_zero_cursor;
  }

  answered :
      (P : Type 0)
      → (id : ℕ) (g : VirtioGpu l) (x : Result r.Error r.Metadata) → r.query id g.rutabaga ≡ x
      → IsValid g
      → IsValid (answer_created {l = l} id g).1 × Calm l P (answer_created {l = l} id g).0
  unfolding answer_created
  answered P id g (ok m) e v = rw (answer_created, e) (v, tt)
  answered P id g (err x) e v = rw (answer_created, e) (v, tt)

  recorded :
      (P : Type 0)
      → (id : ℕ) (c : ResourceCreate3d) (g : VirtioGpu l) (s : r.State) → IsValid g
      → r.resource_create_3d id c g.rutabaga ≡ (ok tt, s)
      → let (o, g') = record_created {l = l} id c (record g { rutabaga = s }) in
        IsValid g' × Calm l P o
  unfolding record_created
  recorded P id c g s v e = answered P id _ _ refl (created-IsValid id c g s e v)

  pub resource_create_3d-Keeps :
      {P : Type 0} → (id : ℕ) (c : ResourceCreate3d) → Keeps l P (resource_create_3d {l = l} id c)
  unfolding resource_create_3d
  resource_create_3d-Keeps id c =
      rutabaga_call-Keeps_after l (r.resource_create_3d id c) (λ _. record_created {l = l} id c)
        (λ g t s v e. recorded _ id c g s v e)
        (λ g e s j failed. rl.resource_create_3d_err id c e g.rutabaga s failed j)

  pub cmd_resource_create_2d-Keeps :
      {P : Type 0}
      → (cmd : VirtioGpuResourceCreate2d) → Keeps l P (cmd_resource_create_2d {l = l} cmd)
  unfolding cmd_resource_create_2d
  cmd_resource_create_2d-Keeps cmd = resource_create_3d-Keeps cmd.resource_id _

  pub cmd_resource_create_3d-Keeps :
      {P : Type 0}
      → (cmd : VirtioGpuResourceCreate3d) → Keeps l P (cmd_resource_create_3d {l = l} cmd)
  unfolding cmd_resource_create_3d
  cmd_resource_create_3d-Keeps cmd = resource_create_3d-Keeps cmd.resource_id _

  forgotten :
      (P : Type 0)
      → (id : ℕ) (g : VirtioGpu l) (found : Option VirtioGpuResource)
      → Table.get id g.resources ≡ found
      → IsValid (record g { resources = Table.remove id g.resources })
      → IsValid (forget_resource {l = l} id g).1 × Calm l P (forget_resource {l = l} id g).0
  unfolding forget_resource
  forgotten P id g none e v = rw (forget_resource, e) (v, tt)
  forgotten P id g (some res) e v = rw (forget_resource, e) (v, tt)

  pub cmd_resource_unref-Keeps :
      {P : Type 0} → (cmd : VirtioGpuResourceUnref) → Keeps l P (cmd_resource_unref {l = l} cmd)
  unfolding cmd_resource_unref
  cmd_resource_unref-Keeps cmd =
      rutabaga_call-Keeps_after l (r.unref_resource cmd.resource_id)
        (λ _. forget_resource {l = l} cmd.resource_id)
        (λ g t s v e.
          forgotten _ cmd.resource_id _ _ refl (released-IsValid cmd.resource_id g s e v))
        (λ g e s j failed. rl.unref_resource_err cmd.resource_id e g.rutabaga s failed j)

module _ {l : Libraries} where
  open l use {rutabaga as r}

  pub cmd_get_display_info-Keeps :
      {P : Type 0} → (cmd : VirtioGpuCtrlHdr) → Keeps l P (cmd_get_display_info {l = l} cmd)
  unfolding cmd_get_display_info
  cmd_get_display_info-Keeps cmd = gets-Keeps l _

  pub cmd_get_edid-Keeps :
      {P : Type 0} → (cmd : VirtioGpuCmdGetEdid) → Keeps l P (cmd_get_edid {l = l} cmd)
  unfolding cmd_get_edid write_at
  cmd_get_edid-Keeps cmd = record { valid = λ g v. v; calm = λ g v. tt }

  assigned_uuid-Keeps : {P : Type 0} → (id : ℕ) → Keeps l P (assigned_uuid {l = l} id)
  unfolding assigned_uuid write_at to_be_bytes
  assigned_uuid-Keeps id = record { valid = λ g v. v; calm = λ g v. tt }

  pub cmd_resource_assign_uuid-Keeps :
      {P : Type 0}
      → (cmd : VirtioGpuResourceAssignUuid) → Keeps l P (cmd_resource_assign_uuid {l = l} cmd)
  unfolding cmd_resource_assign_uuid
  cmd_resource_assign_uuid-Keeps cmd = >>=-Keeps l _ _ (gets-Keeps l _) (λ known.
      if-Keeps l known _ _ (assigned_uuid-Keeps cmd.resource_id)
        (raise-Keeps l err_invalid_resource_id))
