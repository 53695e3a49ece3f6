-- ===== src/Host/Wait.antt =====
-- kernel/vams_pci.c: requests of a process, and the wait for them (vams_request_alloc,
-- vams_ioctl_submit, vams_ioctl_wait). Waiting is an argument that gives the device after the wait
-- and its outcome; the locks make the rest of each call one step.
use virtual_accelerator_mana.Base.{
  ℕ, ◌+◌, ◌-◌, Bool, false, not, ◌&&◌, if◌then◌else◌, leb, ◌==◌, ◌!=◌, Option, none, some, ◌⊎◌, inl,
  inr,
}
use virtual_accelerator_mana.Command.{max_timeout_ms}
use virtual_accelerator_mana.Zephyr.{Mmio}
use virtual_accelerator_mana.Host.Uapi.{
  Code, ok, enodev, enomem, efault, einval, enoent, eagain, etimedout, ealready, interrupted, is_ok,
  IocNop, IocSubmit, IocWait, uapi_version,
}
use virtual_accelerator_mana.Host.State.{
  xa_load, xa_erase, Host, Request, with_request, with_file, mapping_get, request_get, request_put,
}
use virtual_accelerator_mana.Host.Access.{
  Target, Targets, submit_header_ok, wanted, find_targets, descriptor,
}
use virtual_accelerator_mana.Host.Queues.{no_completion, submit}

-- `struct vams_request` as vams_request_alloc makes it.
abbrev pub new_request : Option ℕ → Request
new_request owner = record {
  refs = 1;
  done = false;
  result = no_completion;
  owner = owner;
  source = none;
  destination = none;
  driver_status = ok;
  command_id = 0;
  reset_generation = 0;
}

abbrev pub mapping_of : Option Target → Option ℕ
mapping_of none = none
mapping_of (some t) = some t.mapping

unfoldable pub wait_header_ok : IocWait → Bool
wait_header_ok o =
    o.size == 64
    && o.version == uapi_version
    && o.command_id != 0
    && o.flags == 0
    && leb o.timeout_ms max_timeout_ms
    && is_ok o.driver_status
    && o.status == 0
    && o.error_code == 0
    && o.bytes_processed == 0
    && o.result_crc == 0
    && o.reserved0 == 0
    && o.user_cookie == 0
    && o.device_timestamp == 0
    && o.reserved1 == 0

-- What the process is told of the request at `a`.
abbrev pub wait_output : IocWait → Request → IocWait
wait_output o r = record o {
  driver_status = r.driver_status;
  status = r.result.status;
  error_code = r.result.error_code;
  bytes_processed = r.result.bytes_processed;
  result_crc = r.result.result_crc;
  user_cookie = r.result.user_cookie;
  device_timestamp = r.result.device_timestamp;
}

-- What a wait comes to: done, out of time, or interrupted.
pub data Waited : Type 0 where
  completed expired signalled : Waited

abbrev pub nop_output : IocNop → Request → IocNop
nop_output i r = record i {
  command_id = r.command_id;
  status = r.result.status;
  error_code = r.result.error_code;
  bytes_processed = r.result.bytes_processed;
  result_crc = r.result.result_crc;
  device_timestamp = r.result.device_timestamp;
}

abbrev pub nop_answer : Bool → IocNop → Request → Code ⊎ IocNop
nop_answer copied_out i r =
    if not (is_ok r.driver_status)
    then inl r.driver_status
    else if copied_out
    then inr (nop_output i r)
    else inl efault

module _ (m : Mmio) where
  -- The reference of an owner is counted.
  abbrev pub owned : Option ℕ → Host m → Host m
  owned none s = s
  owned (some f) s = with_file m f (λ file. record file { refs = file.refs + 1 }) s

  unfoldable pub request_alloc : Option ℕ → ℕ → Host m → Host m
  request_alloc owner a s = owned owner (with_request m a (λ r. new_request owner) s)

  abbrev pub optional_get : Option ℕ → Host m → Host m
  optional_get none s = s
  optional_get (some a) s = mapping_get m a s

  -- The answer to a process that a request was submitted for. If the process cannot be told its
  -- command id, the file loses the request.
  unfoldable pub submit_answer : ℕ → ℕ → Bool → Host m → Host m × Code
  submit_answer f a copied_out s =
      if copied_out
      then (s, ok)
      else let r = s.request_at a in
        let s1 =
          with_file m f
            (λ file. record file {
              requests = xa_erase file.requests r.command_id;
              completed_requests =
                  if r.done then file.completed_requests - 1 else file.completed_requests;
            })
            s in
        (request_put m a s1, efault)

  unfoldable pub submit_outcome : ℕ → ℕ → Bool → Host m × Code → Host m × Code
  unfolding submit_answer
  submit_outcome f a copied_out (s, ok) = submit_answer f a copied_out s
  submit_outcome f a copied_out (s, failed) = (request_put m a s, failed)

  -- A submission with its buffers found: the request at `a`, if there is memory for it, holds them.
  -- The lookup took a reference on each, which is given back without it.
  unfoldable pub submit_request :
      (ℕ → Bool) → (ℕ → Bool) → ℕ → ℕ → Bool → Bool → IocSubmit → Targets → Host m → Host m × Code
  unfolding request_alloc submit_outcome
  submit_request owner_full full f a memory copied_out i t s =
      let source = mapping_of t.source in
      let destination = mapping_of t.destination in
      if not memory
      then (s, enomem)
      else let s1 = request_alloc (some f) a (optional_get destination (optional_get source s)) in
        let s2 =
          with_request m a (λ r. record r { source = source; destination = destination }) s1 in
        submit_outcome f a copied_out (submit m owner_full full a (descriptor i t) s2)

  unfoldable pub ioctl_submit :
      (ℕ → Bool) → (ℕ → Bool) → ℕ → ℕ → Bool → Bool → Option IocSubmit → Host m → Host m × Code
  unfolding submit_request
  ioctl_submit owner_full full f a memory copied_out none s = (s, efault)
  ioctl_submit owner_full full f a memory copied_out (some i) s =
      if not (submit_header_ok i) then (s, einval) else elim (wanted i) [
        | none ↦ (s, einval)
        | some w ↦
            if (s.file_at f).closing
            then (s, enodev)
            else elim (find_targets s.mapping_at (s.file_at f).mappings i w) [
              | inl failed ↦ (s, failed)
              | inr t ↦ submit_request owner_full full f a memory copied_out i t s
            ]
      ]

  -- The request is reaped, unless another caller was first.
  unfoldable pub reap : ℕ → ℕ → Bool → IocWait → Host m → Host m × (Code ⊎ IocWait)
  reap f a copied_out o s = elim (xa_load (s.file_at f).requests o.command_id) [
    | none ↦ (s, inl ealready)
    | some b ↦
        if b != a
        then (s, inl ealready)
        else if not copied_out
        then (s, inl efault)
        else let s1 =
            with_file m f
              (λ file. record file {
                requests = xa_erase file.requests o.command_id;
                completed_requests = file.completed_requests - 1;
              })
              s in
          (request_put m a s1, inr (wait_output o (s.request_at a)))
  ]

  -- `wait` is the sleep on a request, which ends with it done, late or with a signal.
  unfoldable pub wait_request :
      (ℕ → Host m → Host m × Waited) → ℕ → ℕ → Bool → IocWait → Host m → Host m × (Code ⊎ IocWait)
  unfolding reap
  wait_request wait f a copied_out o s =
      if o.timeout_ms == 0
      then (if (s.request_at a).done then reap f a copied_out o s else (s, inl eagain))
      else let (s1, outcome) = wait a s in
        elim outcome [
          | completed ↦ reap f a copied_out o s1
          | expired ↦ (s1, inl etimedout)
          | signalled ↦ (s1, inl interrupted)
        ]

  unfoldable pub ioctl_wait :
      (ℕ → Host m → Host m × Waited)
      → ℕ
      → Bool
      → Option IocWait
      → Host m
      → Host m × (Code ⊎ IocWait)
  unfolding wait_request
  ioctl_wait wait f copied_out none s = (s, inl efault)
  ioctl_wait wait f copied_out (some o) s =
      if not (wait_header_ok o)
      then (s, inl einval)
      else elim (xa_load (s.file_at f).requests o.command_id) [
        | none ↦ (s, inl enoent)
        | some a ↦
            let (s1, answer) = wait_request wait f a copied_out o (request_get m a s) in
            (request_put m a s1, answer)
      ]
