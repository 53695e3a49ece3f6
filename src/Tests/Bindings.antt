-- ===== src/Tests/Bindings.antt =====
-- A probe and a removal of the driver, and a buffer of a process (kernel/vams_pci.c).
use virtual_accelerator_mana.Base.{
  ℕ, ◌+◌, ◌*◌, ◌^◌, ◌≡◌, refl, true, false, if◌then◌else◌, ◌==◌, [], ◌∷◌, some, arith,
}
use virtual_accelerator_mana.Abi.{op_mem_copy, IsSubmission}
use virtual_accelerator_mana.Zephyr.Model.{memory}
use virtual_accelerator_mana.Host.Uapi.{
  ok, IocBufferRegister, IocSubmit, IsIocSubmit, buffer_read, buffer_write,
}
use virtual_accelerator_mana.Host.Registers.{
  reg_device_id, reg_hw_if_version, reg_desc_version, reg_capabilities, reg_device_status,
  reg_sq_status, reg_cq_status, device_id_value, hw_if_major_supported, desc_version_supported,
  cap_dma, cap_msix, status_ready, status_queues_ready, queue_status_enabled, bar0_size,
}
use virtual_accelerator_mana.Host.State.{Xarray, Host, Mapping, xa_load}
use virtual_accelerator_mana.Host.Access.{
  Targets, Wanted, locate, overlap, mapping_lookup, submit_header_ok, wanted, find_targets,
}
use virtual_accelerator_mana.Host.Access.Lookup.{IsLocated, mapping_lookup-IsLocated}
use virtual_accelerator_mana.Host.Access.Accepted.{submitted, Answered, find_targets-Answered}
use virtual_accelerator_mana.Host.Bound.{Bound}
use virtual_accelerator_mana.Host.Acquire.{Answers}
use virtual_accelerator_mana.Host.Probe.{probe, remove}
use virtual_accelerator_mana.Host.Labels.{nothing, whole, Probed}
use virtual_accelerator_mana.Host.Unwind.{probe-Probed}
use virtual_accelerator_mana.Host.Removal.{left_over, put_files, remove_lem}
use virtual_accelerator_mana.Host.Buffers.{PinAnswers, Ledger, ioctl_buffer_register}
use virtual_accelerator_mana.Host.Pinned.{Registered, ioctl_buffer_register-Registered}
use virtual_accelerator_mana.Tests.Hosts.{test_host, test_host-IsHost, test_mapping}

abbrev answers : Answers memory
answers = record {
  memory = true;
  enable = ok;
  bar0_memory = true;
  bar0_length = bar0_size;
  region = ok;
  iomap = true;
  dma_mask_64 = ok;
  dma_mask_32 = ok;
  sq = some 0x1000;
  cq = some 0x2000;
  vectors = ok;
  vector_count = 2;
  cq_irq = ok;
  async_irq = ok;
  instance_id = ok;
  misc_name = true;
  misc = ok;
  fail_step = 8;
  irq_selftest = λ s. (s, ok);
  nop_selftest = λ s. (s, ok);
  poll_selftest = λ s. (s, ok);
}

-- An endpoint that passes the checks of the probe.
abbrev endpoint : ℕ → ℕ
endpoint a =
    if a == reg_device_id
    then device_id_value
    else if a == reg_hw_if_version
    then hw_if_major_supported * 2 ^ 16
    else if a == reg_desc_version
    then desc_version_supported
    else if a == reg_capabilities
    then cap_dma + cap_msix
    else if a == reg_device_status
    then status_ready + status_queues_ready
    else if a == reg_sq_status
    then queue_status_enabled
    else if a == reg_cq_status
    then queue_status_enabled
    else 0

abbrev new_host : Host memory
new_host = record test_host {
  bus = endpoint;
  requests = [];
  pending_requests = 0;
  queues_ready = false;
}

abbrev idle_driver : Bound memory
idle_driver = record { host = test_host; held = nothing; refs = 0; faults = 0 }

probe-Probed_example : Probed memory 0 (probe memory answers new_host idle_driver)
probe-Probed_example = probe-Probed memory answers new_host idle_driver refl

abbrev bound_driver : Bound memory
bound_driver = record { host = test_host; held = whole true; refs = 3; faults = 0 }

remove_lem_example :
    let t = put_files memory 1 (remove memory bound_driver) in
    (t.held ≡ (if 1 == 0 then nothing else left_over))
    × (t.faults ≡ bound_driver.faults)
    × ((remove memory bound_driver).host.requests ≡ [])
remove_lem_example = remove_lem memory bound_driver true 1 1 refl refl test_host-IsHost

abbrev buffer_input : IocBufferRegister
buffer_input = record {
  size = 40;
  version = 1;
  flags = 3;
  handle = 0;
  user_address = 0x7000_0800;
  length = 8192;
  reserved = 0;
}

abbrev pin_answers : PinAnswers
pin_answers = record {
  accessible = true;
  memory = true;
  page_array = true;
  pinned = ok;
  pinned_count = 3;
  table = ok;
  mapped = 1;
  dma_length = 8192;
  dma_address = 0x20_0000;
  handle_status = ok;
  handle = 2;
  copied_out = true;
  address = 41;
}

abbrev one_mapping : Ledger
one_mapping = record { objects = 1; page_arrays = 1; pinned = 2; tables = 1; maps = 1 }

ioctl_buffer_register-Registered_example :
    Registered memory pin_answers 7 buffer_input
      (test_host, one_mapping)
      (ioctl_buffer_register memory pin_answers 7 (some buffer_input) (test_host, one_mapping))
ioctl_buffer_register-Registered_example =
    ioctl_buffer_register-Registered memory pin_answers 7 buffer_input test_host one_mapping

abbrev test_mappings : ℕ → Mapping
test_mappings a = test_mapping

abbrev handles : Xarray
handles = (1, 40) ∷ []

mapping_lookup-IsLocated_example :
    IsLocated test_mappings handles 1 64 128 buffer_read
      (record { mapping = 40; dma_address = 0x10_0040 })
unfolding mapping_lookup xa_load locate
mapping_lookup-IsLocated_example =
    mapping_lookup-IsLocated test_mappings handles 1 64 128 buffer_read
      (record { mapping = 40; dma_address = 0x10_0040 }) refl

abbrev copy_input : IocSubmit
copy_input = record {
  size = 64;
  version = 1;
  opcode = op_mem_copy;
  flags = 0;
  source_handle = 1;
  destination_handle = 1;
  length = 256;
  timeout_ms = 100;
  source_offset = 0;
  destination_offset = 4096;
  user_cookie = 9;
  expected_crc = 0;
  command_id = 0;
}

abbrev copy_wanted : Wanted
copy_wanted = record {
  source_access = buffer_read;
  destination_access = buffer_write;
  source_length = 256;
}

abbrev copy_targets : Targets
copy_targets = record {
  source = some (record { mapping = 40; dma_address = 0x10_0000 });
  destination = some (record { mapping = 40; dma_address = 0x10_1000 });
}

copy_input-IsIocSubmit : IsIocSubmit copy_input
copy_input-IsIocSubmit = omega arith

find_targets-Answered_example :
    IsSubmission (submitted copy_input copy_targets 6) × Answered copy_input copy_targets 6
unfolding submit_header_ok wanted find_targets mapping_lookup xa_load locate overlap
find_targets-Answered_example =
    find_targets-Answered test_mappings handles copy_input copy_wanted copy_targets 6
      copy_input-IsIocSubmit (omega arith) refl refl refl
