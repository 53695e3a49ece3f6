-- ===== src/Tests/Hosts.antt =====
-- A driver with one request on its way (kernel/vams_pci.c), on a bus of plain memory.
use virtual_accelerator_mana.Base.{
  ℕ, ◌-◌, ◌≡◌, refl, true, false, not, if◌then◌else◌, ◌==◌, [], ◌∷◌, replicate, some, arith,
}
use virtual_accelerator_mana.Abi.{Completion}
use virtual_accelerator_mana.Zephyr.Model.{memory}
use virtual_accelerator_mana.Host.Uapi.{ok, enodev, IocWait}
use virtual_accelerator_mana.Host.Registers.{queue_depth, reg_cq_tail, reg_cq_doorbell, reg_sq_head}
use virtual_accelerator_mana.Host.State.{Host, Request, File, Mapping, xa_load, request_get}
use virtual_accelerator_mana.Host.Requests.{finish_request, cancel_requests}
use virtual_accelerator_mana.Host.Queues.{readl, drain_cq, drain_loop, no_completion, submit}
use virtual_accelerator_mana.Host.Finish.{IsHost}
use virtual_accelerator_mana.Host.Cancel.{
  IsCancelled, cancel_requests-IsCancelled, finish_request-once,
}
use virtual_accelerator_mana.Host.Walk.{distance}
use virtual_accelerator_mana.Host.Drain.{walks, answer_in, drain_cq_lem}
use virtual_accelerator_mana.Host.Taken.{Answered}
use virtual_accelerator_mana.Host.Success.{never, submit_succeeds}
use virtual_accelerator_mana.Host.Submission.{IsFresh, Submitted, submit-Submitted}
use virtual_accelerator_mana.Host.Wait.{new_request, Waited}
use virtual_accelerator_mana.Host.Wait.{completed, expired}
use virtual_accelerator_mana.Host.Acquire.{no_submission}

abbrev first_completion : Completion
first_completion = record no_completion { command_id = 5; bytes_processed = 64 }

abbrev sent_request : Request
sent_request = record (new_request (some 7)) { refs = 2; command_id = 5 }

abbrev pub test_file : File
test_file = record {
  refs = 3;
  mappings = (1, 40) ∷ [];
  requests = (5, 100) ∷ [];
  completed_requests = 0;
  closing = false;
}

abbrev pub test_mapping : Mapping
test_mapping = record {
  refs = 1;
  dma_addr = 0x10_0000;
  length = 8192;
  flags = 3;
  npages = 2;
  user_address = 0x7000_0000;
}

-- The request at 100 was submitted as command 5; the others are new.
abbrev pub test_host : Host memory
test_host = record {
  bus = λ a. if a == reg_cq_tail then 1 else 0;
  hw_if_version = 0;
  fw_version = 0;
  capabilities = 0;
  reset_generation = 0;
  reset_reason = 0;
  sq = replicate queue_depth no_submission;
  cq = first_completion ∷ replicate 15 no_completion;
  sq_dma = 0;
  cq_dma = 0;
  sq_tail = 1;
  cq_head = 0;
  queues_ready = true;
  removing = false;
  requests = (5, 100) ∷ [];
  next_command_id = 5;
  pending_requests = 1;
  poll_scheduled = true;
  reset_scheduled = false;
  cq_interrupts = 0;
  async_interrupts = 0;
  request_at = λ a. if a == 100 then sent_request else new_request (some 7);
  file_at = λ f. test_file;
  mapping_at = λ a. test_mapping;
}

pub test_host-IsHost : IsHost memory test_host
test_host-IsHost = record {
  table = (record { knows = refl; alive = omega arith; waiting = refl }, tt, tt, tt);
  counted = refl;
  tail = omega arith;
  head = omega arith;
  sq_sized = refl;
  cq_sized = refl;
}

test_host-IsFresh : IsFresh memory 200 test_host
test_host-IsFresh = record {
  away = ((λ e. omega (arith, e)), tt);
  alive = omega arith;
  waiting = refl;
}

finish_request-once_example :
    let s' = (finish_request memory first_completion test_host).0 in
    ((finish_request memory first_completion test_host).1 ≡ true)
    × (s'.request_at 100 ≡ record (test_host.request_at 100) {
      result = first_completion;
      driver_status = ok;
      done = true;
      refs = (test_host.request_at 100).refs - 1;
    })
    × IsHost memory s'
    × (finish_request memory first_completion s' ≡ (s', false))
unfolding xa_load
finish_request-once_example =
    finish_request-once memory first_completion first_completion 100 test_host test_host-IsHost refl
      refl

cancel_requests-IsCancelled_example :
    IsCancelled memory enodev false [] test_host.requests test_host
      (cancel_requests memory enodev false test_host)
cancel_requests-IsCancelled_example =
    cancel_requests-IsCancelled memory enodev false test_host test_host-IsHost

drain_cq_lem_example :
    let (tail, s1) = readl memory reg_cq_tail test_host in
    let (s', count) = drain_cq memory test_host in
    IsHost memory s'
    × (count ≡ (if walks memory test_host then distance test_host.cq_head tail else 0))
    × (s'.cq_head ≡ (if walks memory test_host then tail else test_host.cq_head))
    × (s'.bus ≡ (
        if not test_host.queues_ready
        then test_host.bus
        else if count == 0
        then s1.bus
        else memory.write32 tail reg_cq_doorbell s1.bus))
    × ((id a : ℕ)
        → xa_load test_host.requests id ≡ some a
        → Answered memory (answer_in memory test_host id) id a test_host s')
drain_cq_lem_example = drain_cq_lem memory test_host test_host-IsHost

-- The endpoint has taken everything and completed nothing.
abbrev quiet_host : Host memory
quiet_host = record test_host { bus = λ a. 0 }

submit_succeeds_example :
    (submit memory (never memory) (never memory) 200 no_submission quiet_host).1 ≡ ok
unfolding drain_cq drain_loop readl xa_load
submit_succeeds_example =
    submit_succeeds memory 200 0 no_submission quiet_host refl refl (omega arith)
      (λ e. omega (arith, e)) (omega arith) (omega arith) ((λ e. omega (arith, e)), refl, refl)

submit-Submitted_example :
    let (sq_head, t) = readl memory reg_sq_head (drain_cq memory test_host).0 in
    Submitted memory 200 no_submission sq_head test_host t
      (submit memory (λ turn. false) (λ turn. false) 200 no_submission test_host)
submit-Submitted_example =
    submit-Submitted memory (λ turn. false) (λ turn. false) 200 no_submission test_host
      test_host-IsHost test_host-IsFresh

abbrev wait_input : IocWait
wait_input = record {
  size = 64;
  version = 1;
  command_id = 5;
  flags = 0;
  timeout_ms = 0;
  driver_status = ok;
  status = 0;
  error_code = 0;
  bytes_processed = 0;
  result_crc = 0;
  reserved0 = 0;
  user_cookie = 0;
  device_timestamp = 0;
  reserved1 = 0;
}

-- The sleep in which the endpoint completes the request.
abbrev long_wait : ℕ → Host memory → Host memory × Waited
long_wait a s = (
  record s {
    requests = [];
    request_at = λ b. record (s.request_at b) { done = true; result = first_completion };
  },
  completed,
)

abbrev no_wait : ℕ → Host memory → Host memory × Waited
no_wait a s = (s, expired)

abbrev waiting_host : Host memory
waiting_host = request_get memory 100 test_host
