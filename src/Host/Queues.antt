-- ===== src/Host/Queues.antt =====
-- kernel/vams_pci.c: the two rings (vams_drain_cq, vams_submit, vams_configure_queues,
-- vams_disable_queues). Locks make each call one step; barriers order accesses that the model has
-- in order anyway.
use virtual_accelerator_mana.Base.{
  ℕ, zero, suc, ◌+◌, ◌-◌, ◌*◌, ◌/◌, ◌%◌, ◌^◌, Bool, true, false, not, if◌then◌else◌, ◌||◌, ltb, leb,
  ◌==◌, ◌!=◌, set, get_or, bit_and,
}
use virtual_accelerator_mana.Abi.{Submission, Completion, desc_version_1, op_nop}
use virtual_accelerator_mana.Zephyr.{Mmio}
use virtual_accelerator_mana.Host.Uapi.{Code, ok, enodev, eopnotsupp, eio, eagain}
use virtual_accelerator_mana.Host.Registers.{
  queue_depth, reg_cq_tail, reg_cq_doorbell, reg_sq_head, reg_sq_doorbell, reg_sq_base_lo,
  reg_sq_base_hi, reg_sq_depth, reg_sq_control, reg_sq_status, reg_cq_base_lo, reg_cq_base_hi,
  reg_cq_depth, reg_cq_control, reg_cq_status, reg_cq_watermark, reg_device_control,
  reg_device_status, cap_cq_watermark, cq_watermark_high, cq_watermark_low, queue_enable,
  queue_reset, queue_status_enabled, device_enable, device_quiesce, status_queues_ready,
}
use virtual_accelerator_mana.Host.State.{Host, with_request}
use virtual_accelerator_mana.Host.Requests.{finish_request, track_loop}

abbrev pub no_completion : Completion
no_completion = record {
  command_id = 0;
  status = 0;
  error_code = 0;
  bytes_processed = 0;
  result_crc = 0;
  user_cookie = 0;
  device_timestamp = 0;
}

-- The next slot of a ring.
abbrev pub next_slot : ℕ → ℕ
next_slot slot = bit_and (slot + 1) (queue_depth - 1)

module _ (m : Mmio) where
  unfoldable pub readl : ℕ → Host m → ℕ × Host m
  readl offset s = let (value, d) = m.read32 offset s.bus in (value, record s { bus = d })

  unfoldable pub writel : ℕ → ℕ → Host m → Host m
  writel offset value s = record s { bus = m.write32 value offset s.bus }

  -- The loop, with `left` turns of fuel: the state and the number of entries taken.
  unfoldable pub drain_loop : ℕ → ℕ → Host m → Host m × ℕ
  drain_loop zero tail s = (s, 0)
  drain_loop (suc left) tail s =
      let taken = record s { cq_head = next_slot s.cq_head } in
      let (s', more) =
        drain_loop left tail (finish_request m (get_or s.cq s.cq_head no_completion) taken).0 in
      if s.cq_head == tail then (s, 0) else (s', more + 1)

  unfoldable pub drain_cq : Host m → Host m × ℕ
  unfolding readl writel
  drain_cq s =
      if not s.queues_ready
      then (s, 0)
      else let (tail, s1) = readl reg_cq_tail s in
        if leb queue_depth tail
        then (s1, 0)
        else let (s2, drained) = drain_loop queue_depth tail s1 in
          (if drained != 0 then writel reg_cq_doorbell s2.cq_head s2 else s2, drained)

  -- The stores of a submission after its request was tracked, under the reset lock.
  unfoldable pub publish_submission : ℕ → Submission → ℕ → Host m → Host m
  unfolding writel
  publish_submission a descriptor next_tail s =
      let id = (s.request_at a).command_id in
      let s1 = record s { sq = set s.sq s.sq_tail (record descriptor { command_id = id }) } in
      let s2 = with_request m a (λ r. record r { reset_generation = s1.reset_generation }) s1 in
      let s3 = record s2 { pending_requests = s2.pending_requests + 1; sq_tail = next_tail } in
      let s4 = writel reg_sq_doorbell s3.sq_tail s3 in
      record s4 { poll_scheduled = s4.poll_scheduled || ltb 0 s4.pending_requests }

  -- The end of a submission, from the outcome of the search for a command id.
  unfoldable pub submit_tracked : ℕ → Submission → ℕ → Host m × Code → Host m × Code
  submit_tracked a descriptor next_tail (s, ok) = (publish_submission a descriptor next_tail s, ok)
  submit_tracked a descriptor next_tail (s, failed) = (s, failed)

  -- A submission once the endpoint's head is read.
  unfoldable pub submit_at : (ℕ → Bool) → (ℕ → Bool) → ℕ → Submission → ℕ → Host m → Host m × Code
  unfolding submit_tracked
  submit_at owner_full full a descriptor sq_head s =
      let next_tail = next_slot s.sq_tail in
      if leb queue_depth sq_head
      then (s, eio)
      else if next_tail == sq_head
      then (s, eagain)
      else submit_tracked a descriptor next_tail
          (track_loop m (queue_depth * 2) 0 owner_full full a s)

  unfoldable pub submit : (ℕ → Bool) → (ℕ → Bool) → ℕ → Submission → Host m → Host m × Code
  unfolding readl
  submit owner_full full a descriptor s =
      if s.removing
      then (s, enodev)
      else if not s.queues_ready
      then (s, eopnotsupp)
      else let (sq_head, s1) = readl reg_sq_head (drain_cq s).0 in
        submit_at owner_full full a descriptor sq_head s1

  unfoldable pub submit_nop : (ℕ → Bool) → (ℕ → Bool) → ℕ → ℕ → ℕ → Host m → Host m × Code
  submit_nop owner_full full a user_cookie timeout_ms s =
      submit owner_full full a
        (record {
          version = desc_version_1;
          opcode = op_nop;
          flags = 0;
          command_id = 0;
          source_dma = 0;
          destination_dma = 0;
          length = 0;
          timeout_ms = timeout_ms;
          user_cookie = user_cookie;
          expected_crc = 0;
          reserved0 = 0;
          reserved1 = 0;
          reserved2 = 0;
        })
        s

  unfoldable pub disable_queues : Host m → Host m
  unfolding readl writel
  disable_queues s =
      if not s.queues_ready
      then s
      else let s1 =
          writel reg_sq_control queue_reset (writel reg_device_control device_quiesce s) in
        record (readl reg_device_status s1).1 { queues_ready = false }

  -- The writes that hand both rings to the endpoint.
  unfoldable pub program_rings : Host m → Host m
  unfolding writel
  program_rings s =
      let s1 =
        writel reg_cq_depth queue_depth (
          writel reg_cq_base_hi (s.cq_dma / 2 ^ 32)
            (writel reg_cq_base_lo (s.cq_dma % 2 ^ 32) s)) in
      let s2 =
        if bit_and s1.capabilities cap_cq_watermark != 0
        then writel reg_cq_watermark (cq_watermark_high * 2 ^ 16 + cq_watermark_low) s1
        else s1 in
      let s3 = writel reg_sq_depth queue_depth (
        writel reg_sq_base_hi (s2.sq_dma / 2 ^ 32)
          (writel reg_sq_base_lo (s2.sq_dma % 2 ^ 32) s2)) in
      record (writel reg_sq_control queue_enable (writel reg_cq_control queue_enable s3)) {
        queues_ready = true;
      }

  unfoldable pub configure_queues : Host m → Host m × Code
  unfolding readl writel disable_queues program_rings
  configure_queues s =
      let (cq_status, s1) = readl reg_cq_status (program_rings s) in
      if bit_and cq_status queue_status_enabled == 0
      then (disable_queues s1, eio)
      else let (sq_status, s2) = readl reg_sq_status s1 in
        if bit_and sq_status queue_status_enabled == 0
        then (disable_queues s2, eio)
        else let (status, s3) =
            readl reg_device_status
              (writel reg_device_control device_enable (record s2 { sq_tail = 0; cq_head = 0 })) in
          if bit_and status status_queues_ready == 0 then (disable_queues s3, eio) else (s3, ok)
