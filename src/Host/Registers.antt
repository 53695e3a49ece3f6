-- ===== src/Host/Registers.antt =====
-- kernel/vams_regs.h: the registers of BAR 0 and their bits.
use virtual_accelerator_mana.Base.{ℕ}

abbrev pub reg_device_id : ℕ
reg_device_id = 0x000

abbrev pub reg_hw_if_version : ℕ
reg_hw_if_version = 0x004

abbrev pub reg_fw_version : ℕ
reg_fw_version = 0x008

abbrev pub reg_desc_version : ℕ
reg_desc_version = 0x00c

abbrev pub reg_capabilities : ℕ
reg_capabilities = 0x010

abbrev pub reg_device_status : ℕ
reg_device_status = 0x01c

abbrev pub reg_device_control : ℕ
reg_device_control = 0x020

abbrev pub reg_error_status : ℕ
reg_error_status = 0x024

abbrev pub reg_reset_generation : ℕ
reg_reset_generation = 0x028

abbrev pub reg_last_fatal : ℕ
reg_last_fatal = 0x02c

abbrev pub reg_sq_base_lo : ℕ
reg_sq_base_lo = 0x100

abbrev pub reg_sq_base_hi : ℕ
reg_sq_base_hi = 0x104

abbrev pub reg_sq_depth : ℕ
reg_sq_depth = 0x108

abbrev pub reg_sq_head : ℕ
reg_sq_head = 0x10c

abbrev pub reg_sq_doorbell : ℕ
reg_sq_doorbell = 0x114

abbrev pub reg_sq_control : ℕ
reg_sq_control = 0x118

abbrev pub reg_sq_status : ℕ
reg_sq_status = 0x11c

abbrev pub reg_cq_base_lo : ℕ
reg_cq_base_lo = 0x200

abbrev pub reg_cq_base_hi : ℕ
reg_cq_base_hi = 0x204

abbrev pub reg_cq_depth : ℕ
reg_cq_depth = 0x208

abbrev pub reg_cq_tail : ℕ
reg_cq_tail = 0x210

abbrev pub reg_cq_doorbell : ℕ
reg_cq_doorbell = 0x214

abbrev pub reg_cq_control : ℕ
reg_cq_control = 0x218

abbrev pub reg_cq_status : ℕ
reg_cq_status = 0x21c

abbrev pub reg_cq_watermark : ℕ
reg_cq_watermark = 0x220

abbrev pub reg_intr_status : ℕ
reg_intr_status = 0x300

abbrev pub reg_intr_mask : ℕ
reg_intr_mask = 0x304

abbrev pub reg_last_reset_reason : ℕ
reg_last_reset_reason = 0x610

abbrev pub device_id_value : ℕ
device_id_value = 0x1100_1b36

abbrev pub hw_if_major_supported : ℕ
hw_if_major_supported = 1

abbrev pub desc_version_supported : ℕ
desc_version_supported = 1

abbrev pub cap_dma : ℕ
cap_dma = 1

abbrev pub cap_msix : ℕ
cap_msix = 2

abbrev pub cap_cq_watermark : ℕ
cap_cq_watermark = 128

abbrev pub cap_known : ℕ
cap_known = 0xff

abbrev pub status_ready : ℕ
status_ready = 1

abbrev pub status_queues_ready : ℕ
status_queues_ready = 4

abbrev pub status_resetting : ℕ
status_resetting = 16

abbrev pub status_fatal : ℕ
status_fatal = 32

abbrev pub intr_cq : ℕ
intr_cq = 1

abbrev pub intr_error : ℕ
intr_error = 2

abbrev pub intr_reset_done : ℕ
intr_reset_done = 8

abbrev pub intr_async : ℕ
intr_async = 14

abbrev pub intr_all : ℕ
intr_all = 15

abbrev pub device_enable : ℕ
device_enable = 1

abbrev pub device_quiesce : ℕ
device_quiesce = 4

abbrev pub reset_reason_host_device : ℕ
reset_reason_host_device = 1

abbrev pub reset_reason_host_queue : ℕ
reset_reason_host_queue = 2

abbrev pub queue_enable : ℕ
queue_enable = 1

abbrev pub queue_reset : ℕ
queue_reset = 2

abbrev pub queue_status_enabled : ℕ
queue_status_enabled = 1

abbrev pub queue_depth : ℕ
queue_depth = 16

abbrev pub cq_watermark_high : ℕ
cq_watermark_high = 12

abbrev pub cq_watermark_low : ℕ
cq_watermark_low = 8

abbrev pub bar0_size : ℕ
bar0_size = 0x1000

abbrev pub msix_vectors : ℕ
msix_vectors = 2
