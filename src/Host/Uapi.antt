-- ===== src/Host/Uapi.antt =====
-- kernel/include/uapi/linux/vams.h: what a process passes to the driver, and the codes that the
-- driver answers with.
use virtual_accelerator_mana.Base.{ℕ, ◌^◌, ◌<◌, Bool, true, false}

abbrev pub uapi_version : ℕ
uapi_version = 1

abbrev pub buffer_read : ℕ
buffer_read = 1

abbrev pub buffer_write : ℕ
buffer_write = 2

abbrev pub buffer_flags : ℕ
buffer_flags = 3

abbrev pub submit_verify_crc : ℕ
submit_verify_crc = 1

-- 0 and the error numbers that the driver returns.
pub data Code : Type 0 where
  ok : Code
  enodev eopnotsupp eprotonosupport eio eagain ebusy enospc enomem efault einval enoent : Code
  eacces erange eoverflow etimedout ecanceled ealready enotty interrupted : Code

abbrev pub is_ok : Code → Bool
is_ok ok = true
is_ok _ = false

pub record IocInfo : Type 0 where
  pub size : ℕ
  pub version : ℕ
  pub hw_if_version : ℕ
  pub fw_version : ℕ
  pub capabilities : ℕ
  pub queue_depth : ℕ
  pub reset_generation : ℕ
  pub reserved : ℕ

pub record IocNop : Type 0 where
  pub size : ℕ
  pub version : ℕ
  pub flags : ℕ
  pub timeout_ms : ℕ
  pub user_cookie : ℕ
  pub command_id : ℕ
  pub status : ℕ
  pub error_code : ℕ
  pub bytes_processed : ℕ
  pub result_crc : ℕ
  pub device_timestamp : ℕ
  pub reserved : ℕ

pub record IocBufferRegister : Type 0 where
  pub size : ℕ
  pub version : ℕ
  pub flags : ℕ
  pub handle : ℕ
  pub user_address : ℕ
  pub length : ℕ
  pub reserved : ℕ

pub record IocBufferUnregister : Type 0 where
  pub size : ℕ
  pub version : ℕ
  pub handle : ℕ
  pub flags : ℕ
  pub reserved : ℕ

pub record IocSubmit : Type 0 where
  pub size : ℕ
  pub version : ℕ
  pub opcode : ℕ
  pub flags : ℕ
  pub source_handle : ℕ
  pub destination_handle : ℕ
  pub length : ℕ
  pub timeout_ms : ℕ
  pub source_offset : ℕ
  pub destination_offset : ℕ
  pub user_cookie : ℕ
  pub expected_crc : ℕ
  pub command_id : ℕ

pub record IocWait : Type 0 where
  pub size : ℕ
  pub version : ℕ
  pub command_id : ℕ
  pub flags : ℕ
  pub timeout_ms : ℕ
  pub driver_status : Code
  pub status : ℕ
  pub error_code : ℕ
  pub bytes_processed : ℕ
  pub result_crc : ℕ
  pub reserved0 : ℕ
  pub user_cookie : ℕ
  pub device_timestamp : ℕ
  pub reserved1 : ℕ

-- Every field fits the width that the structure gives it.
pub record IsIocSubmit (i : IocSubmit) : Type 0 where
  pub opcode_fits : i.opcode < 2 ^ 16
  pub flags_fit : i.flags < 2 ^ 16
  pub source_handle_fits : i.source_handle < 2 ^ 32
  pub destination_handle_fits : i.destination_handle < 2 ^ 32
  pub length_fits : i.length < 2 ^ 32
  pub timeout_fits : i.timeout_ms < 2 ^ 32
  pub source_offset_fits : i.source_offset < 2 ^ 64
  pub destination_offset_fits : i.destination_offset < 2 ^ 64
  pub cookie_fits : i.user_cookie < 2 ^ 64
  pub crc_fits : i.expected_crc < 2 ^ 32
