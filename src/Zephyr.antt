-- ===== src/Zephyr.antt =====
-- What the firmware takes from the Zephyr RTOS and from the machine, as interfaces: status codes,
-- message queues, memory slabs and memory-mapped registers. The laws are those that the kernel's
-- documentation states for `k_msgq` and `k_mem_slab`; the registers have none but where a
-- component asks for them.
pub mod Model
pub mod Words
use virtual_accelerator_mana.Base.{
  ℕ, ◌+◌, ◌-◌, ◌*◌, ◌≤◌, ◌<◌, ◌≡◌, Bool, if◌then◌else◌, ◌==◌, List, [], ◌∷◌, ◌++◌, Option, none,
  some, length, one, count,
}

-- 0 and the negative error numbers that the firmware's functions return.
pub data Status : Type 0 where
  success einval ebusy eagain eacces etimedout eproto enomsg : Status

-- `sys_read32` and `sys_write32`: a read may change the device too.
pub record Mmio : Type 1 where
  pub Device : Type 0
  pub read32 : ℕ → Device → ℕ × Device
  pub write32 : ℕ → ℕ → Device → Device

-- The `count` aligned words from `first` on are memory: a read leaves the device as it was, and a
-- write changes its own word alone.
pub record IsRam (m : Mmio) (first count : ℕ) : Type 0 where
  pub read_keeps : (i : ℕ) (d : m.Device) → i < count → (m.read32 (first + 4 * i) d).1 ≡ d
  pub read_written :
      (i j v : ℕ) (d : m.Device)
      → i < count
      → j < count
      → (m.read32 (first + 4 * j) (m.write32 v (first + 4 * i) d)).0
        ≡ (if i == j then v else (m.read32 (first + 4 * j) d).0)

-- A `k_msgq` of elements of `A`, used without waiting.
pub record Msgq (A : Type 0) : Type 1 where
  pub Queue : Type 0
  pub contents : Queue → List A
  pub depth : Queue → ℕ
  pub put : A → Queue → Queue × Status
  pub get : Queue → Option (A × Queue)
  pub num_used : Queue → ℕ
  pub num_free : Queue → ℕ
  pub bounded : (q : Queue) → length (contents q) ≤ depth q
  pub put_room :
      (a : A) (q : Queue)
      → length (contents q) < depth q
      → (Status.success ≡ (put a q).1)
        × (contents (put a q).0 ≡ contents q ++ a ∷ [])
        × (depth (put a q).0 ≡ depth q)
  pub put_full : (a : A) (q : Queue) → depth q ≤ length (contents q) → put a q ≡ (q, Status.enomsg)
  pub get_empty : (q : Queue) → contents q ≡ [] → get q ≡ none
  pub get_first :
      (a : A) (as' : List A) (q : Queue)
      → contents q ≡ a ∷ as'
      → (r : Queue) × (get q ≡ some (a, r)) × (contents r ≡ as') × (depth r ≡ depth q)
  pub num_used_lem : (q : Queue) → num_used q ≡ length (contents q)
  pub num_free_lem : (q : Queue) → num_free q ≡ depth q - length (contents q)

-- A `k_mem_slab` of blocks that are named by numbers, used without waiting.
pub record Slab : Type 1 where
  pub Pool : Type 0
  pub free_blocks : Pool → List ℕ
  pub alloc : Pool → Option (ℕ × Pool)
  pub release : ℕ → Pool → Pool
  pub num_free : Pool → ℕ
  pub alloc_none : (p : Pool) → free_blocks p ≡ [] → alloc p ≡ none
  pub alloc_some :
      (p : Pool)
      → 0 < length (free_blocks p)
      → (b : ℕ) × (r : Pool) × (alloc p ≡ some (b, r))
        × ((x : ℕ) → count x (free_blocks p) ≡ one x b + count x (free_blocks r))
  pub release_lem :
      (b : ℕ) (p : Pool)
      → count b (free_blocks p) ≡ 0
      → (x : ℕ) → count x (free_blocks (release b p)) ≡ one x b + count x (free_blocks p)
  pub num_free_lem : (p : Pool) → num_free p ≡ length (free_blocks p)
