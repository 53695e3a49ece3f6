-- ===== src/Pipeline/Invariant.antt =====
-- What holds between two steps of the command tasks (main.c), and what they take from the machine.
use virtual_accelerator_mana.Base.{ℕ, ◌+◌, ◌*◌, ◌<◌, ◌^◌, ◌≡◌, ◌∙◌, some, arith}
use virtual_accelerator_mana.Zephyr.{IsRam}
use virtual_accelerator_mana.Zephyr.Words.{Holds-same}
use virtual_accelerator_mana.Management.{reset, retention_base}
use virtual_accelerator_mana.Retained.Layout.{length-words}
use virtual_accelerator_mana.Log.{Log}
use virtual_accelerator_mana.Log.Invariant.{IsLog}
use virtual_accelerator_mana.Pipeline.Store.{Platform, Store, Link, command_pool_size}
use virtual_accelerator_mana.Pipeline.Places.{Place, content}
use virtual_accelerator_mana.Pipeline.Ownership.{IsOwned, IsMove, move-IsOwned}
use virtual_accelerator_mana.Pipeline.Steps.{Task, task_step}

-- The retention memory is memory, also where a reset is requested, and `sys_read32` answers with a
-- 32-bit word.
pub record IsMachine (p : Platform) : Type 0 where
  pub ram : IsRam p.bus (p.base + retention_base) 32
  pub reset_keeps :
      (i : ℕ) (d : p.bus.Device)
      → i < 32
      → (p.bus.read32 (p.base + retention_base + 4 * i) (reset p.bus p.base d)).0
        ≡ (p.bus.read32 (p.base + retention_base + 4 * i) d).0
  pub word : (a : ℕ) (d : p.portal_bus.Device) → (p.portal_bus.read32 a d).0 < 2 ^ 32

module _ (p : Platform) (machine : IsMachine p) where
  -- The queues keep their depths; the running queue has room for one command.
  pub record IsDeep (validation ready running completion : Link p) : Type 0 where
    pub validation_depth : p.links.depth validation.queue ≡ command_pool_size
    pub ready_depth : p.links.depth ready.queue ≡ command_pool_size
    pub running_depth : p.links.depth running.queue ≡ 1
    pub completion_depth : p.links.depth completion.queue ≡ command_pool_size

  abbrev pub DeepStore : Store p → Type 0
  DeepStore s = IsDeep s.validation_queue s.ready_queue s.running_queue s.completion_queue

  -- Another queue of the same depth.
  pub IsDeep-validation :
      {v r u c v' : Link p}
      → IsDeep v r u c
      → p.links.depth v'.queue ≡ p.links.depth v.queue
      → IsDeep v' r u c
  IsDeep-validation d e = record {
    validation_depth = e ∙ d.validation_depth;
    ready_depth = d.ready_depth;
    running_depth = d.running_depth;
    completion_depth = d.completion_depth;
  }

  pub IsDeep-ready :
      {v r u c r' : Link p}
      → IsDeep v r u c
      → p.links.depth r'.queue ≡ p.links.depth r.queue
      → IsDeep v r' u c
  IsDeep-ready d e = record {
    validation_depth = d.validation_depth;
    ready_depth = e ∙ d.ready_depth;
    running_depth = d.running_depth;
    completion_depth = d.completion_depth;
  }

  pub IsDeep-running :
      {v r u c u' : Link p}
      → IsDeep v r u c
      → p.links.depth u'.queue ≡ p.links.depth u.queue
      → IsDeep v r u' c
  IsDeep-running d e = record {
    validation_depth = d.validation_depth;
    ready_depth = d.ready_depth;
    running_depth = e ∙ d.running_depth;
    completion_depth = d.completion_depth;
  }

  pub IsDeep-completion :
      {v r u c c' : Link p}
      → IsDeep v r u c
      → p.links.depth c'.queue ≡ p.links.depth c.queue
      → IsDeep v r u c'
  IsDeep-completion d e = record {
    validation_depth = d.validation_depth;
    ready_depth = d.ready_depth;
    running_depth = d.running_depth;
    completion_depth = e ∙ d.completion_depth;
  }

  pub record IsConsistent (s : Store p) : Type 0 where
    pub owned : IsOwned s.objects (content p s)
    pub is_log : IsLog p.bus p.base p.events machine.ram s.log
    pub generation_fits : s.generation < 2 ^ 32
    pub deep : DeepStore s

  abbrev pub Succeeds : Task → Store p → Type 0
  Succeeds k s = (t : Store p) × (task_step p k s ≡ some t) × IsConsistent t

  pub moved :
      {a : ℕ} {from to : Place} (s t : Store p)
      → IsConsistent s
      → IsMove a from to s.objects t.objects (content p s) (content p t)
      → IsLog p.bus p.base p.events machine.ram t.log
      → t.generation ≡ s.generation
      → DeepStore t
      → IsConsistent t
  moved s t v m l g d = record {
    owned = move-IsOwned v.owned m;
    is_log = l;
    generation_fits = rw g v.generation_fits;
    deep = d;
  }

  -- The portal, the epochs and the count of deferred admissions are no part of it.
  pub aside :
      {portal : p.portal_bus.Device} {epochs : ℕ → ℕ} {defers : ℕ} (s : Store p)
      → IsConsistent s
      → IsConsistent (record s { portal = portal; epochs = epochs; admission_defers = defers })
  aside s v = record {
    owned = v.owned;
    is_log = v.is_log;
    generation_fits = v.generation_fits;
    deep = v.deep;
  }

  -- The request of a reset leaves the log as it is.
  pub reset-IsLog :
      (l : Log p.bus p.events)
      → IsLog p.bus p.base p.events machine.ram l
      → IsLog p.bus p.base p.events machine.ram (record l { device = reset p.bus p.base l.device })
  reset-IsLog l v = record {
    sound = v.sound;
    valid = v.valid;
    held =
        Holds-same p.bus (p.base + retention_base) 32 machine.ram _ 0 l.device _
          (omega (arith, length-words l.retained v.sound.ring.slots))
          (λ i lt. machine.reset_keeps i l.device lt) v.held;
    drops_fit = v.drops_fit;
  }
