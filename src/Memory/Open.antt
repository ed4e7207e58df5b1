-- ===== src/Memory/Open.antt =====
-- The blocks of `airspyhf_open_init` and `airspyhf_close` of libairspyhf/src/airspyhf.c, and of
-- `iq_balancer_create` and `iq_balancer_destroy` of libairspyhf/src/iqbalancer.c. What else these
-- functions do is in the modules Discovery and Driver. A write through a null pointer, and `free` of
-- a block that is not live, is `none`.
pub mod Laws
pub mod Close
use airspyhf.Prelude.{
  ℕ, zero, suc, Bool, true, false, Option, none, some, List, [], ◌∷◌, ◌++◌, replicate,
  if◌then◌else◌, not, ◌&&◌,
}
use airspyhf.Prelude.Checked.{◌>>=◌}
use airspyhf.Stream.{raw_buffer_count}
use airspyhf.Memory.{Store, malloc, free, block}
use airspyhf.Memory.Transfers.{
  Buffers, owned, without_buffers, queue_blocks, allocate_transfers, free_queue, free_transfers,
}

-- What libusb and the device answer while a device is opened: whether there is a context, and a device;
-- whether the number of rates was read, and the rates; and the same for the attenuator steps.
pub record Answers : Type 0 where
  pub initialised : Bool
  pub found : Bool
  pub rates_counted : Bool
  pub rates_read : Bool
  pub steps_counted : Bool
  pub steps_read : Bool

-- supported_samplerates, samplerate_architectures and supported_att_steps
pub record Tables : Type 0 where
  pub rates : ℕ
  pub architectures : ℕ
  pub steps : ℕ

-- `struct iq_balancer_t` and its five blocks
pub record BalancerBlocks : Type 0 where
  pub instance_block : ℕ
  pub arrays : List (Option ℕ)

-- The blocks of an open device.
pub record Handle : Type 0 where
  pub device : ℕ
  pub tables : Tables
  pub buffers : Buffers
  pub balancer : BalancerBlocks

abbrev pub tables_blocks : Tables → List ℕ
tables_blocks t = t.rates ∷ t.architectures ∷ t.steps ∷ []

abbrev pub balancer_blocks : BalancerBlocks → List ℕ
balancer_blocks b = queue_blocks b.arrays ++ (b.instance_block ∷ [])

-- the transfers of a device
abbrev pub transfer_count : ℕ
transfer_count = 16

-- the pointers after `calloc` of the device
abbrev pub fresh_buffers : Buffers
fresh_buffers = without_buffers (replicate raw_buffer_count none)

-- a write through a pointer
unfoldable pub written : Option ℕ → Store → Option (ℕ × Store)
written none s = none
written (some p) s = some (p, s)

module _ (gives : ℕ → Bool) where
  -- a block that is written to with no test
  unfoldable pub need : Store → Option (ℕ × Store)
  need s = let (p, t) = malloc gives s in written p t

  -- The tables of rates and architectures, read from the device or by default.
  unfoldable pub rate_tables : (counted read : Bool) → Store → Option (ℕ × ℕ × Store)
  rate_tables counted read s = do
    t ← if counted && not read then (let (p, u) = malloc gives s in free p u) else some s
    (rates, u) ← need t
    (architectures, v) ← need u
    some (rates, architectures, v)

  -- The table of attenuator steps, likewise.
  unfoldable pub step_table : (counted read : Bool) → Store → Option (ℕ × Store)
  step_table counted read s = do
    t ← if counted && not read then (let (p, u) = malloc gives s in free p u) else some s
    need t

  unfoldable pub load_tables : Answers → Store → Option (Tables × Store)
  load_tables answers s = do
    (rates, architectures, t) ← rate_tables answers.rates_counted answers.rates_read s
    (steps, u) ← step_table answers.steps_counted answers.steps_read t
    some (record { rates = rates; architectures = architectures; steps = steps }, u)

  -- blocks that are not tested
  unfoldable pub allocate_arrays : (left : ℕ) → Store → List (Option ℕ) × Store
  allocate_arrays zero s = ([], s)
  allocate_arrays (suc left) s =
      let (p, t) = malloc gives s in let (rest, u) = allocate_arrays left t in (p ∷ rest, u)

  -- `iq_balancer_create`
  unfoldable pub create_balancer : Store → Option (BalancerBlocks × Store)
  create_balancer s = do
    (self, t) ← need s
    let (arrays, u) = allocate_arrays 5 t
    some (record { instance_block = self; arrays = arrays }, u)

  -- `airspyhf_open_init`, once the device was found: `none` in place of the handle if it fails
  unfoldable pub open_found : ℕ → Answers → Store → Option (Option Handle × Store)
  open_found device answers s = do
    (tables, t) ← load_tables answers s
    let (done, buffers, u) = allocate_transfers gives transfer_count fresh_buffers t
    let opened = create_balancer u >>= λ r.
        some (
          some (record { device = device; tables = tables; buffers = buffers; balancer = r.0 }),
          r.1,
        )
    if done then opened else (free (some device) u >>= λ v. some (none, v))

  -- what follows `calloc` of the device
  unfoldable pub open_with : Option ℕ → Answers → Store → Option (Option Handle × Store)
  open_with none answers s = some (none, s)
  open_with (some device) answers s =
      if answers.initialised && answers.found
      then open_found device answers s
      else (free (some device) s >>= λ u. some (none, u))

  -- `airspyhf_open_init`
  unfoldable pub open_init : Answers → Store → Option (Option Handle × Store)
  open_init answers s = let (p, t) = malloc gives s in open_with p answers t

-- `iq_balancer_destroy`
unfoldable pub destroy_balancer : BalancerBlocks → Store → Option Store
destroy_balancer b s = free_queue b.arrays s >>= λ t. free (some b.instance_block) t

-- `airspyhf_close`, for a device that is not null
unfoldable pub close : Handle → Store → Option Store
close h s = do
  (b, t) ← free_transfers h.buffers s
  u ← free (some h.tables.rates) t
  v ← free (some h.tables.architectures) u
  w ← free (some h.tables.steps) v
  x ← destroy_balancer h.balancer w
  free (some h.device) x
