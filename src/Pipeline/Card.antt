-- ===== src/Pipeline/Card.antt =====
-- snap_action.cpp: jobs on the card, and what can go wrong on the host. What the card answers to a
-- job is a parameter: nothing, if it does not start or is unsuccessful, or the size of the output.
use metal_fs.Base.{ℕ, ◌%◌, ◌^◌, ◌≡◌, refl, ◌⊎◌, inl, inr, Option, none, some, List, ◌∷◌}
use metal_fs.Fs.State.{Databases, Txn, Result, ok, err, fault}
use metal_fs.Fpga.Types.{AddressType, host, MapType, unmapped, Address}
use metal_fs.Pipeline.MapJob.{JobStruct}

-- The exceptions that are thrown.
pub data Failure : Type 0 where
  load_extents extents_not_initialized no_dram_filesystem no_pagefile pagefile_extents : Failure
  update_file_length job_unsuccessful one_for_profiling : Failure
  unknown_source unknown_sink no_request : Failure
  not_at_start unknown_operator used_twice unknown_option invalid_option out_of_range : Failure
  bad_arguments help_wanted no_buffer_size cannot_open cannot_read : Failure
  no_input_file invalid_input invalid_output : Failure
  pagefile_not_created pagefile_not_opened pagefile_not_resized : Failure

-- `aborts` where an assertion of the file system fails.
pub data Outcome {ℓ} (A : Type ℓ) : Type ℓ where
  done : A → Outcome A
  throws : Failure → Outcome A
  aborts : Outcome A

infixl 5 ◌>>>◌
abbrev pub ◌>>>◌ {ℓ κ} : {A : Type ℓ} {B : Type κ} → Outcome A → (A → Outcome B) → Outcome B
done a >>> f = f a
throws e >>> f = throws e
aborts >>> f = aborts

-- `if (res != MTL_SUCCESS) throw`
abbrev pub or_throw {ℓ} : {A : Type ℓ} → Failure → Result A → Outcome A
or_throw e (ok a) = done a
or_throw e (err x) = throws e
or_throw e fault = aborts

-- The jobs, with what stands in the memory that they name.
pub data Job : Type 0 where
  map_job : JobStruct → Job
  configure_streams : List ℕ → Job
  configure_operator : List ℕ → Job
  run_operators : (source destination : Address) (enable_mask perfmon_enable : ℕ) → Job

-- `fpga::Address{}`
abbrev pub no_address : Address
no_address = record { addr = 0; size = 0; type = host; map_type = unmapped }

-- What the operations of the host change: the metadata of the file system, that of the DRAM file
-- system if there is one, and the jobs that the card was given, the last one first.
pub record World (L : Databases) : Type 0 where
  pub metadata : Txn L
  pub dram : Option (Txn L)
  pub jobs : List Job

module _ (L : Databases) (card : List Job → Option ℕ) where
  unfoldable pub execute_job : World L → Job → Outcome (World L × ℕ)
  execute_job w job = elim (card (job ∷ w.jobs)) [
    | none ↦ throws job_unsuccessful
    | some size ↦ done (record w { jobs = job ∷ w.jobs }, size)
  ]

-- A `DataSource` or a `DataSink`.
pub record DataPlace : Type 0 where
  pub address : ℕ
  pub size : ℕ
  pub type : AddressType
  pub map_type : MapType

-- `address()`: the size is cast to `uint32_t`.
abbrev pub to_address : DataPlace → Address
to_address d = record {
  addr = d.address;
  size = d.size % 2 ^ 32;
  type = d.type;
  map_type = d.map_type;
}

-- A predicate of the result where there is one.
abbrev pub Holds {ℓ} : {A : Type ℓ} → (A → Type 0) → Outcome A → Type 0
Holds P (done a) = P a
Holds P (throws e) = Unit {0}
Holds P aborts = Unit {0}

pub >>>-Holds {ℓ κ} :
    {A : Type ℓ} {B : Type κ} (P : B → Type 0) (m : Outcome A) (f : A → Outcome B)
    → ((a : A) → m ≡ done a → Holds P (f a))
    → Holds P (m >>> f)
>>>-Holds P (done a) f h = h a refl
>>>-Holds P (throws e) f h = tt
>>>-Holds P aborts f h = tt

pub Outcome-cases {ℓ} :
    {A : Type ℓ} (m : Outcome A)
    → ((a : A) × (m ≡ done a)) ⊎ (((x : Failure) × (m ≡ throws x)) ⊎ (m ≡ aborts))
Outcome-cases (done a) = inl (a, refl)
Outcome-cases (throws x) = inr (inl (x, refl))
Outcome-cases aborts = inr (inr refl)
