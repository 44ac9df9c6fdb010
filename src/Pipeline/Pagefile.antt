-- ===== src/Pipeline/Pagefile.antt =====
-- metal_pipeline_storage.cpp: the page files in the DRAM file system that a file system on NVMe needs.
use metal_fs.Base.{ℕ, Option, none, some, List}
use metal_fs.Fs.Types.{no_entry}
use metal_fs.Fs.State.{Databases, Txn, Result, ok, err, fault}
use metal_fs.Fs.Namespace.{Finish, commits, leaks, crashes, resolve_inode, create}
use metal_fs.Fs.FileData.{truncate}
use metal_fs.Fpga.Types.{pagefile_size, MapType, dram_and_nvme}
use metal_fs.Pipeline.Card.{
  no_dram_filesystem, pagefile_not_created, pagefile_not_opened, pagefile_not_resized, Outcome,
  done, throws, ◌>>>◌, or_throw,
}
use metal_fs.Pipeline.FileSource.{pagefile_read_path, pagefile_write_path}

module _ (L : Databases) (block_size now : ℕ) where
  -- The result of `mtl_create`.
  abbrev created_pagefile : Finish (Txn L × ℕ) → Outcome (Txn L × ℕ)
  created_pagefile (commits r) = done r
  created_pagefile (Finish.aborts e) = throws pagefile_not_created
  created_pagefile (leaks e) = throws pagefile_not_created
  created_pagefile crashes = Outcome.aborts

  -- The inode of the page file, which is created where it is missing.
  abbrev opened_pagefile : Txn L → (path : List ℕ) → Result ℕ → Outcome (Txn L × ℕ)
  opened_pagefile t path (ok id) = done (t, id)
  opened_pagefile t path (err no_entry) = created_pagefile (create L t path now 0)
  opened_pagefile t path (err e) = throws pagefile_not_opened
  opened_pagefile t path fault = Outcome.aborts

  -- `createDramPagefile`
  abbrev create_dram_pagefile : Txn L → (path : List ℕ) → Outcome (Txn L)
  create_dram_pagefile t path = opened_pagefile t path (resolve_inode L t path) >>> λ (t', id).
      or_throw pagefile_not_resized (truncate L block_size t' id pagefile_size)

  -- The end of the constructor, for the map type and the DRAM file system.
  abbrev create_pagefiles : MapType → Option (Txn L) → Outcome (Option (Txn L))
  create_pagefiles dram_and_nvme none = throws no_dram_filesystem
  create_pagefiles dram_and_nvme (some t) = create_dram_pagefile t pagefile_read_path >>> λ t1.
      create_dram_pagefile t1 pagefile_write_path >>> λ t2. done (some t2)
  create_pagefiles _ dram = done dram
