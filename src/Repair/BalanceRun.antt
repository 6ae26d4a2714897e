-- ===== src/Repair/BalanceRun.antt =====
-- The whole of `netchunk_repair_rebalance_chunks` of src/repair.c.
use net_chunk.Base.{ℕ, Option, none, some, ◌≡◌, All, invalid_argument, Result, ok, err}
use net_chunk.Config.Types.{Config}
use net_chunk.Manifest.Types.{FileManifest, chunks_of}
use net_chunk.Ftp.Remote.{Remote}
use net_chunk.Repair.Types.{live}
use net_chunk.Repair.ReplicateLaws.{HasShortId}
use net_chunk.Repair.MoveLaws.{AreMoved}

-- What a rebalance may answer.
abbrev pub IsBalanced : {W : Type 0} → FileManifest → Result (FileManifest × ℕ) × W → Type 0
IsBalanced m (err e, w) = e ≡ invalid_argument
IsBalanced m (ok (m', moves), w) = AreMoved (chunks_of m) (chunks_of m')

-- The ids of the servers fit in a location.
abbrev pub IsShort : Option Config → Type 0
IsShort none = Unit
IsShort (some config) = All HasShortId (live config)
