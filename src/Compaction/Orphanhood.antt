-- ===== src/Compaction/Orphanhood.antt =====
-- compaction/orphan-recovery.ts: when the proof of an orphan gives a generation.
use whats_app_mcp_server.Base.{ℕ, ◌<◌, ◌≡◌, false, Option, none, some, List, [], Text, ◌+◌, ◌⊎◌}
use whats_app_mcp_server.Domain.Checkpoints.{FileGeneration}
use whats_app_mcp_server.Session.Evidence.{lines_of}
use whats_app_mcp_server.Compaction.Orphan.{Subject}
use whats_app_mcp_server.Compaction.Unclaimed.{HeadedQuiet, text_of}
use whats_app_mcp_server.Compaction.Instants.{Instant}
use whats_app_mcp_server.Compaction.Generation.{FileStat, Inspection, epoch_ns, generation_of}

-- Two generations of the same texts.
pub record SameFile (a b : FileGeneration) : Type 0 where
  pub device : a.device ≡ b.device
  pub inode : a.inode ≡ b.inode
  pub size : a.size ≡ b.size
  pub mtime_ns : a.mtime_ns ≡ b.mtime_ns
  pub ctime_ns : a.ctime_ns ≡ b.ctime_ns

-- The file stood still while it was read, and is still the one under its name.
pub record Still (i : Inspection) : Type 0 where
  pub same_size : i.before.size ≡ i.after.size
  pub same_mtime : i.before.mtime ≡ i.after.mtime
  pub same_ctime : i.before.ctime ≡ i.after.ctime
  pub named_inode : i.after.inode ≡ i.named.inode
  pub named_device : i.after.device ≡ i.named.device
  pub named_size : i.after.size ≡ i.named.size
  pub named_mtime : i.after.mtime ≡ i.named.mtime
  pub named_ctime : i.after.ctime ≡ i.named.ctime

module _ (p : Subject) where
  -- The file's text is lines, the header first and none of the others speaking against the proof.
  abbrev pub Unclaimed : List Text × Text → Type 0
  Unclaimed (xs, end) = HeadedQuiet p xs × (end ≡ [])

  -- The checkpoint's record has the generation, number by number.
  abbrev pub Recorded : Option FileGeneration → FileGeneration → Type 0
  Recorded o g = (h : FileGeneration) × (o ≡ some h) × SameFile g h

  -- The record has none, and both times of the file are before the instant of the preparation.
  abbrev pub Before : Option FileGeneration → FileStat → Type 0
  Before o s =
      (created : ℕ) × (o ≡ none)
      × Instant p.language p.prepared.checkpoint.created_at created
      × (epoch_ns + s.mtime < created)
      × (epoch_ns + s.ctime < created)

  -- An attempt that gives a generation.
  pub record Shown (i : Inspection) (g : FileGeneration) : Type 0 where
    pub still : Still i
    pub no_link : i.named.is_link ≡ false
    pub unclaimed : Unclaimed (lines_of (text_of p i.chunks))
    pub captured : generation_of i.after ≡ some g
    pub before_preparation : Recorded p.prepared.generation g ⊎ Before p.prepared.generation i.after

  -- One of the attempts gives the generation.
  abbrev pub ShownIn : (ℕ → Option Inspection) → ℕ → FileGeneration → Type 0
  ShownIn sees n g = (k : ℕ) × (i : Inspection) × (k < n) × (sees k ≡ some i) × Shown i g
