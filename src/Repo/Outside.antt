-- ===== src/Repo/Outside.antt =====
-- What a repository uses of other modules: the block store behind the interface Blockstore, the
-- Merkle search tree of indigo (package mst) and the clock of revisions. Their state is a value
-- `World`, and each call may change it, since a tree writes its nodes to the block store.
use at.Prelude.{String, List}
use at.Prelude.Result.{Result}
use at.Prelude.Exec.{Exec}
use at.Repo.BlockMap.{Bytes}

-- mst.DiffOp: `op` is "add", "del" or "mut" in the versions that the code knows.
pub record DiffOp (C : Type 0) : Type 0 where
  pub op : String
  pub rpath : String
  pub old_cid : C
  pub new_cid : C

pub record Outside (C : Type 0) : Type 1 where
  pub World : Type 0
  pub Tree : Type 0
  -- Blockstore.Get and Blockstore.Put (blocks.NewBlockWithCid comes before a Put)
  pub fetch : C → Exec World Bytes
  pub new_block : Bytes → C → Result (Unit {0})
  pub store : C → Bytes → Exec World (Unit {0})
  -- the optional method SetRev of the block store
  pub set_rev : String → Exec World (Unit {0})
  pub empty_tree : Tree
  pub load_tree : C → Tree
  pub tree_get : Tree → String → Exec World C
  pub tree_add : Tree → String → C → Exec World Tree
  pub tree_update : Tree → String → C → Exec World Tree
  pub tree_delete : Tree → String → Exec World Tree
  pub get_pointer : Tree → Exec World C
  pub diff_trees : C → C → Exec World (List (DiffOp C))
  -- tid.Next().String()
  pub next_tid : Exec World String
  -- path.Join of two parts
  pub join : String → String → String
