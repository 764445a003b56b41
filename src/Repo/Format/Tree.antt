-- ===== src/Repo/Format/Tree.antt =====
-- FormatCommit makes each write on the tree that the write before it made.
use at.Prelude.{◌≡◌, refl, sym, ◌∙◌, List, [], ◌∷◌, ◌++◌}
use at.Prelude.Eq.{Eq}
use at.Prelude.Exec.{continue, continue_assoc, ◌>>=◌}
use at.Repo.BlockMap.{BlockMap}
use at.Repo.Codec.{Codec}
use at.Repo.Commit.{CommitCodec}
use at.Repo.Outside.{Outside}
use at.Repo.Repository.{RecordWriteOp}
use at.Repo.Format.{write_action, write_loop}

module _ {C R : Type 0} ⦃e : Eq C⦄ (codec : Codec C R) (commits : CommitCodec C)
    (out : Outside C) where
  -- The loop of FormatCommit over two lists of writes in a row is the loop over the second on the
  -- leaves and the tree that the first left; an error in the first ends it.
  pub write_loop-append :
      (xs ys : List (RecordWriteOp R)) (acc : BlockMap C × out.Tree) (w : out.World)
      → write_loop codec commits out (xs ++ ys) acc w
        ≡ (write_loop codec commits out xs acc >>= λ acc'. write_loop codec commits out ys acc') w
  unfolding write_loop
  write_loop-append [] ys acc w = refl
  write_loop-append (x ∷ xs) ys acc w =
      let m = write_action codec commits out x.action x acc.0 acc.1 w in
      (λ i. continue m.0 m.1 (λ acc' w'. write_loop-append xs ys acc' w' i))
      ∙ sym (continue_assoc m.0 m.1 _ _)
