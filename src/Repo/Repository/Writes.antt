-- ===== src/Repo/Repository/Writes.antt =====
-- What ApplyWrites leaves behind.
use at.Prelude.{
  ◌≡◌, ap, ◌∙◌, sym, subst, Option, some, List, [], ◌∷◌, ◌++◌, map, append-nil, append_assoc, arith,
}
use mathlib.Core.List.{map-append}
use at.Prelude.Result.{Result, ok_injective, ok}
use at.Prelude.Exec.{continue-eq-ok}
use at.Repo.Codec.{Codec}
use at.Repo.Write.{WriteOpAction, create, update, delete, other}
use at.Repo.Commit.{CommitCodec}
use at.Repo.Outside.{Outside}
use at.Repo.Repository.{
  RecordWriteOp, WriteResult, State, get_tree, tree_of, apply_action, apply_loop, apply_writes,
  call, ipld_put,
}

module _ {C R : Type 0} (codec : Codec C R) (commits : CommitCodec C) (out : Outside C) where
  open out use {World, Tree}

  -- The operations that the results name.
  abbrev pub ops_of : List (WriteResult C R) → List (RecordWriteOp R)
  ops_of = map (λ x. x.op)

  op-apply_action :
      (t : Tree) (a : WriteOpAction) (op : RecordWriteOp R) (s : State codec commits out)
      (x : WriteResult C R)
      → (apply_action codec commits out a t op s).0 ≡ ok x
      → x.op ≡ op
  unfolding apply_action
  op-apply_action t create op s x h = ground arith
  op-apply_action t update op s x h = ground arith
  op-apply_action t delete op s x h = ground arith
  op-apply_action t (other n) op s x h = cc

  ops_of-apply_loop :
      (t : Tree) (ops : List (RecordWriteOp R)) (res rs : List (WriteResult C R))
      (s : State codec commits out)
      → (apply_loop codec commits out t ops res s).0 ≡ ok rs
      → ops_of rs ≡ ops_of res ++ ops
  unfolding apply_loop
  ops_of-apply_loop t [] res rs s h = ap ops_of (ok_injective (sym h)) ∙ sym (append-nil _)
  ops_of-apply_loop t (op ∷ ops) res rs s h =
      let m = apply_action codec commits out op.action t op s in
      let (x, hx, h', _) = continue-eq-ok m.0 m.1 _ rs h in
      ops_of-apply_loop t ops (res ++ x ∷ []) rs m.1 h'
      ∙ simp (map-append, append_assoc, op-apply_action t op.action op s x hx)

  -- The results of an ApplyWrites that succeeds name the operations, in order: one result for each.
  pub ops_of-apply_writes :
      (ops : List (RecordWriteOp R)) (rs : List (WriteResult C R)) (s : State codec commits out)
      → (apply_writes codec commits out ops s).0 ≡ ok rs
      → ops_of rs ≡ ops
  unfolding apply_writes get_tree
  ops_of-apply_writes ops rs s h = ops_of-apply_loop _ ops [] rs _ h

  -- The tree that a repository has, or loads.
  abbrev pub entry_tree : State codec commits out → Tree
  entry_tree s = tree_of codec commits out s.0 s.0.mst

  apply_loop-last :
      (t : Tree) (ops : List (RecordWriteOp R)) (op : RecordWriteOp R)
      (res rs : List (WriteResult C R)) (s : State codec commits out)
      → (apply_loop codec commits out t (ops ++ op ∷ []) res s).0 ≡ ok rs
      → (s' : State codec commits out) × (x : WriteResult C R) × (apply_action codec commits out
            op.action t op s'
          ≡ (ok x, (apply_loop codec commits out t (ops ++ op ∷ []) res s).1))
  unfolding apply_loop
  apply_loop-last t [] op res rs s h =
      let m = apply_action codec commits out op.action t op s in
      let (x, hx, h', e) = continue-eq-ok m.0 m.1 _ rs h in
      (
        s,
        x,
        λ i. (
          hx i,
          sym (ap (λ (r : Result (List (WriteResult C R)) × State codec commits out). r.1) e) i,
        ),
      )
  apply_loop-last t (o ∷ ops) op res rs s h =
      let m = apply_action codec commits out o.action t o s in
      let (x, hx, h', e) = continue-eq-ok m.0 m.1 _ rs h in
      let (s', y, ih) = apply_loop-last t ops op (res ++ x ∷ []) rs m.1 h' in
      (
        s',
        y,
        ih ∙ λ i. (
          ok y,
          sym (ap (λ (r : Result (List (WriteResult C R)) × State codec commits out). r.1) e) i,
        ),
      )

  -- `t'` comes of the one operation `op`, with the CID `c`, on the tree `t`, in some world.
  abbrev pub OneStep : WriteOpAction → Tree → RecordWriteOp R → C → Tree → Type 0
  OneStep create t op c t' =
      (w : World) × ((out.tree_add t (out.join op.collection op.record_key) c w).0 ≡ ok t')
  OneStep update t op c t' =
      (w : World) × ((out.tree_update t (out.join op.collection op.record_key) c w).0 ≡ ok t')
  OneStep delete t op c t' =
      (w : World) × ((out.tree_delete t (out.join op.collection op.record_key) w).0 ≡ ok t')
  OneStep (other n) t op c t' = ⊥

  abbrev final_tree : {A : Type 0} → Result A × State codec commits out → Option Tree
  final_tree r = r.1.0.mst

  apply_action-OneStep :
      (t : Tree) (a : WriteOpAction) (op : RecordWriteOp R) (s : State codec commits out)
      (x : WriteResult C R)
      → (apply_action codec commits out a t op s).0 ≡ ok x
      → (t' : Tree) × ((apply_action codec commits out a t op s).1.0.mst ≡ some t')
        × OneStep a t op x.cid t'
  unfolding apply_action
  apply_action-OneStep t create op s x h =
      let key = out.join op.collection op.record_key in
      let m = call codec commits out (ipld_put codec commits out (codec.marshal op.rec)) s in
      let (c, hc, h₁, e₁) = continue-eq-ok m.0 m.1 _ x h in
      let n = call codec commits out (out.tree_add t key c) m.1 in
      let (t', ht, h₂, e₂) = continue-eq-ok n.0 n.1 _ x h₁ in
      let same : c ≡ x.cid = ap (λ (y : WriteResult C R). y.cid) (ok_injective h₂) in
      (
        t',
        ap final_tree (e₁ ∙ e₂),
        (m.1.1, subst (λ d. (out.tree_add t key d m.1.1).0 ≡ ok t') same ht),
      )
  apply_action-OneStep t update op s x h =
      let key = out.join op.collection op.record_key in
      let m = call codec commits out (ipld_put codec commits out (codec.marshal op.rec)) s in
      let (c, hc, h₁, e₁) = continue-eq-ok m.0 m.1 _ x h in
      let n = call codec commits out (out.tree_update t key c) m.1 in
      let (t', ht, h₂, e₂) = continue-eq-ok n.0 n.1 _ x h₁ in
      let same : c ≡ x.cid = ap (λ (y : WriteResult C R). y.cid) (ok_injective h₂) in
      (
        t',
        ap final_tree (e₁ ∙ e₂),
        (m.1.1, subst (λ d. (out.tree_update t key d m.1.1).0 ≡ ok t') same ht),
      )
  apply_action-OneStep t delete op s x h =
      let key = out.join op.collection op.record_key in
      let n = call codec commits out (out.tree_delete t key) s in
      let (t', ht, h₂, e₂) = continue-eq-ok n.0 n.1 _ x h in (t', ap final_tree e₂, (s.1, ht))
  apply_action-OneStep t (other n) op s x h = absurd (cc)

  -- Whatever came before it, the last operation of an ApplyWrites that succeeds acts on the tree
  -- that the repository had before all of them, and the tree that it makes is the one left.
  pub apply_writes-last :
      (ops : List (RecordWriteOp R)) (op : RecordWriteOp R) (rs : List (WriteResult C R))
      (s : State codec commits out)
      → (apply_writes codec commits out (ops ++ op ∷ []) s).0 ≡ ok rs
      → (t' : Tree) × (c : C) × ((apply_writes codec commits out (ops ++ op ∷ []) s).1.0.mst
          ≡ some t')
        × OneStep op.action (entry_tree s) op c t'
  unfolding apply_writes get_tree
  apply_writes-last ops op rs s h =
      let (s', x, last) = apply_loop-last (entry_tree s) ops op [] rs _ h in
      let (t', left, one) =
        apply_action-OneStep (entry_tree s) op.action op s' x (ap (λ r. r.0) last) in
      (t', x.cid, ap final_tree (sym last) ∙ left, one)
