-- ===== src/Xiter/Chunks.antt =====
-- Chunk of the iterator over a list.
use at.Prelude.{
  ℕ, suc, ◌≤◌, ◌<◌, Bool, true, false, Option, none, some, List, [], ◌∷◌, ◌++◌, ◌≡◌, refl, subst,
  ap, ◌∙◌, inl, inr, Bool-cases, if◌then◌else◌, length, length-append, eqb, ltb, arith,
  append_assoc,
}
use at.Prelude.Result.{ok}
use at.Xiter.{Seq, ChunkState, batch_items, after_yield, chunk_body, chunk_end, chunk_seq, chunk}
use at.Xiter.Lists.{resume, run, IsSeqOf}

ltb-suc : (n : ℕ) → ltb 0 (suc n) ≡ true
ltb-suc n = ground arith

module _ {E : Type 0} where
  -- The chunks of `xs` after the unfinished batch `b`.
  abbrev pub chunks : ℕ → List E → List E → List (List E)
  chunks n b [] = if ltb 0 (length b) then b ∷ [] else []
  chunks n b (x ∷ xs) =
      let full = chunks n [] xs in
      let longer = chunks n (b ++ (x ∷ [])) xs in
      if eqb (length (b ++ (x ∷ []))) n then (b ++ (x ∷ [])) ∷ full else longer

  chunk_if :
      {S : Type 0} (full : Bool) (c : List E) (yield : List E → S → Bool × S) (s : S)
      (k : ChunkState E S → ChunkState E S) (cs ds : List (List E))
      → ((t : S)
          → chunk_end yield (k (record { batch = none; returned = false; inner = t }))
            ≡ run yield cs t)
      → (chunk_end yield (k (record { batch = some c; returned = false; inner = s }))
          ≡ run yield ds s)
      → chunk_end yield (
          resume
            (if full
              then after_yield c (yield c s)
              else (true, record { batch = some c; returned = false; inner = s }))
            k)
        ≡ run yield (if full then c ∷ cs else ds) s
  unfolding after_yield chunk_end
  chunk_if {S = S} true c yield s k cs ds hf hn = go (yield c s)
    where
      go : (r : Bool × S) → chunk_end yield (resume (after_yield c r) k) ≡ resume r (run yield cs)
      go (true, t) = hf t
      go (false, t) = refl
  chunk_if false c yield s k cs ds hf hn = hn

  chunk_end-none :
      {S : Type 0} (b : Bool) (c : List E) (yield : List E → S → Bool × S) (s : S)
      → (if b then (yield c s).1 else s) ≡ run yield (if b then c ∷ [] else []) s
  chunk_end-none {S = S} true c yield s = go (yield c s)
    where
      go : (r : Bool × S) → r.1 ≡ resume r (λ t. t)
      go (true, t) = refl
      go (false, t) = refl
  chunk_end-none false c yield s = refl

  run-chunk :
      {S : Type 0} (n : ℕ) (yield : List E → S → Bool × S) (xs : List E) (ob : Option (List E))
      (s : S)
      → chunk_end yield
          (run (chunk_body n yield) xs (record { batch = ob; returned = false; inner = s }))
        ≡ run yield (chunks n (batch_items ob) xs) s
  unfolding chunk_end chunk_body batch_items
  run-chunk n yield [] ob s = chunk_end-none _ (batch_items ob) yield s
  run-chunk n yield (x ∷ xs) ob s =
      chunk_if _ (batch_items ob ++ (x ∷ [])) yield s (run (chunk_body n yield) xs) _ _
        (run-chunk n yield xs none) (run-chunk n yield xs (some (batch_items ob ++ (x ∷ []))) s)

  -- Chunks of `n` values, the last of them of one to `n`.
  pub data IsChunked (n : ℕ) : List (List E) → Type 0 where
    no_chunk : IsChunked n []
    last_chunk : {c : List E} → 1 ≤ length c → length c ≤ n → IsChunked n (c ∷ [])
    full_chunk :
        {c : List E} {cs : List (List E)} → length c ≡ n → IsChunked n cs → IsChunked n (c ∷ cs)

  abbrev pub concat : List (List E) → List E
  concat [] = []
  concat (c ∷ cs) = c ++ concat cs

  concat-chunks : (n : ℕ) (b xs : List E) → concat (chunks n b xs) ≡ b ++ xs
  concat-chunks n [] [] = refl
  concat-chunks n (b ∷ bs) [] = rw (ltb-suc (length bs))
  concat-chunks n b (x ∷ xs) = elim (Bool-cases (eqb (length (b ++ (x ∷ []))) n)) [
    | inl h ↦ rw (h, concat-chunks n [] xs, append_assoc b (x ∷ []) xs)
    | inr h ↦ rw (h, concat-chunks n (b ++ (x ∷ [])) xs, append_assoc b (x ∷ []) xs)
  ]

  chunks-IsChunked : (n : ℕ) (b xs : List E) → length b < n → IsChunked n (chunks n b xs)
  chunks-IsChunked n [] [] h = no_chunk
  chunks-IsChunked n (b ∷ bs) [] h =
      subst (IsChunked n) (rw (ltb-suc (length bs)))
        (last_chunk {c = b ∷ bs} (omega arith) (omega (arith, h)))
  chunks-IsChunked n b (x ∷ xs) h = elim (Bool-cases (eqb (length (b ++ (x ∷ []))) n)) [
    | inl e ↦ subst (IsChunked n) (rw e) (
        full_chunk {c = b ++ (x ∷ [])} {cs = chunks n [] xs} (ground arith)
          (chunks-IsChunked n [] xs (omega (arith, h))))
    | inr e ↦
        subst (IsChunked n) (rw e)
          (chunks-IsChunked n (b ++ (x ∷ [])) xs (ground (arith, length-append b (x ∷ []))))
  ]

  -- With n at least 1, Chunk does not panic, and over the values of `xs` it yields, until its
  -- `yield` stops it, chunks that put together are `xs`, each of `n` values but the last, which
  -- has one to `n`.
  pub chunk_lem :
      (seq : Seq E) (n : ℕ) (xs : List E)
      → 1 ≤ n
      → IsSeqOf xs seq
      → (cs : List (List E)) × (chunk seq n ≡ ok (chunk_seq seq n))
        × IsSeqOf cs (chunk_seq seq n)
        × (concat cs ≡ xs)
        × IsChunked n cs
  unfolding chunk chunk_seq chunk_body batch_items
  chunk_lem seq n xs h hs = (
    chunks n [] xs,
    ground arith,
    (λ S yield s. ap (chunk_end yield) (hs _ _ _) ∙ run-chunk n yield xs none s),
    concat-chunks n [] xs,
    chunks-IsChunked n [] xs (omega arith),
  )
