-- ===== src/Repo/Codec.antt =====
-- What the package internal/repo takes from other modules: the CIDs of go-cid, record values, the
-- encoding of records (dagcbor.Marshal), the hash of an encoding (DefaultPrefix.Sum) and the
-- parser of AT-URIs (syntax.ParseATURI). Nothing is assumed of them here.
use at.Prelude.{Bool, not, String}
use at.Prelude.Eq.{Eq, ◌==◌}
use at.Prelude.Result.{Result, ◌>>=◌}
use at.Repo.BlockMap.{Bytes}

pub record Codec (C R : Type 0) : Type 0 where
  pub undef : C
  pub nil : R
  pub parse_uri : String → Result String
  pub marshal : R → Result Bytes
  pub sum : Bytes → Result C

-- c.Defined()
abbrev pub defined : {C R : Type 0} ⦃e : Eq C⦄ → Codec C R → C → Bool
defined codec c = not (c == codec.undef)

-- NewCID of internal/repo/repo.go
unfoldable pub new_cid : {C R : Type 0} → Codec C R → R → Result C
new_cid codec value = do b ← codec.marshal value; codec.sum b
