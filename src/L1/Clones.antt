-- ===== src/L1/Clones.antt =====
-- The Clone methods of internal/l1: `GetResult` of hub.go, and `Mutation` of fake_contract.go, the
-- snapshot of a write that a fake hub hands to its commit barrier.
pub mod Independence
use gossipcache.Common.{ℕ, ℤ, List}
use gossipcache.Ownership.{Store, Slice, contents}
use gossipcache.Wire.Options.{WriteOptions}
use gossipcache.Wire.Record.{RecordKind}
use gossipcache.Wire.Status.{Status}
use gossipcache.Wire.Version.{VersionTag}
use gossipcache.Wire.Clones.{copy_bytes_in}
use gossipcache.L1.Hub.{GetResult}

pub record HeldGetResult : Type 0 where
  pub value : Slice
  pub hub_generation : ℕ
  pub version : VersionTag
  pub ttl : ℤ
  pub kind : RecordKind
  pub status : Status

unfoldable pub read_get_result : Store ℕ → HeldGetResult → GetResult
read_get_result s r = record {
  value = contents s r.value;
  hub_generation = r.hub_generation;
  version = r.version;
  ttl = r.ttl;
  kind = r.kind;
  status = r.status;
}

unfoldable pub clone_get_result : Store ℕ → HeldGetResult → Store ℕ × HeldGetResult
unfolding copy_bytes_in
clone_get_result s r =
    let value = copy_bytes_in s r.value in (value.0, record r { value = value.1 })

-- `Op`, a uint8
abbrev pub FakeOp : Type 0
FakeOp = ℕ

abbrev pub op_get : FakeOp
op_get = 0

abbrev pub fake_op_set : FakeOp
fake_op_set = 1

abbrev pub fake_op_delete : FakeOp
fake_op_delete = 2

pub record HeldMutation : Type 0 where
  pub op : FakeOp
  pub key : Slice
  pub value : Slice
  pub ttl : ℤ
  pub options : WriteOptions

-- The mutation as its reader sees it.
pub record Mutation : Type 0 where
  pub op : FakeOp
  pub key : List ℕ
  pub value : List ℕ
  pub ttl : ℤ
  pub options : WriteOptions

unfoldable pub read_mutation : Store ℕ → HeldMutation → Mutation
read_mutation s m = record {
  op = m.op;
  key = contents s m.key;
  value = contents s m.value;
  ttl = m.ttl;
  options = m.options;
}

unfoldable pub clone_mutation : Store ℕ → HeldMutation → Store ℕ × HeldMutation
unfolding copy_bytes_in
clone_mutation s m =
    let key = copy_bytes_in s m.key in
    let value = copy_bytes_in key.0 m.value in (value.0, record m { key = key.1; value = value.1 })
