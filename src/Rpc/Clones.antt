-- ===== src/Rpc/Clones.antt =====
-- The Clone methods of internal/rpc/types.go and internal/rpc/dedup.go, and `Fingerprint`, over the
-- arrays that the structs hold.
pub mod Independence
mod Tests
use gossipcache.Common.{ℕ}
use gossipcache.Ownership.{Store, Slice, contents, append_nil}
use gossipcache.Wire.MutationId.{MutationId}
use gossipcache.Wire.Options.{WriteMode, ConfirmLevel}
use gossipcache.Wire.Record.{RecordKind}
use gossipcache.Wire.Status.{Status}
use gossipcache.Wire.Version.{VersionTag}
use gossipcache.Wire.Clones.{copy_bytes_in, Memory, pointee}
use gossipcache.Rpc.Mutation.{Op, MutationRequest}
use gossipcache.Rpc.Read.{GetRequest, GetResponse}
use gossipcache.Rpc.Dedup.{MutationFingerprint}

pub record HeldMutationRequest : Type 0 where
  pub op : Op
  pub key : Slice
  pub value : Slice
  pub ttl_millis : ℕ
  pub mutation_id : MutationId
  pub mode : WriteMode
  pub w : ℕ
  pub confirm : ConfirmLevel
  pub timeout : ℕ
  pub hub_generation : ℕ

unfoldable pub read_mutation_request : Store ℕ → HeldMutationRequest → MutationRequest
read_mutation_request s m = record {
  op = m.op;
  key = contents s m.key;
  value = contents s m.value;
  ttl_millis = m.ttl_millis;
  mutation_id = m.mutation_id;
  mode = m.mode;
  w = m.w;
  confirm = m.confirm;
  timeout = m.timeout;
  hub_generation = m.hub_generation;
}

unfoldable pub clone_mutation_request :
    Store ℕ → HeldMutationRequest → Store ℕ × HeldMutationRequest
unfolding copy_bytes_in
clone_mutation_request s m =
    let key = copy_bytes_in s m.key in
    let value = copy_bytes_in key.0 m.value in (value.0, record m { key = key.1; value = value.1 })

pub record HeldFingerprint : Type 0 where
  pub op : Op
  pub key : Slice
  pub value : Slice
  pub ttl_millis : ℕ
  pub mode : WriteMode
  pub w : ℕ
  pub confirm : ConfirmLevel

unfoldable pub read_fingerprint : Store ℕ → HeldFingerprint → MutationFingerprint
read_fingerprint s f = record {
  op = f.op;
  key = contents s f.key;
  value = contents s f.value;
  ttl_millis = f.ttl_millis;
  mode = f.mode;
  w = f.w;
  confirm = f.confirm;
}

-- `Fingerprint`
unfoldable pub fingerprint_in : Store ℕ → HeldMutationRequest → Store ℕ × HeldFingerprint
unfolding copy_bytes_in
fingerprint_in s req =
    let key = copy_bytes_in s req.key in
    let value = copy_bytes_in key.0 req.value in
    (
      value.0,
      record {
        op = req.op;
        key = key.1;
        value = value.1;
        ttl_millis = req.ttl_millis;
        mode = req.mode;
        w = req.w;
        confirm = req.confirm;
      },
    )

-- `MutationFingerprint.Clone`
unfoldable pub clone_fingerprint : Store ℕ → HeldFingerprint → Store ℕ × HeldFingerprint
unfolding copy_bytes_in
clone_fingerprint s f =
    let key = copy_bytes_in s f.key in
    let value = copy_bytes_in key.0 f.value in (value.0, record f { key = key.1; value = value.1 })

pub record HeldGetResponse : Type 0 where
  pub status : Status
  pub hub_generation : ℕ
  pub version : VersionTag
  pub value : Slice
  pub ttl_millis : ℕ
  pub kind : RecordKind

unfoldable pub read_get_response : Store ℕ → HeldGetResponse → GetResponse
read_get_response s m = record {
  status = m.status;
  hub_generation = m.hub_generation;
  version = m.version;
  value = contents s m.value;
  ttl_millis = m.ttl_millis;
  kind = m.kind;
}

unfoldable pub clone_get_response : Store ℕ → HeldGetResponse → Store ℕ × HeldGetResponse
unfolding copy_bytes_in
clone_get_response s m =
    let value = copy_bytes_in s m.value in (value.0, record m { value = value.1 })

pub record HeldGetRequest : Type 0 where
  pub key : Slice
  pub min_version : Slice
  pub hub_generation : ℕ

unfoldable pub read_get_request : Memory → HeldGetRequest → GetRequest
unfolding pointee
read_get_request m r = record {
  key = contents m.bytes r.key;
  min_version = pointee (contents m.tags r.min_version);
  hub_generation = r.hub_generation;
}

-- As in the wire model, a new cell is made of the pointee of a pointer that is not nil.
unfoldable pub clone_get_request : Memory → HeldGetRequest → Memory × HeldGetRequest
unfolding copy_bytes_in
clone_get_request m r =
    let key = copy_bytes_in m.bytes r.key in
    let version = append_nil m.tags r.min_version in
    (
      record { bytes = key.0; tags = version.0 },
      record { key = key.1; min_version = version.1; hub_generation = r.hub_generation },
    )
