-- ===== src/Wire/Clones.antt =====
-- The Clone methods of the requests of internal/wire/types.go. A `Held` struct is the Go struct,
-- with slices of a store of byte arrays; what its reader sees is the struct of the same name.
pub mod Independence
use gossipcache.Common.{ℕ, List, [], ◌∷◌, Option, none, some}
use gossipcache.Ownership.{Store, Slice, contents, append_nil}
use gossipcache.Wire.Version.{VersionTag}
use gossipcache.Wire.MutationId.{MutationId}
use gossipcache.Wire.Options.{WriteOptions}
use gossipcache.Wire.Requests.{GetRequest, SetRequest, DeleteRequest}

-- `CopyBytes`
unfoldable pub copy_bytes_in : Store ℕ → Slice → Store ℕ × Slice
copy_bytes_in s b = append_nil s b

pub record HeldSetRequest : Type 0 where
  pub key : Slice
  pub value : Slice
  pub ttl_millis : ℕ
  pub mutation_id : MutationId
  pub options : WriteOptions

unfoldable pub read_set_request : Store ℕ → HeldSetRequest → SetRequest
read_set_request s r = record {
  key = contents s r.key;
  value = contents s r.value;
  ttl_millis = r.ttl_millis;
  mutation_id = r.mutation_id;
  options = r.options;
}

unfoldable pub clone_set_request : Store ℕ → HeldSetRequest → Store ℕ × HeldSetRequest
unfolding copy_bytes_in
clone_set_request s r =
    let key = copy_bytes_in s r.key in
    let value = copy_bytes_in key.0 r.value in (value.0, record r { key = key.1; value = value.1 })

pub record HeldDeleteRequest : Type 0 where
  pub key : Slice
  pub mutation_id : MutationId
  pub options : WriteOptions

unfoldable pub read_delete_request : Store ℕ → HeldDeleteRequest → DeleteRequest
read_delete_request s r = record {
  key = contents s r.key;
  mutation_id = r.mutation_id;
  options = r.options;
}

unfoldable pub clone_delete_request : Store ℕ → HeldDeleteRequest → Store ℕ × HeldDeleteRequest
unfolding copy_bytes_in
clone_delete_request s r = let key = copy_bytes_in s r.key in (key.0, record r { key = key.1 })

-- Byte arrays, and the variables that a `*VersionTag` points to: nil is no pointer, else a view of
-- an array of one cell.
pub record Memory : Type 0 where
  pub bytes : Store ℕ
  pub tags : Store VersionTag

-- What a pointer leads to, of the contents of its view, and the cell of a new pointer to a value.
unfoldable pub pointee : {A : Type 0} → List A → Option A
pointee [] = none
pointee (v ∷ vs) = some v

unfoldable pub cell : {A : Type 0} → Option A → List A
cell none = []
cell (some v) = v ∷ []

pub record HeldGetRequest : Type 0 where
  pub key : Slice
  pub min_version : Slice

unfoldable pub read_get_request : Memory → HeldGetRequest → GetRequest
unfolding pointee
read_get_request m r = record {
  key = contents m.bytes r.key;
  min_version = pointee (contents m.tags r.min_version);
}

-- `if r.MinVersion != nil { version := *r.MinVersion; … &version }` makes a new cell of the
-- pointee, and leaves nil as it is.
unfoldable pub clone_get_request : Memory → HeldGetRequest → Memory × HeldGetRequest
unfolding copy_bytes_in
clone_get_request m r =
    let key = copy_bytes_in m.bytes r.key in
    let version = append_nil m.tags r.min_version in
    (record { bytes = key.0; tags = version.0 }, record { key = key.1; min_version = version.1 })
