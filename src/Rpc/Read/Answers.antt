-- ===== src/Rpc/Read/Answers.antt =====
-- The reads and answers that internal/rpc/types.go accepts, and the node's view of them.
use gossipcache.Common.{ℕ, ◌<◌, ◌≡◌, ◌≢◌, ◌↔◌, none, some, arith}
use gossipcache.Wire.Status.{status_ok}
use gossipcache.Wire.Record.{GetRecordFields}
use gossipcache.Wire.Record.Shape.{IsAnswer, validate_get_record_iff}
use gossipcache.Wire.Requests.{GetRequest as WireGetRequest}
use gossipcache.Wire.Requests.Bounds.{
  IsKey, IsRouted, validate_get_request_iff, validate_get_request-ne-none,
}
use gossipcache.Rpc.Read.{
  GetRequest, GetResponse, validate_get, validate_for_partitions, validate_get_response,
}

pub validate_get_iff :
    (m : GetRequest) → (validate_get m ≡ none) ↔ ((0 < m.hub_generation) × IsKey m.key)
unfolding validate_get
validate_get_iff m = ground arith

-- Once the partition count is known, a read passes exactly when it names a generation, its key has
-- 1 to 4096 bytes, there is a partition, and a minimum version is of the key's partition. The
-- check never panics, not even for a partition count of zero.
pub validate_for_partitions_iff :
    (m : GetRequest) (count : ℕ)
    → (validate_for_partitions m count ≢ none)
      × ((validate_for_partitions m count ≡ some none) ↔ (
          (0 < m.hub_generation) × IsKey m.key × (0 < count) × IsRouted m.key count m.min_version))
unfolding validate_for_partitions
validate_for_partitions_iff m count =
    let inner : WireGetRequest = record { key = m.key; min_version = m.min_version } in
    ground (
      arith,
      validate_get_iff m,
      validate_get_request_iff inner count,
      validate_get_request-ne-none inner count,
    )

abbrev pub fields : GetResponse → GetRecordFields
fields m = record { status = m.status; version = m.version; kind = m.kind; value = m.value }

-- An answer passes exactly when it names a generation, carries what its status allows, and has a
-- TTL of zero unless it is a record.
pub validate_get_response_iff :
    (m : GetResponse)
    → (validate_get_response m ≡ none)
      ↔ ((0 < m.hub_generation) × IsAnswer (fields m) × (m.status ≢ status_ok → m.ttl_millis ≡ 0))
unfolding validate_get_response
validate_get_response_iff m = ground (arith, validate_get_record_iff (fields m))
