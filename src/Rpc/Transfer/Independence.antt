-- ===== src/Rpc/Transfer/Independence.antt =====
-- What a conversion of internal/rpc/convert.go returns does not change with the arrays of what was
-- converted.
use gossipcache.Common.{ℕ, ap, ◌∙◌, ◌<◌, ◌^◌, ◌≡◌, refl, none, some, length, arith}
use gossipcache.Rpc.Mutation.{validate_mutation_request}
use gossipcache.Rpc.Convert.Requests.{from_proto_mutation_request_iff}
use gossipcache.Ownership.{
  Slice, nil, view, Store, Writes, done, Old, New, IsHeld, IsOwned, contents, append_nil,
}
use gossipcache.Ownership.Copies.{copies_kept, elements_kept, IsOwned-weaken, first-length}
use gossipcache.Ownership.Frames.{
  append_nil-IsOwned, append_nil-Writes, IsOwned-Writes, Writes-trans, Writes-length,
  append_elements-Writes, contents-Writes-Old,
}
use gossipcache.Wire.Clones.{copy_bytes_in}
use gossipcache.Rpc.Clones.{HeldMutationRequest, read_mutation_request}
use gossipcache.Rpc.Transfer.{
  HeldMessage, read_id, read_message, proto_mutation_request_in, conclude_in,
  from_proto_mutation_request_in,
}
use gossipcache.Rpc.Convert.Enums.{proto_mutation_id}
use gossipcache.Rpc.Convert.ToProto.{proto_mutation_request}
use gossipcache.Rpc.Convert.FromProto.{from_proto_mutation_request}

abbrev first : Store ℕ → HeldMessage → Store ℕ
first s m = (append_nil s m.key).0

abbrev second : Store ℕ → HeldMessage → Store ℕ
second s m = (append_nil (first s m) m.value).0

-- Right behind the conversion.
from_proto_mutation_request_in-read :
    (s : Store ℕ) (m : HeldMessage)
    → IsHeld s m.value
    → (
      read_mutation_request
          (from_proto_mutation_request_in s (some m)).0
          (from_proto_mutation_request_in s (some m)).1,
      (from_proto_mutation_request_in s (some m)).2,
    )
      ≡ from_proto_mutation_request (some (read_message s m))
unfolding from_proto_mutation_request_in read_mutation_request read_message conclude_in
    from_proto_mutation_request copy_bytes_in contents
from_proto_mutation_request_in-read s m h =
    let kept = copies_kept s m.key m.value h done in ground (arith, kept)

from_proto_mutation_request_in-IsOwned :
    (s : Store ℕ) (m : HeldMessage)
    → IsOwned
        (length s)
        (from_proto_mutation_request_in s (some m)).0
        (from_proto_mutation_request_in s (some m)).1.key
      × IsOwned
          (length s)
          (from_proto_mutation_request_in s (some m)).0
          (from_proto_mutation_request_in s (some m)).1.value
unfolding from_proto_mutation_request_in conclude_in copy_bytes_in
from_proto_mutation_request_in-IsOwned s m =
    let key = append_nil-IsOwned s m.key in
    let key' =
      IsOwned-Writes (length s) (append_nil s m.key).1 key
        (append_nil-Writes (New 0) (first s m) m.value) in
    let value = append_nil-IsOwned (first s m) m.value in
    let value' =
      IsOwned-weaken (second s m) (length s) (length (first s m)) (append_nil (first s m) m.value).1
        (first-length s m.key m.value) value in
    ground (arith, key', value')

-- A hub converts a message whose value is in the store. Whatever is later written to the arrays that
-- were there before, such as the buffers of the transport, the request and the error are what the
-- conversion of the message, as it was, gives.
pub from_proto_mutation_request_in-kept :
    (s : Store ℕ) (m : HeldMessage) (u : Store ℕ)
    → IsHeld s m.value
    → Writes (Old (length s)) (from_proto_mutation_request_in s (some m)).0 u
    → (
      read_mutation_request u (from_proto_mutation_request_in s (some m)).1,
      (from_proto_mutation_request_in s (some m)).2,
    )
      ≡ from_proto_mutation_request (some (read_message s m))
from_proto_mutation_request_in-kept s m u h old =
    let owned = from_proto_mutation_request_in-IsOwned s m in
    let out = (from_proto_mutation_request_in s (some m)).1 in
    let same : read_mutation_request u out
        ≡ read_mutation_request (from_proto_mutation_request_in s (some m)).0 out =
      unfold read_mutation_request in
      rw (contents-Writes-Old out.key owned.0 old, contents-Writes-Old out.value owned.1 old)
        refl in
    rw same (from_proto_mutation_request_in-read s m h)

-- A node converts a request whose value is in the store. Whatever is later written to the
-- arrays that were there before, the message stays the conversion of the request as it was.
pub proto_mutation_request_in-kept :
    (s : Store ℕ) (m : HeldMutationRequest) (u : Store ℕ)
    → IsHeld s m.value
    → Writes (Old (length s)) (proto_mutation_request_in s m).0 u
    → read_message u (proto_mutation_request_in s m).1
      ≡ proto_mutation_request (read_mutation_request s m)
unfolding proto_mutation_request_in read_message read_id copy_bytes_in proto_mutation_request
    proto_mutation_id read_mutation_request
proto_mutation_request_in-kept s m u h old =
    let value = (append_nil (append_nil s m.key).0 m.value).0 in
    let later = Writes-trans (append_elements-Writes (Old (length s)) value m.mutation_id) old in
    let kept = copies_kept s m.key m.value h later in
    let id =
      elements_kept (length s) value m.mutation_id
        (omega (
          arith,
          first-length s m.key m.value,
          Writes-length (append_nil-Writes (New 0) (append_nil s m.key).0 m.value),
        ))
        old in
    rw (kept.0, kept.1, id) refl

pub IsOwned-IsHeld : (n : ℕ) (s : Store ℕ) (b : Slice) → IsOwned n s b → IsHeld s b
IsOwned-IsHeld n s nil h = tt
IsOwned-IsHeld n s (view address offset count) h = h.1

proto_mutation_request_in-IsHeld :
    (s : Store ℕ) (m : HeldMutationRequest) (u : Store ℕ)
    → Writes (Old (length s)) (proto_mutation_request_in s m).0 u
    → IsHeld u (proto_mutation_request_in s m).1.value
unfolding proto_mutation_request_in copy_bytes_in
proto_mutation_request_in-IsHeld s m u old =
    let key = (append_nil s m.key).0 in
    let value = append_nil key m.value in
    let later = Writes-trans (append_elements-Writes (Old (length s)) value.0 m.mutation_id) old in
    IsOwned-IsHeld (length key) u value.1
      (IsOwned-Writes (length key) value.1 (append_nil-IsOwned key m.value) later)

-- A node converts a valid request, whose value is in the store, and then the arrays that were there
-- before are written. A hub converts the message, and then the arrays of the message
-- are written. The hub holds the request as it was at first, with no error. `W` and the id have the
-- sizes of their types.
pub from_proto-proto_mutation_request_in :
    (s : Store ℕ) (m : HeldMutationRequest) (u w : Store ℕ)
    → IsHeld s m.value
    → validate_mutation_request (read_mutation_request s m) ≡ none
    → m.w < 2 ^ 16
    → length m.mutation_id ≡ 16
    → Writes (Old (length s)) (proto_mutation_request_in s m).0 u
    → Writes
        (Old (length u))
        (from_proto_mutation_request_in u (some (proto_mutation_request_in s m).1)).0
        w
    → (read_mutation_request w
          (from_proto_mutation_request_in u (some (proto_mutation_request_in s m).1)).1
        ≡ read_mutation_request s m)
      × ((from_proto_mutation_request_in u (some (proto_mutation_request_in s m).1)).2 ≡ none)
from_proto-proto_mutation_request_in s m u w h valid small id sent received =
    let message = (proto_mutation_request_in s m).1 in
    let request = read_mutation_request s m in
    let same =
      from_proto_mutation_request_in-kept u message w (proto_mutation_request_in-IsHeld s m u sent)
        received
      ∙ ap (λ p. from_proto_mutation_request (some p)) (proto_mutation_request_in-kept s m u h sent)
      ∙ (from_proto_mutation_request_iff (some (proto_mutation_request request)) request).1 (
        valid,
        unfold read_mutation_request in small,
        unfold read_mutation_request in id,
        refl,
      ) in
    (ap (λ x. x.0) same, ap (λ x. x.1) same)
