-- ===== src/Encoding/Varint.antt =====
-- Bounds on the size of a varint, and of the fields that hold one.
use gossipcache.Common.{
  ℕ, ◌+◌, ◌≡◌, length, zero, suc, ◌*◌, ◌/◌, ◌^◌, ◌≤◌, ◌<◌, Bool-cases, inl, inr, ltb, IsUint, arith,
}
use gossipcache.Encoding.{ProtobufSize, number_field, bytes_field, message_field}
use gossipcache.Pb

-- 128 to the power k + 1.
limit : ℕ → ℕ
limit zero = 128
limit (suc k) = 128 * limit k

module _ (pb : ProtobufSize) where
  open pb use {size_varint, varint_last, varint_more, size_id, id_fields}

  size_varint-limit : (k n : ℕ) → n < limit k → size_varint n ≤ suc k
  unfolding limit
  size_varint-limit zero n h = omega (arith, varint_last n h)
  size_varint-limit (suc k) n h = elim (Bool-cases (ltb n 128)) [
    | inl small ↦ ground (arith, varint_last n)
    | inr large ↦
        let rest = size_varint-limit k (n / 128) (omega (arith, h)) in
        ground (arith, varint_more n, rest)
  ]

  pub size_varint-IsUint : (n : ℕ) → IsUint 64 n → size_varint n ≤ 10
  unfolding limit
  size_varint-IsUint n h = size_varint-limit 9 n (omega (arith, h))

  pub size_varint_uint32 : (n : ℕ) → IsUint 32 n → size_varint n ≤ 5
  unfolding limit
  size_varint_uint32 n h = size_varint-limit 4 n (omega (arith, h))

  -- below 2 ^ 28, as is the size of every message of the control stream
  pub size_varint_message : (n : ℕ) → n < 2 ^ 28 → size_varint n ≤ 4
  unfolding limit
  size_varint_message n h = size_varint-limit 3 n (omega (arith, h))

  -- below 2 ^ 14, as is the length of every key
  pub size_varint_key : (n : ℕ) → n < 2 ^ 14 → size_varint n ≤ 2
  unfolding limit
  size_varint_key n h = size_varint-limit 1 n (omega (arith, h))

  pub number_field_uint64 : (n : ℕ) → IsUint 64 n → number_field size_varint n ≤ 11
  number_field_uint64 n h = ground (arith, size_varint-IsUint n)

  pub number_field_uint32 : (n : ℕ) → IsUint 32 n → number_field size_varint n ≤ 6
  number_field_uint32 n h = ground (arith, size_varint_uint32 n)

  pub bytes_field_bound : (n : ℕ) → n < 2 ^ 14 → bytes_field size_varint n ≤ 3 + n
  bytes_field_bound n h = ground (arith, size_varint_key n)

  pub bytes_field_message : (n : ℕ) → n < 2 ^ 28 → bytes_field size_varint n ≤ 5 + n
  bytes_field_message n h = ground (arith, size_varint_message n)

  pub id_bound : (m : Pb.MutationId) → length m.id ≡ 16 → message_field size_varint (size_id m) ≤ 20
  id_bound m e =
      let size : size_id m ≡ 18 = ground (arith, id_fields m, varint_last 16, e) in
      omega (arith, size, varint_last (size_id m))
