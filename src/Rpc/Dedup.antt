-- ===== src/Rpc/Dedup.antt =====
-- internal/rpc/dedup.go: the identity of a mutation and the content that a retry must repeat.
pub mod Matching
use gossipcache.Common.{
  ℕ, ◌*◌, ◌^◌, ℤ, pos, Bool, true, false, ◌==◌, ◌&&◌, not, none, List, [], ◌∷◌,
}
use gossipcache.Errors.{Check, of_wire, of_rpc, fail_if, ◌>>◌, RpcSentinel}
use gossipcache.Errors.{mutation_id_required, mutation_fingerprint_mismatch}
use gossipcache.Wire.MutationId.{MutationId, mutation_id_is_zero}
use gossipcache.Wire.Options.{WriteMode, ConfirmLevel}
use gossipcache.Wire.Requests.{copy_bytes}
use gossipcache.Rpc.Mutation.{Op, MutationRequest}

-- In nanoseconds.
abbrev pub default_dedup_window : ℤ
default_dedup_window = pos (5 * 60 * 10 ^ 9)

pub record DedupKey : Type 0 where
  pub node_id : ℕ
  pub mutation_id : MutationId

unfoldable pub validate_dedup_key : DedupKey → Check
validate_dedup_key k = do
  fail_if (k.node_id == 0) (of_rpc RpcSentinel.invalid_node_id)
  fail_if (mutation_id_is_zero k.mutation_id) (of_wire mutation_id_required)
  none

pub record MutationFingerprint : Type 0 where
  pub op : Op
  pub key : List ℕ
  pub value : List ℕ
  pub ttl_millis : ℕ
  pub mode : WriteMode
  pub w : ℕ
  pub confirm : ConfirmLevel

unfoldable pub fingerprint : MutationRequest → MutationFingerprint
fingerprint req = record {
  op = req.op;
  key = copy_bytes req.key;
  value = copy_bytes req.value;
  ttl_millis = req.ttl_millis;
  mode = req.mode;
  w = req.w;
  confirm = req.confirm;
}

-- `bytes.Equal`
unfoldable pub bytes_equal : List ℕ → List ℕ → Bool
bytes_equal [] [] = true
bytes_equal [] (b ∷ bs) = false
bytes_equal (a ∷ as') [] = false
bytes_equal (a ∷ as') (b ∷ bs) = a == b && bytes_equal as' bs

unfoldable pub fingerprint_equal : MutationFingerprint → MutationFingerprint → Bool
fingerprint_equal f other =
    f.op == other.op
    && f.ttl_millis == other.ttl_millis
    && f.mode == other.mode
    && f.w == other.w
    && f.confirm == other.confirm
    && bytes_equal f.key other.key
    && bytes_equal f.value other.value

unfoldable pub check_match : MutationFingerprint → MutationFingerprint → Check
check_match f other = do
  fail_if (not (fingerprint_equal f other)) (of_rpc mutation_fingerprint_mismatch)
  none
