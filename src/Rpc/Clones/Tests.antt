-- ===== src/Rpc/Clones/Tests.antt =====
-- A caller that writes to its key after the fingerprint of its request was taken.
use gossipcache.Common.{ℕ, ◌≡◌, none, refl, codes, [], ◌∷◌, arith}
use gossipcache.Ownership.{Store, view, write, done, contents, append_nil, append_elements}
use gossipcache.Wire.Options.{write_fast, confirm_invalidate_applied}
use gossipcache.Wire.Clones.{copy_bytes_in}
use gossipcache.Rpc.Mutation.{op_set, MutationRequest}
use gossipcache.Rpc.Dedup.{fingerprint, check_match}
use gossipcache.Rpc.Clones.{
  HeldMutationRequest, read_mutation_request, fingerprint_in, read_fingerprint,
}
use gossipcache.Rpc.Clones.Independence.{check_match-fingerprint_in_iff}

abbrev caller : Store ℕ
caller = codes "key" ∷ codes "value" ∷ []

abbrev held : HeldMutationRequest
held = record {
  op = op_set;
  key = view 0 0 3;
  value = view 1 0 5;
  ttl_millis = 1500;
  mutation_id = 0 ∷ 0 ∷ 0 ∷ 0 ∷ 0 ∷ 0 ∷ 0 ∷ 1 ∷ 0 ∷ 0 ∷ 0 ∷ 0 ∷ 0 ∷ 0 ∷ 0 ∷ 1 ∷ [];
  mode = write_fast;
  w = 2;
  confirm = confirm_invalidate_applied;
  timeout = 250;
  hub_generation = 4;
}

abbrev caller_written : Store ℕ
caller_written = codes "Key" ∷ codes "Value" ∷ codes "key" ∷ codes "value" ∷ []

abbrev retried : MutationRequest
retried = record (read_mutation_request caller held) { timeout = 900 }

check_match-fingerprint_in_iff_example :
    check_match
      (read_fingerprint caller_written (fingerprint_in caller held).1)
      (fingerprint retried)
    ≡ none
unfolding fingerprint_in read_mutation_request copy_bytes_in append_nil append_elements contents
check_match-fingerprint_in_iff_example =
    (check_match-fingerprint_in_iff caller held caller_written retried (omega arith)
        (write 0 0 75 (omega arith) (write 1 0 86 (omega arith) done))).1
      refl
