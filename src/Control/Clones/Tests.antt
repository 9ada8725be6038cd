-- ===== src/Control/Clones/Tests.antt =====
-- A publisher that writes to the key and to the number of an event after the batch was cloned.
use gossipcache.Common.{ℕ, ◌≡◌, codes, [], ◌∷◌, arith}
use gossipcache.Ownership.{Slice, view, write, done, contents, append_nil, append_elements}
use gossipcache.Wire.Record.{record_value}
use gossipcache.Wire.Clones.{copy_bytes_in}
use gossipcache.Control.Clones.{
  HeldEvent, Memory, HeldBatch, read_batch, clone_all_keys, clone_keys, own_key, clone_batch,
}
use gossipcache.Control.Clones.Independence.{clone_batch-independent}

abbrev held_event : ℕ → Slice → HeldEvent
held_event n key = record {
  stream_sequence = n;
  key = key;
  version = record { partition_id = 7; sequence = n };
  kind = record_value;
  mutation_id = 0 ∷ 0 ∷ 0 ∷ 0 ∷ 0 ∷ 0 ∷ 0 ∷ 1 ∷ 0 ∷ 0 ∷ 0 ∷ 0 ∷ 0 ∷ 0 ∷ 0 ∷ 3 ∷ [];
}

abbrev published : HeldBatch
published = record { stream_id = 7; hub_generation = 2; events = view 0 0 2 }

-- Both events have the one key, in one array.
abbrev memory : Memory
memory = record {
  bytes = codes "key" ∷ [];
  events = (held_event 1 (view 0 0 3) ∷ held_event 2 (view 0 0 3) ∷ []) ∷ [];
}

abbrev publisher_written : Memory
publisher_written = record {
  bytes = codes "Key" ∷ codes "key" ∷ codes "key" ∷ [];
  events =
      (held_event 9 (view 0 0 3) ∷ held_event 2 (view 0 0 3) ∷ [])
      ∷ (held_event 1 (view 1 0 3) ∷ held_event 2 (view 2 0 3) ∷ [])
      ∷ [];
}

abbrev clone_written : Memory
clone_written = record {
  bytes = codes "key" ∷ codes "Key" ∷ codes "key" ∷ [];
  events =
      (held_event 1 (view 0 0 3) ∷ held_event 2 (view 0 0 3) ∷ [])
      ∷ (held_event 9 (view 1 0 3) ∷ held_event 2 (view 2 0 3) ∷ [])
      ∷ [];
}

clone_batch-independent_example :
    (read_batch publisher_written (clone_batch memory published).1 ≡ read_batch memory published)
    × (read_batch clone_written published ≡ read_batch memory published)
unfolding clone_batch clone_all_keys clone_keys own_key copy_bytes_in append_nil append_elements
    contents
clone_batch-independent_example =
    clone_batch-independent memory published publisher_written clone_written (omega arith)
      (omega arith) (write 0 0 75 (omega arith) done)
      (write 0 0 (held_event 9 (view 0 0 3)) (omega arith) done) (write 1 0 75 (omega arith) done)
      (write 1 0 (held_event 9 (view 1 0 3)) (omega arith) done)
