-- ===== src/Control/Transfer/Sessions/Greeting.antt =====
-- A hello from a node to a hub, through both conversions of internal/control/convert.go.
use gossipcache.Common.{
  ℕ, ◌<◌, ◌≤◌, ◌^◌, ap, ◌∙◌, ◌≡◌, refl, none, some, List, [], ◌∷◌, map, length, inl, inr, arith,
}
use gossipcache.Errors.{Result-cases}
use gossipcache.Ownership.{Store, Writes, Old, done, IsOwned, contents, append_elements}
use gossipcache.Ownership.Copies.{elements_kept}
use gossipcache.Ownership.Frames.{
  append_elements-contents, append_elements-IsOwned, append_elements-Writes, contents-Writes-Old,
  Writes-length, Writes-trans,
}
use gossipcache.Wire.Clones.{pointee}
use gossipcache.Pb
use gossipcache.Control.Session.{StreamWatermark, validate_hello}
use gossipcache.Control.Clones.{HeldHello, read_hello}
use gossipcache.Control.Convert.ToProto.{proto_watermark, proto_hello}
use gossipcache.Control.Convert.FromProto.{from_proto_watermarks, from_proto_hello}
use gossipcache.Control.Convert.Messages.{from_proto_hello_iff}
use gossipcache.Control.Transfer.Sessions.{
  HelloMemory, WritesBehind, HeldPbHello, read_marks, read_pb_hello, proto_watermarks_in,
  proto_hello_in, conclude_hello_in, from_proto_hello_in,
}

abbrev message : StreamWatermark → Pb.StreamWatermark
message w = record {
  stream_id = w.stream_id;
  applied_through = w.applied_through;
  hub_generation = w.hub_generation;
}

proto_watermarks_in-Writes :
    (P : ℕ → Type 0) (s : Store Pb.StreamWatermark) (ws : List StreamWatermark)
    → Writes P s (proto_watermarks_in s ws).0
unfolding proto_watermarks_in
proto_watermarks_in-Writes P s [] = done
proto_watermarks_in-Writes P s (w ∷ ws) =
    Writes-trans (append_elements-Writes P s (message w ∷ []))
      (proto_watermarks_in-Writes P (append_elements s (message w ∷ [])).0 ws)

-- The messages of the watermarks, whatever is written to those that were there before.
proto_watermarks_in-kept :
    (n : ℕ) (s : Store Pb.StreamWatermark) (ws : List StreamWatermark)
    {u : Store Pb.StreamWatermark}
    → n ≤ length s
    → Writes (Old n) (proto_watermarks_in s ws).0 u
    → read_marks u (proto_watermarks_in s ws).1 ≡ map proto_watermark ws
unfolding proto_watermarks_in read_marks proto_watermark pointee
proto_watermarks_in-kept n s [] h r = refl
proto_watermarks_in-kept n s (w ∷ ws) h r =
    let t = (append_elements s (message w ∷ [])).0 in
    let one =
      elements_kept n s (message w ∷ []) h
        (Writes-trans (proto_watermarks_in-Writes (Old n) t ws) r) in
    let more =
      proto_watermarks_in-kept n t ws
        (omega (arith, h, Writes-length (append_elements-Writes (Old n) s (message w ∷ [])))) r in
    λ i. pointee (one i) ∷ more i

-- A node converts a hello. Whatever is later written to the arrays and messages that were there
-- before, the message stays the conversion of the hello as it was.
pub proto_hello_in-kept :
    (s : HelloMemory) (m : HeldHello) (u : HelloMemory)
    → WritesBehind s (proto_hello_in s m).0 u
    → read_pb_hello u (proto_hello_in s m).1 ≡ proto_hello (read_hello s.marks m)
unfolding proto_hello_in read_pb_hello proto_hello read_hello
proto_hello_in-kept s m u w =
    let marks = contents s.marks m.subscriptions in
    rw
      (
        elements_kept (length s.pointers) s.pointers (proto_watermarks_in s.messages marks).1
            (omega arith) w.pointers,
        proto_watermarks_in-kept (length s.messages) s.messages marks (omega arith) w.messages,
      )
      refl

-- Right behind the conversion.
from_proto_hello_in-read :
    (s : HelloMemory) (m : HeldPbHello)
    → (
      read_hello (from_proto_hello_in s (some m)).0.marks (from_proto_hello_in s (some m)).1,
      (from_proto_hello_in s (some m)).2,
    )
      ≡ from_proto_hello (some (read_pb_hello s m))
unfolding from_proto_hello_in read_hello from_proto_hello read_pb_hello conclude_hello_in contents
from_proto_hello_in-read s m =
    let read =
      from_proto_watermarks [] (read_marks s.messages (contents s.pointers m.subscriptions)) in
    elim (Result-cases read) [
      | inl (marks, e) ↦ let now = append_elements-contents s.marks marks in ground (arith, e, now)
      | inr (x, e) ↦ ground (arith, e)
    ]

from_proto_hello_in-IsOwned :
    (s : HelloMemory) (m : HeldPbHello)
    → IsOwned
        (length s.marks)
        (from_proto_hello_in s (some m)).0.marks
        (from_proto_hello_in s (some m)).1.subscriptions
unfolding from_proto_hello_in conclude_hello_in
from_proto_hello_in-IsOwned s m =
    let read =
      from_proto_watermarks [] (read_marks s.messages (contents s.pointers m.subscriptions)) in
    elim (Result-cases read) [
      | inl (marks, e) ↦
          let owned = append_elements-IsOwned s.marks marks in ground (arith, e, owned)
      | inr (x, e) ↦ ground (arith, e)
    ]

-- A hub converts a message. Whatever is later written to the arrays and messages that were there
-- before, the hello and the error are what the conversion of the message, as it was, gives.
pub from_proto_hello_in-kept :
    (s : HelloMemory) (m : HeldPbHello) (u : HelloMemory)
    → WritesBehind s (from_proto_hello_in s (some m)).0 u
    → (read_hello u.marks (from_proto_hello_in s (some m)).1, (from_proto_hello_in s (some m)).2)
      ≡ from_proto_hello (some (read_pb_hello s m))
from_proto_hello_in-kept s m u w =
    let out = (from_proto_hello_in s (some m)).1 in
    let same : read_hello u.marks out ≡ read_hello (from_proto_hello_in s (some m)).0.marks out =
      unfold read_hello in
      rw (contents-Writes-Old out.subscriptions (from_proto_hello_in-IsOwned s m) w.marks) refl in
    rw same (from_proto_hello_in-read s m)

-- A node converts a valid hello with versions of 16 bits, and then the arrays and messages that
-- were there before are written. A hub converts the message, and then what was there before is
-- written, the watermarks of the message too. The hub holds the hello as it was at first, with no
-- error.
pub from_proto-proto_hello_in :
    (s : HelloMemory) (m : HeldHello) (u w : HelloMemory)
    → validate_hello (read_hello s.marks m) ≡ none
    → m.protocol.version < 2 ^ 16
    → m.protocol.min_supported < 2 ^ 16
    → WritesBehind s (proto_hello_in s m).0 u
    → WritesBehind u (from_proto_hello_in u (some (proto_hello_in s m).1)).0 w
    → (read_hello w.marks (from_proto_hello_in u (some (proto_hello_in s m).1)).1
        ≡ read_hello s.marks m)
      × ((from_proto_hello_in u (some (proto_hello_in s m).1)).2 ≡ none)
from_proto-proto_hello_in s m u w valid version minimum sent received =
    let hello = read_hello s.marks m in
    let same =
      from_proto_hello_in-kept u (proto_hello_in s m).1 w received
      ∙ ap (λ p. from_proto_hello (some p)) (proto_hello_in-kept s m u sent)
      ∙ (from_proto_hello_iff (some (proto_hello hello)) hello).1
          (valid, unfold read_hello in version, unfold read_hello in minimum, refl) in
    (ap (λ x. x.0) same, ap (λ x. x.1) same)
