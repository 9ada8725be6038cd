-- ===== src/Control/Transfer/Sessions/Subscription.antt =====
-- A subscription from a node to a hub, through both conversions of internal/control/convert.go.
use gossipcache.Common.{ℕ, ap, ◌∙◌, ◌≡◌, refl, none, some, length, arith}
use gossipcache.Ownership.{Store, Writes, Old, done}
use gossipcache.Ownership.Copies.{copy_kept}
use gossipcache.Control.Session.{validate_subscribe}
use gossipcache.Control.Clones.{HeldSubscribe, read_subscribe}
use gossipcache.Control.Convert.ToProto.{proto_subscribe}
use gossipcache.Control.Convert.FromProto.{from_proto_subscribe}
use gossipcache.Control.Convert.Messages.{from_proto_subscribe_iff}
use gossipcache.Control.Transfer.Sessions.{
  proto_subscribe_in, read_pb_subscribe, from_proto_subscribe_in,
}

-- Whatever is written to the arrays that were there before a subscription was converted, the
-- message stays the conversion of the subscription as it was.
pub proto_subscribe_in-kept :
    (s : Store ℕ) (m : HeldSubscribe) (u : Store ℕ)
    → Writes (Old (length s)) (proto_subscribe_in s m).0 u
    → read_pb_subscribe u (proto_subscribe_in s m).1 ≡ proto_subscribe (read_subscribe s m)
unfolding proto_subscribe_in read_pb_subscribe proto_subscribe read_subscribe
proto_subscribe_in-kept s m u w = rw (copy_kept (length s) s m.stream_ids (omega arith) w) refl

-- The same of the way back, with the error.
pub from_proto_subscribe_in-kept :
    (s : Store ℕ) (m : HeldSubscribe) (u : Store ℕ)
    → Writes (Old (length s)) (from_proto_subscribe_in s (some m)).0 u
    → (
      read_subscribe u (from_proto_subscribe_in s (some m)).1,
      (from_proto_subscribe_in s (some m)).2,
    )
      ≡ from_proto_subscribe (some (read_pb_subscribe s m))
unfolding from_proto_subscribe_in read_pb_subscribe from_proto_subscribe read_subscribe
from_proto_subscribe_in-kept s m u w =
    rw
      (
        copy_kept (length s) s m.stream_ids (omega arith) w,
        copy_kept (length s) s m.stream_ids (omega arith) done,
      )
      refl

-- A node converts a valid subscription, and then the arrays that were there before are written. A
-- hub converts the message, and then the arrays that were there before are written, those of the
-- message too. The hub holds the subscription as it was at first, with no error.
pub from_proto-proto_subscribe_in :
    (s : Store ℕ) (m : HeldSubscribe) (u w : Store ℕ)
    → validate_subscribe (read_subscribe s m) ≡ none
    → Writes (Old (length s)) (proto_subscribe_in s m).0 u
    → Writes (Old (length u)) (from_proto_subscribe_in u (some (proto_subscribe_in s m).1)).0 w
    → (read_subscribe w (from_proto_subscribe_in u (some (proto_subscribe_in s m).1)).1
        ≡ read_subscribe s m)
      × ((from_proto_subscribe_in u (some (proto_subscribe_in s m).1)).2 ≡ none)
from_proto-proto_subscribe_in s m u w valid sent received =
    let subscribe = read_subscribe s m in
    let same =
      from_proto_subscribe_in-kept u (proto_subscribe_in s m).1 w received
      ∙ ap (λ p. from_proto_subscribe (some p)) (proto_subscribe_in-kept s m u sent)
      ∙ (from_proto_subscribe_iff (some (proto_subscribe subscribe)) subscribe).1 (valid, refl) in
    (ap (λ x. x.0) same, ap (λ x. x.1) same)
