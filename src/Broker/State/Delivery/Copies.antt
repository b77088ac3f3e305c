-- ===== src/Broker/State/Delivery/Copies.antt =====
-- What `publish` may do to a channel: the copies of the packet, and the session that it leaves.
use jack_hotaru_mqtt.Base.{
  ℕ, zero, suc, ◌+◌, ◌%◌, ◌==◌, ==_iff, ◌≤◌, ◌<◌, ◌^◌, ◌≡◌, ◌⊎◌, refl, ap, ◌∙◌, inl, inr, false,
  Bool-cases, List, [], ◌∷◌, ◌++◌, append_assoc, append-nil, Option, none, some, get, insert,
  get-remove_other, map, All, All-append, arith,
}
use native.Mathlib.Nat.{zero-add, suc-add}
use jack_hotaru_mqtt.Codes.QoS.{QoS, as_u8, at_most_once, at_least_once, exactly_once}
use jack_hotaru_mqtt.Packet.{PublishPacket}
use jack_hotaru_mqtt.Channel.{MqttChannel}
use jack_hotaru_mqtt.Channel

-- An identifier exactly if the QoS needs one; then it is a u16 other than 0.
abbrev pub FitsId : QoS → Option ℕ → Type 0
FitsId at_most_once id = id ≡ none
FitsId at_least_once none = ⊥
FitsId at_least_once (some id) = (1 ≤ id) × (id < 2 ^ 16)
FitsId exactly_once none = ⊥
FitsId exactly_once (some id) = (1 ≤ id) × (id < 2 ^ 16)

-- A copy of the packet for one subscriber.
abbrev pub IsCopy : PublishPacket → PublishPacket → Type 0
IsCopy packet copy =
    (copy.topic ≡ packet.topic)
    × (copy.payload ≡ packet.payload)
    × (copy.properties ≡ packet.properties)
    × (copy.dup ≡ false)
    × (copy.retain ≡ false)
    × (as_u8 copy.qos ≤ as_u8 packet.qos)
    × FitsId copy.qos copy.packet_id

-- The packets in flight, by their identifiers.
abbrev pub InFlight : Type 0
InFlight = List (ℕ × PublishPacket)

abbrev pub flight : ℕ → InFlight → Option PublishPacket
flight id slots = get (λ a b. a == b) id slots

-- The packet is kept in flight under the identifier of a copy, if the copy has one.
abbrev pub IsKept : PublishPacket → InFlight → Option ℕ → Type 0
IsKept packet slots none = Unit {0}
IsKept packet slots (some id) = flight id slots ≡ some packet

-- The counter of identifiers, a u16, after a number of steps.
abbrev pub Counts : ℕ → ℕ → ℕ → Type 0
Counts zero a b = a ≡ b
Counts (suc n) a b = Counts n ((a + 1) % 2 ^ 16) b

-- The commands that were added to a channel are copies of the packet. In the session the counter of
-- identifiers has moved on, and the packet itself may have been put in flight, as it is under the
-- identifier of each copy. All else is as before.
pub record Delivered (packet : PublishPacket) (before after : MqttChannel) : Type 0 where
  pub copies : List PublishPacket
  pub queued : after.queue ≡ before.queue ++ map Channel.publish copies
  pub faithful : All (IsCopy packet) copies
  pub same_reader : after.reader ≡ before.reader
  pub same_connection_id : after.connection_id ≡ before.connection_id
  pub same_role : after.role ≡ before.role
  pub same_open : after.is_open ≡ before.is_open
  pub same_listening : after.listening ≡ before.listening
  pub same_version : after.version ≡ before.version
  pub same_bind : after.session.bind ≡ before.session.bind
  pub same_recv : after.session.qos2_recv ≡ before.session.qos2_recv
  pub same_acks : after.session.pending_acks ≡ before.session.pending_acks
  pub allocations : ℕ
  pub counted : Counts allocations before.session.pkt_counter after.session.pkt_counter
  pub in_flight :
      (id : ℕ)
      → (flight id after.session.outbound_inflight ≡ flight id before.session.outbound_inflight)
        ⊎ (flight id after.session.outbound_inflight ≡ some packet)
  pub kept :
      All
        (λ (copy : PublishPacket). IsKept packet after.session.outbound_inflight copy.packet_id)
        copies

pub nothing : (packet : PublishPacket) (channel : MqttChannel) → Delivered packet channel channel
nothing packet channel = record {
  copies = [];
  queued = rw (append-nil channel.queue);
  faithful = tt;
  same_reader = refl;
  same_connection_id = refl;
  same_role = refl;
  same_open = refl;
  same_listening = refl;
  same_version = refl;
  same_bind = refl;
  same_recv = refl;
  same_acks = refl;
  allocations = 0;
  counted = refl;
  in_flight = λ id. inl refl;
  kept = tt;
}

Counts-add : (m n a b c : ℕ) → Counts m a b → Counts n b c → Counts (m + n) a c
Counts-add zero n a b c h k = rw (h, zero-add n) k
Counts-add (suc m) n a b c h k = rw (suc-add m n) (Counts-add m n ((a + 1) % 2 ^ 16) b c h k)

-- What may be said of the packets in flight before and after.
abbrev pub Changes : PublishPacket → InFlight → InFlight → Type 0
Changes packet old new = (id : ℕ) → (flight id new ≡ flight id old) ⊎ (flight id new ≡ some packet)

Changes-trans :
    (packet : PublishPacket) (a b c : InFlight)
    → Changes packet a b
    → Changes packet b c
    → Changes packet a c
Changes-trans packet a b c h k id = ground (arith, h id, k id)

IsKept-later :
    (packet : PublishPacket) (a b : InFlight) (id : Option ℕ)
    → Changes packet a b
    → IsKept packet a id
    → IsKept packet b id
IsKept-later packet a b none h k = tt
IsKept-later packet a b (some id) h k = ground (arith, h id)

All-later :
    (packet : PublishPacket) (a b : InFlight) (copies : List PublishPacket)
    → Changes packet a b
    → All (λ (copy : PublishPacket). IsKept packet a copy.packet_id) copies
    → All (λ (copy : PublishPacket). IsKept packet b copy.packet_id) copies
All-later packet a b [] h k = tt
All-later packet a b (copy ∷ copies) h (here, k) =
    (IsKept-later packet a b copy.packet_id h here, All-later packet a b copies h k)

pub Changes-insert :
    (packet : PublishPacket) (id : ℕ) (slots : InFlight)
    → Changes packet slots (insert (λ a b. a == b) id packet slots)
Changes-insert packet id slots other = elim (Bool-cases (other == id)) [
  | inl same ↦ inr (rw same refl)
  | inr differs ↦ inl (
      rw differs (
        get-remove_other (λ (a b : ℕ). a == b) other id slots
          (λ x e. ground (arith, ==_iff id x, ==_iff other x, ==_iff other id))))
]

map-append {ℓ κ} :
    {A : Type ℓ} {B : Type κ} (f : A → B) (xs ys : List A) → map f (xs ++ ys) ≡ map f xs ++ map f ys
map-append f [] ys = refl
map-append f (x ∷ xs) ys = ap (λ t. f x ∷ t) (map-append f xs ys)

pub and_then :
    (packet : PublishPacket) (a b c : MqttChannel)
    → Delivered packet a b
    → Delivered packet b c
    → Delivered packet a c
and_then packet a b c d e = record {
  copies = d.copies ++ e.copies;
  queued = rw (
    e.queued,
    d.queued,
    map-append Channel.publish d.copies e.copies,
    append_assoc a.queue (map Channel.publish d.copies) (map Channel.publish e.copies),
  );
  faithful = All-append (IsCopy packet) d.copies e.copies d.faithful e.faithful;
  same_reader = e.same_reader ∙ d.same_reader;
  same_connection_id = e.same_connection_id ∙ d.same_connection_id;
  same_role = e.same_role ∙ d.same_role;
  same_open = e.same_open ∙ d.same_open;
  same_listening = e.same_listening ∙ d.same_listening;
  same_version = e.same_version ∙ d.same_version;
  same_bind = e.same_bind ∙ d.same_bind;
  same_recv = e.same_recv ∙ d.same_recv;
  same_acks = e.same_acks ∙ d.same_acks;
  allocations = d.allocations + e.allocations;
  counted = Counts-add d.allocations e.allocations _ _ _ d.counted e.counted;
  in_flight = Changes-trans packet _ _ _ d.in_flight e.in_flight;
  kept =
      All-append
        (λ (copy : PublishPacket). IsKept packet c.session.outbound_inflight copy.packet_id)
        d.copies e.copies (All-later packet _ _ d.copies e.in_flight d.kept) e.kept;
}
