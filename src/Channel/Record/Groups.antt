-- ===== src/Channel/Record/Groups.antt =====
-- The queue of entries as a queue of packets, each with the channels of its bunches.
use mathlib.Core.List.{append_assoc, append-nil}
use rudp_network_engine.Prelude.{
  ℕ, ◌-◌, ◌^◌, ◌<◌, ◌≡◌, ◌≢◌, refl, ap, ◌∙◌, Bool, true, false, List, [], ◌∷◌, ◌++◌, ◌==◌,
  if◌then◌else◌, arith, ℕ_discrete,
}
use rudp_network_engine.Prelude.Int.{ℤ, pos}
use rudp_network_engine.Channel.Record.{
  ChannelRecordEntry, ConnectionChannelRecord, push_packet_id, push_channel_record, take_channels,
  consume_front, consume_channel_records_for_packet,
}

-- A packet id and the channel of each bunch of the packet, in order.
abbrev pub Group : Type 0
Group = ℕ × List ℕ

abbrev pub channel_entries : List ℕ → List ChannelRecordEntry
channel_entries [] = []
channel_entries (c ∷ cs) = record { value = c; is_sequence = false } ∷ channel_entries cs

abbrev pub group_entries : Group → List ChannelRecordEntry
group_entries g = record { value = g.0; is_sequence = true } ∷ channel_entries g.1

abbrev pub entries : List Group → List ChannelRecordEntry
entries [] = []
entries (g ∷ gs) = group_entries g ++ entries gs

-- The channels that are told of a packet: each run of equal ones once.
abbrev pub called : ℕ → List ℕ → List ℕ
called previous [] = []
called previous (c ∷ cs) = if c == previous then called c cs else c ∷ called c cs

abbrev pub InRange : List ℕ → Type 0
InRange [] = Unit {0}
InRange (c ∷ cs) = (c < 2 ^ 31) × InRange cs

take_channels-groups :
    (previous : ℕ) (cs : List ℕ) (gs : List Group)
    → take_channels previous (channel_entries cs ++ entries gs) ≡ (called previous cs, entries gs)
unfolding take_channels
take_channels-groups previous [] [] = refl
take_channels-groups previous [] (g ∷ gs) = refl
take_channels-groups previous (c ∷ cs) gs = rw (take_channels-groups c cs gs)

-- The bunches of one packet, recorded as they are put into it.
abbrev pub record_channels : ConnectionChannelRecord → ℕ → List ℕ → ConnectionChannelRecord
record_channels r p [] = r
record_channels r p (c ∷ cs) = record_channels (push_channel_record r (pos p) (pos c)) p cs

-- A packet that is begun, and its bunches.
abbrev pub record_group : ConnectionChannelRecord → Group → ConnectionChannelRecord
record_group r g = record_channels (push_packet_id r (pos g.0)) g.0 g.1

push_channel-same :
    (r : ConnectionChannelRecord) (p c : ℕ)
    → c < 2 ^ 31
    → r.last_packet_id ≡ pos p
    → push_channel_record r (pos p) (pos c) ≡ record r {
      entry_record = r.entry_record ++ (record { value = c; is_sequence = false } ∷ []);
    }
unfolding push_packet_id push_channel_record
push_channel-same r p c h e = ground (arith, e)

push_packet-new :
    (r : ConnectionChannelRecord) (p : ℕ)
    → p < 2 ^ 31
    → r.last_packet_id ≢ pos p
    → push_packet_id r (pos p) ≡ record {
      entry_record = r.entry_record ++ (record { value = p; is_sequence = true } ∷ []);
      last_packet_id = pos p;
    }
unfolding push_packet_id
push_packet-new r p h e = ground (arith, e)

record_channels-entries :
    (r : ConnectionChannelRecord) (p : ℕ) (cs : List ℕ)
    → InRange cs
    → r.last_packet_id ≡ pos p
    → record_channels r p cs ≡ record r { entry_record = r.entry_record ++ channel_entries cs }
record_channels-entries r p [] h e = rw (append-nil r.entry_record)
record_channels-entries r p (c ∷ cs) h e =
    let added : List ChannelRecordEntry = record { value = c; is_sequence = false } ∷ [] in
    rw (
      push_channel-same r p c h.0 e,
      record_channels-entries (record r { entry_record = r.entry_record ++ added }) p cs h.1 e,
      append_assoc r.entry_record added (channel_entries cs),
    )

entries-append :
    (gs : List Group) (g : Group) → entries (gs ++ (g ∷ [])) ≡ entries gs ++ group_entries g
entries-append [] g = rw (append-nil (channel_entries g.1))
entries-append (x ∷ gs) g =
    rw (entries-append gs g, append_assoc (channel_entries x.1) (entries gs) (group_entries g))

-- What recording a packet adds.
pub record_group-entries :
    (r : ConnectionChannelRecord) (g : Group) (gs : List Group)
    → g.0 < 2 ^ 31
    → InRange g.1
    → r.last_packet_id ≢ pos g.0
    → r.entry_record ≡ entries gs
    → record_group r g
      ≡ record { entry_record = entries (gs ++ (g ∷ [])); last_packet_id = pos g.0 }
record_group-entries r g gs h k e o =
    let added : List ChannelRecordEntry = record { value = g.0; is_sequence = true } ∷ [] in
    let begun : ConnectionChannelRecord = record {
      entry_record = r.entry_record ++ added;
      last_packet_id = pos g.0;
    } in
    rw (
      push_packet-new r g.0 h e,
      record_channels-entries begun g.0 g.1 k refl,
      append_assoc r.entry_record added (channel_entries g.1),
      o,
      entries-append gs g,
    )

pub consume-entries :
    (r : ConnectionChannelRecord) (g : Group) (gs : List Group) (p : ℕ)
    → p < 2 ^ 31
    → r.entry_record ≡ entries (g ∷ gs)
    → consume_channel_records_for_packet r (pos p) ≡ (
        if p == g.0
        then (true, called (2 ^ 32 - 1) g.1, record r { entry_record = entries gs })
        else (false, [], r))
unfolding consume_channel_records_for_packet consume_front
consume-entries r g gs p h e = rw (e, take_channels-groups (2 ^ 32 - 1) g.1 gs) (ground arith)

abbrev pub contains : ℕ → List ℕ → Bool
contains c [] = false
contains c (x ∷ xs) = if c == x then true else contains c xs

contains-called :
    (c previous : ℕ) (cs : List ℕ) → c ≢ previous → contains c (called previous cs) ≡ contains c cs
contains-called c previous [] h = refl
contains-called c previous (x ∷ cs) h = elim (ℕ_discrete c x) [
  | yes e ↦ ground (arith, h, e)
  | no n ↦ ground (arith, h, n, contains-called c x cs n)
]

-- For the entries of a packet with the channels `cs` at the front, a channel below 2 ^ 31 is called for
-- exactly if it is among `cs`.
contains-take_channels :
    (c : ℕ) (cs : List ℕ) (gs : List Group)
    → c < 2 ^ 31
    → contains c (take_channels (2 ^ 32 - 1) (channel_entries cs ++ entries gs)).0 ≡ contains c cs
contains-take_channels c cs gs h =
    ap (λ d. contains c d.0) (take_channels-groups (2 ^ 32 - 1) cs gs)
    ∙ contains-called c (2 ^ 32 - 1) cs (omega arith)

-- What settling the packets `gs`, in order, calls for: each channel of a packet.
abbrev pub settle : ConnectionChannelRecord → List Group → List (Bool × List ℕ)
settle r [] = []
settle r (g ∷ gs) =
    let answer = consume_channel_records_for_packet r (pos g.0) in
    (answer.0, answer.1) ∷ settle answer.2 gs

abbrev pub answers : List Group → List (Bool × List ℕ)
answers [] = []
answers (g ∷ gs) = (true, called (2 ^ 32 - 1) g.1) ∷ answers gs

-- Packets whose ids and channels are in range, no two that follow each other with the same id.
abbrev pub ArePackets : ℤ → List Group → Type 0
ArePackets last [] = Unit {0}
ArePackets last (g ∷ gs) = (g.0 < 2 ^ 31) × InRange g.1 × (last ≢ pos g.0) × ArePackets (pos g.0) gs

abbrev pub record_groups : ConnectionChannelRecord → List Group → ConnectionChannelRecord
record_groups r [] = r
record_groups r (g ∷ gs) = record_groups (record_group r g) gs

record_groups-entries :
    (r : ConnectionChannelRecord) (sent gs : List Group)
    → ArePackets r.last_packet_id gs
    → r.entry_record ≡ entries sent
    → (record_groups r gs).entry_record ≡ entries (sent ++ gs)
record_groups-entries r sent [] h e = rw (append-nil sent) e
record_groups-entries r sent (g ∷ gs) h e =
    let begun : ConnectionChannelRecord = record {
      entry_record = entries (sent ++ (g ∷ []));
      last_packet_id = pos g.0;
    } in
    let rest = record_groups-entries begun (sent ++ (g ∷ [])) gs h.3 refl in
    ap (λ t. (record_groups t gs).entry_record) (record_group-entries r g sent h.0 h.1 h.2 e)
    ∙ rest
    ∙ ap entries (append_assoc sent (g ∷ []) gs)

pub ==_self : (n : ℕ) → (n == n) ≡ true
==_self n = ground arith

settle-entries :
    (r : ConnectionChannelRecord) (last : ℤ) (gs : List Group)
    → ArePackets last gs
    → r.entry_record ≡ entries gs
    → settle r gs ≡ answers gs
settle-entries r last [] h e = refl
settle-entries r last (g ∷ gs) h e =
    let left = settle-entries (record r { entry_record = entries gs }) (pos g.0) gs h.3 refl in
    rw (consume-entries r g gs g.0 h.0 e, ==_self g.0, left)

-- Packets recorded one after the other and settled in the same order: none is refused, and each
-- calls for the channels of its own bunches.
pub settle-record_groups :
    (r : ConnectionChannelRecord) (gs : List Group)
    → r.entry_record ≡ []
    → ArePackets r.last_packet_id gs
    → settle (record_groups r gs) gs ≡ answers gs
settle-record_groups r gs e h =
    settle-entries (record_groups r gs) r.last_packet_id gs h (record_groups-entries r [] gs h e)
