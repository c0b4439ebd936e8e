-- ===== src/H264/Order.antt =====
-- internal/jetkvm/video.go: the packets that orderedPackets returns, and where the reorder window goes.
use jetkvm_mcp.Base.{
  ℕ, zero, suc, ◌+◌, ◌≤◌, ◌<◌, true, Option, none, some, List, [], ◌∷◌, ◌≡◌, length, get_elem?, ltb,
  if◌then◌else◌, arith, Option-cases, Bool-cases, inl, inr,
}
use jetkvm_mcp.Base.Assoc.{lookup}
use jetkvm_mcp.H264.Sequence.{
  Packet, Pending, ObservedPacket, sub16, complete, ordered_packets, furthest, collect,
}

abbrev Arrived : Type 0
Arrived = List (ℕ × ObservedPacket)

furthest-ge : (m : ℕ) (ps : Arrived) (far f : ℕ) → furthest m ps far ≡ some f → far ≤ f
unfolding furthest
furthest-ge m [] far f h = ground arith
furthest-ge m ((q, o) ∷ ps) far f h = elim (Bool-cases (ltb far (sub16 m q))) [
  | inl e ↦ ground (arith, furthest-ge m ps (sub16 m q) f)
  | inr e ↦ ground (arith, furthest-ge m ps far f)
]

-- No packet that has arrived is further from the marker.
furthest-lookup :
    (m : ℕ) (ps : Arrived) (far f q : ℕ) (o : ObservedPacket)
    → furthest m ps far ≡ some f
    → lookup q ps ≡ some o
    → sub16 m q ≤ f
unfolding furthest lookup
furthest-lookup m [] far f q o h l = absurd (cc)
furthest-lookup m ((r, x) ∷ ps) far f q o h l =
    let far2 = if ltb far (sub16 m r) then sub16 m r else far in
    ground (arith, furthest-lookup m ps far2 f q o, furthest-ge m ps far2 f)

abbrev pub packet_of : Option ObservedPacket → Option Packet
packet_of none = none
packet_of (some o) = some o.packet

collect-length :
    (m : ℕ) (ps : Arrived) (far : ℕ) (qs : List Packet)
    → collect m ps far ≡ some qs
    → length qs ≡ suc far
unfolding collect
collect-length m ps zero qs h = ground (arith, Option-cases (lookup (sub16 m 0) ps))
collect-length m ps (suc far) qs h = elim (Option-cases (collect m ps far)) [
  | inl e ↦ ground (arith, Option-cases (lookup (sub16 m (suc far)) ps))
  | inr (rs, e) ↦
      ground (arith, Option-cases (lookup (sub16 m (suc far)) ps), collect-length m ps far rs e)
]

-- The packet at a place is the one that arrived at the distance that is left.
collect-get :
    (m : ℕ) (ps : Arrived) (far : ℕ) (qs : List Packet) (i d : ℕ)
    → collect m ps far ≡ some qs
    → i + d ≡ far
    → get_elem? qs i ≡ packet_of (lookup (sub16 m d) ps)
unfolding collect
collect-get m ps zero qs zero d h e = ground (arith, Option-cases (lookup (sub16 m 0) ps))
collect-get m ps zero qs (suc i) d h e = absurd (omega arith)
collect-get m ps (suc far) qs zero d h e = elim (Option-cases (collect m ps far)) [
  | inl x ↦ ground (arith, Option-cases (lookup (sub16 m (suc far)) ps))
  | inr (rs, x) ↦ ground (arith, Option-cases (lookup (sub16 m (suc far)) ps))
]
collect-get m ps (suc far) qs (suc i) d h e = elim (Option-cases (collect m ps far)) [
  | inl x ↦ ground (arith, Option-cases (lookup (sub16 m (suc far)) ps))
  | inr (rs, x) ↦
      ground (arith, Option-cases (lookup (sub16 m (suc far)) ps), collect-get m ps far rs i d x)
]

-- The packets of a unit, in order: as many as have arrived; in each place the packet that arrived with
-- the sequence number that far before the marker, so that the marker's is the last; and no packet has
-- arrived that is not among them.
pub record IsInOrder (p : Pending) (qs : List Packet) : Type 0 where
  pub as_many : length qs ≡ length p.packets
  pub placed :
      (i d : ℕ)
      → suc (i + d) ≡ length qs
      → get_elem? qs i ≡ packet_of (lookup (sub16 p.marker d) p.packets)
  pub whole :
      (q : ℕ) (o : ObservedPacket) → lookup q p.packets ≡ some o → sub16 p.marker q < length qs

-- Where orderedPackets finds the unit complete, the marker has been seen and the packets that it
-- returns are those that have arrived, in the order of their 16-bit sequence numbers.
pub ordered_packets-IsInOrder :
    (p : Pending) (qs : List Packet)
    → ordered_packets p ≡ complete qs
    → (p.marker_set ≡ true) × IsInOrder p qs
unfolding ordered_packets
ordered_packets-IsInOrder p qs h =
    let least = if p.expected_set then sub16 p.marker p.expected else 0 in
    elim (Option-cases (furthest p.marker p.packets least)) [
      | inl e ↦ absurd (ground arith)
      | inr (f, e) ↦ elim (Option-cases (collect p.marker p.packets f)) [
        | inl x ↦ absurd (ground arith)
        | inr (rs, x) ↦
            let l : qs ≡ rs = ground arith in
            let n = collect-length p.marker p.packets f rs x in
            (
              ground arith,
              record {
                as_many = ground arith;
                placed = λ i d q. ground (arith, collect-get p.marker p.packets f rs i d x);
                whole = λ q o y. ground (arith, furthest-lookup p.marker p.packets least f q o e y);
              },
            )
      ]
    ]
